-- ===== src/Buffers/Tests.antt =====
-- Three buffers, of which two are idle.
use modified_xv.Base.{◌+◌, arith, false, true, [], ◌∷◌, ◌==◌, if◌then◌else◌}
use modified_xv.Buffers.{Bcache, bget}
use modified_xv.Buffers.Lookup.{IsUnique, Gets, bget_lem}

abbrev buffers : Bcache
buffers = record {
  buf = λ i. record {
    dev = 1;
    blockno = i + 10;
    refcnt = if i == 1 then 1 else 0;
    valid = true;
    dirty = false;
    bytes = λ o. i;
  };
  order = 2 ∷ 0 ∷ 1 ∷ [];
}

buffers-IsUnique : IsUnique buffers
buffers-IsUnique i j a b nz d n = omega (arith, n)

bget_lem_example : Gets 1 30 buffers (bget 1 30 buffers)
bget_lem_example =
    bget_lem 1 30 buffers buffers-IsUnique (λ e. ground (arith, e)) (λ i. ground arith)
