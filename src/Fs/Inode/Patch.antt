-- ===== src/Fs/Inode/Patch.antt =====
-- A change of the bytes of one block of a file.
use modified_xv.Base.{
  ℕ, ◌/◌, ◌%◌, ◌<◌, ◌≡◌, ◌≢◌, refl, sym, ◌∙◌, false, ◌==◌, ==_refl, arith, Bool-cases, inl, inr,
}
use modified_xv.Fs.Blocks.{Fs, put_block, bblock}
use modified_xv.Fs.Blocks.Bitmap.{used}
use modified_xv.Fs.Blocks.Free.{free_blocks, free_blocks-same}
use modified_xv.Fs.Inode.{Inode, ndirect, maxfile}
use modified_xv.Fs.Inode.Slots.{slot, content, IsHeld, IsSound}

module _ (ip : Inode) (s : Fs) (ok : IsSound ip s) (b : ℕ) (bytes : ℕ → ℕ)
    (small : (o : ℕ) → bytes o < 256) (apart : (a : ℕ) → a < s.size → bblock s a ≢ b)
    (data_block : slot ip s maxfile ≢ 0 → slot ip s maxfile ≢ b) where
  abbrev patched : Fs
  patched = put_block b bytes s

  pub patched-used : (a : ℕ) → a < s.size → used patched a ≡ used s a
  patched-used a lt = let ne : (bblock s a == b) ≡ false = ground (arith, apart a lt) in rw ne refl

  pub patched-slot : (k : ℕ) → slot ip patched k ≡ slot ip s k
  patched-slot k = elim (Bool-cases (ip.addrs ndirect == 0)) [
    | inl e ↦ rw e refl
    | inr e ↦
        let nz : ip.addrs ndirect ≢ 0 = ground (arith, e) in
        let ne : (ip.addrs ndirect == b) ≡ false = ground (arith, data_block nz) in rw (e, ne) refl
  ]

  pub patched_held : (c : ℕ) → IsHeld s c → IsHeld patched c
  patched_held c h = record {
    small = h.small;
    taken = patched-used c h.small ∙ h.taken;
    apart = h.apart;
  }

  pub patched-IsSound : IsSound ip patched
  patched-IsSound = record {
    formatted = record {
      bytes = λ c o. elim (Bool-cases (c == b)) [
        | inl e ↦ rw e (small o)
        | inr e ↦ rw e (ok.formatted.bytes c o)
      ];
      map_used = λ a lt.
          patched-used (bblock s a) (ok.formatted.map_small a lt) ∙ ok.formatted.map_used a lt;
      map_small = ok.formatted.map_small;
    };
    few = ok.few;
    boot = patched_held 0 ok.boot;
    held = λ k le nz.
        let p = patched-slot k in
        rw p (patched_held (slot ip s k) (ok.held k le (λ z. nz (p ∙ z))));
    distinct = λ j k a c nz e.
        ok.distinct j k a c (λ z. nz (patched-slot j ∙ z))
          (sym (patched-slot j) ∙ e ∙ patched-slot k);
  }

  pub patched_own :
      (i : ℕ) → slot ip s (i / 512) ≡ b → b ≢ 0 → content ip patched i ≡ bytes (i % 512)
  patched_own i e nz =
      let p = patched-slot (i / 512) in
      let z : (b == 0) ≡ false = ground (arith, nz) in rw (p, e, z, ==_refl b) refl

  pub patched_other : (i : ℕ) → slot ip s (i / 512) ≢ b → content ip patched i ≡ content ip s i
  patched_other i ne =
      let p = patched-slot (i / 512) in
      let z : (slot ip s (i / 512) == b) ≡ false = ground (arith, ne) in rw (p, z) refl

  pub patched_free : free_blocks patched ≡ free_blocks s
  patched_free = free_blocks-same s patched refl patched-used
