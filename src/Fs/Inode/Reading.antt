-- ===== src/Fs/Inode/Reading.antt =====
-- The loop of readi in fs.c, and readi of a file.
use modified_xv.Base.{
  ℕ, zero, suc, ◌+◌, ◌-◌, ◌*◌, ◌/◌, ◌%◌, ◌^◌, ◌≤◌, ◌<◌, ◌≡◌, ◌≢◌, refl, ◌∙◌, true, false, some,
  none, ◌==◌, ltb, leb, ◌||◌, arith, Bool-cases, inl, inr, Option-cases, window, window_append,
  window_shift, min, if◌then◌else◌, add32,
}
use modified_xv.Fs.Blocks.{Fs, bsize}
use modified_xv.Fs.Inode.{Inode, Devices, t_dev, maxfile, bmap, read_blocks, read_file, readi}
use modified_xv.Fs.Inode.Slots.{slot, content, IsSound}
use modified_xv.Fs.Inode.Bmap.{bmap_lem, Loads}

-- The size is within the limit, and every byte of the file has a block.
pub record IsDense (ip : Inode) (s : Fs) : Type 0 where
  pub limit : ip.size ≤ maxfile * bsize
  pub dense : (bn : ℕ) → bn * bsize < ip.size → slot ip s bn ≢ 0

-- `bmap` at a block that is there.
bmap-present :
    (ip : Inode) (s : Fs) (bn : ℕ)
    → IsSound ip s
    → bn < maxfile
    → slot ip s bn ≢ 0
    → bmap ip bn s ≡ some (slot ip s bn, ip, s)
bmap-present ip s bn ok lt nz =
    let h = bmap_lem ip s bn ok lt in
    elim (Option-cases (bmap ip bn s)) [
      | inl n ↦ let h' : Loads 2 ip s bn none = rw n at h in absurd (nz h'.1)
      | inr ((a, ip1, s1), p) ↦
          let (l, same) : Loads 2 ip s bn (some (a, ip1, s1)) = rw p at h in
          let (x, y) = same nz in
          let q : slot ip s bn ≡ a = rw (x, y) at l.address in p ∙ rw (x, y, q) refl
    ]

-- The bytes of one block are those of the file.
window-content :
    (ip : Inode) (s : Fs) (off m : ℕ)
    → slot ip s (off / 512) ≢ 0
    → m ≤ 512 - off % 512
    → window (s.block (slot ip s (off / 512))) (off % 512) m ≡ window (content ip s) off m
window-content ip s off m nz le =
    window_shift (s.block (slot ip s (off / 512))) (content ip s) (off % 512) off m λ d lt.
      let p : (off + d) / 512 ≡ off / 512 = omega arith in
      let q : (off + d) % 512 ≡ off % 512 + d = omega arith in
      let z : (slot ip s (off / 512) == 0) ≡ false = ground (arith, nz) in rw (p, q, z) refl

module _ (ip : Inode) (s : Fs) (ok : IsSound ip s) where
  read_blocks_lem :
      (fuel off left : ℕ)
      → left ≤ fuel
      → off + left ≤ maxfile * bsize
      → ((bn : ℕ) → bn * bsize < off + left → slot ip s bn ≢ 0)
      → read_blocks fuel ip off left s ≡ some (window (content ip s) off left, ip, s)
  unfolding read_blocks
  read_blocks_lem zero off zero le top there = refl
  read_blocks_lem zero off (suc left) le top there = absurd (omega arith)
  read_blocks_lem (suc fuel) off zero le top there = refl
  read_blocks_lem (suc fuel) off (suc left) le top there =
      let l = suc left in
      let m = min l (512 - off % 512) in
      let nz = there (off / 512) (omega arith) in
      let p = bmap-present ip s (off / 512) ok (omega arith) nz in
      let ih =
        read_blocks_lem fuel (off + m) (l - m) (omega arith) (omega arith)
          (λ bn lt. there bn (omega arith)) in
      let z : (l == 0) ≡ false = ground arith in
      let w = window-content ip s off m nz (omega arith) in
      let sum : m + (l - m) ≡ l = omega arith in
      rw (z, p, ih, w, window_append (content ip s) off m (l - m), sum) refl

-- A read within the file.
pub read_file_lem :
    (ip : Inode) (s : Fs)
    → IsSound ip s
    → IsDense ip s
    → (off n : ℕ) → off ≤ ip.size
    → off + n < 2 ^ 32
    → read_file ip off n s ≡ some (some (window (content ip s) off (min n (ip.size - off))), ip, s)
unfolding read_file
read_file_lem ip s ok full off n low fits =
    let m = min n (ip.size - off) in
    let g : (ltb ip.size off || ltb (add32 off n) off) ≡ false = ground arith in
    let c : (if ltb ip.size (add32 off n) then ip.size - off else n) ≡ m = ground arith in
    let h =
      read_blocks_lem ip s ok m off m (omega arith) (omega (arith, low, full.limit))
        (λ bn lt. full.dense bn (omega (arith, low, lt))) in
    rw (g, c, h) refl

-- For a sound inode that is no device and has a block for every byte, and an offset and a count
-- below 2 ^ 32, `readi` changes nothing and does not panic: with an offset past the end of the
-- file or an end at or past 2 ^ 32 it gives -1, and else the bytes of the file from the offset on,
-- up to the count or the end of the file.
pub readi_lem :
    (D : Devices) (w : D.World) (ip : Inode) (s : Fs) (off n : ℕ)
    → IsSound ip s
    → IsDense ip s
    → ip.kind ≢ t_dev
    → off < 2 ^ 32
    → n < 2 ^ 32
    → readi D ip off n s w
      ≡ some (
        if ltb ip.size off || leb (2 ^ 32) (off + n)
            then none
            else some (window (content ip s) off (min n (ip.size - off))),
        ip,
        s,
        w,
      )
unfolding readi read_file
readi_lem D w ip s off n ok full file a b =
    let k : (ip.kind == t_dev) ≡ false = ground (arith, file) in
    elim (Bool-cases (ltb ip.size off || leb (2 ^ 32) (off + n))) [
      | inl e ↦
          let g : (ltb ip.size off || ltb (add32 off n) off) ≡ true = ground arith in
          rw (k, e, g) refl
      | inr e ↦
          let fits : off + n < 2 ^ 32 = ground arith in
          let low : off ≤ ip.size = ground arith in
          rw (k, e, read_file_lem ip s ok full off n low fits) refl
    ]
