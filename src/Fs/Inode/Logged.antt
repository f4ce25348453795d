-- ===== src/Fs/Inode/Logged.antt =====
-- How often writei of fs.c calls log_write.
use modified_xv.Base.{
  ℕ, zero, suc, ◌+◌, ◌-◌, ◌*◌, ◌/◌, ◌%◌, ◌≤◌, ◌<◌, ◌≡◌, refl, Option, some, none, length, ◌==◌, ltb,
  arith, Bool-cases, inl, inr, Option-cases, min,
}
use modified_xv.Fs.Blocks.{
  Fs, bsize, bpb, balloc, balloc_from, bzero, mark_used, clear_bit, bblock, put_block,
}
use modified_xv.Fs.Inode.{
  Inode, ndirect, nindirect, load_addr, load_entry, entry, bmap, write_blocks, patch, iupdate,
}
use modified_xv.Files.{chunk}
use modified_xv.Log.{log_size}
use modified_xv.Fs.Inode.Writing.{rounds, rounds_step}

-- The result has at most `k` calls of `log_write` more.
abbrev pub Logs {ℓ} : {A : Type ℓ} → ℕ → Fs → Option (A × Fs) → Type 0
Logs k s none = Unit
Logs k s (some (r, s')) = length s'.logged ≤ k + length s.logged

balloc_from-logged : (fuel b : ℕ) (s : Fs) → Logs 2 s (balloc_from fuel b s)
unfolding balloc_from bzero mark_used
balloc_from-logged zero b s = tt
balloc_from-logged (suc fuel) b s = elim (Bool-cases (ltb b s.size)) [
  | inr e ↦ rw (balloc_from, e) tt
  | inl e ↦ elim (Option-cases (clear_bit (s.block (bblock s b)) s.size b 0 bpb)) [
    | inl c ↦ rw (balloc_from, e, c) (balloc_from-logged fuel (b + bpb) s)
    | inr (bi, c) ↦ rw (balloc_from, e, c) (omega arith)
  ]
]

balloc-logged : (s : Fs) → Logs 2 s (balloc s)
unfolding balloc
balloc-logged s = balloc_from-logged (s.size / bpb + 1) 0 s

load_entry-logged : (ind k : ℕ) (s : Fs) → Logs 3 s (load_entry ind k s)
unfolding load_entry
load_entry-logged ind k s = elim (Bool-cases (entry (s.block ind) k == 0)) [
  | inr e ↦ rw (load_entry, e) (omega arith)
  | inl e ↦
      let h = balloc-logged s in
      elim (Option-cases (balloc s)) [
        | inl p ↦ rw (load_entry, e, p) tt
        | inr ((a, s1), p) ↦
            let h' : length s1.logged ≤ 2 + length s.logged = rw p at h in
            rw (load_entry, e, p) (omega (arith, h'))
      ]
]

abbrev LogsInode : ℕ → Fs → Option (ℕ × Inode × Fs) → Type 0
LogsInode k s none = Unit
LogsInode k s (some (a, ip, s')) = length s'.logged ≤ k + length s.logged

load_addr-logged : (ip : Inode) (i : ℕ) (s : Fs) → LogsInode 2 s (load_addr ip i s)
unfolding load_addr
load_addr-logged ip i s = elim (Bool-cases (ip.addrs i == 0)) [
  | inr e ↦ rw (load_addr, e) (omega arith)
  | inl e ↦
      let h = balloc-logged s in
      elim (Option-cases (balloc s)) [
        | inl p ↦ rw (load_addr, e, p) tt
        | inr ((a, s1), p) ↦
            let h' : length s1.logged ≤ 2 + length s.logged = rw p at h in rw (load_addr, e, p) h'
      ]
]

bmap-logged : (ip : Inode) (bn : ℕ) (s : Fs) → LogsInode 5 s (bmap ip bn s)
unfolding bmap
bmap-logged ip bn s = elim (Bool-cases (ltb bn ndirect)) [
  | inl e ↦
      let h = load_addr-logged ip bn s in
      elim (Option-cases (load_addr ip bn s)) [
        | inl p ↦ rw (bmap, e, p) tt
        | inr ((a, ip1, s1), p) ↦
            let h' : length s1.logged ≤ 2 + length s.logged = rw p at h in
            rw (bmap, e, p) (omega (arith, h'))
      ]
  | inr e ↦ elim (Bool-cases (ltb (bn - ndirect) nindirect)) [
    | inr q ↦ rw (bmap, e, q) tt
    | inl q ↦
        let h = load_addr-logged ip ndirect s in
        elim (Option-cases (load_addr ip ndirect s)) [
          | inl p ↦ rw (bmap, e, q, p) tt
          | inr ((ind, ip1, s1), p) ↦
              let h' : length s1.logged ≤ 2 + length s.logged = rw p at h in
              let g = load_entry-logged ind (bn - ndirect) s1 in
              elim (Option-cases (load_entry ind (bn - ndirect) s1)) [
                | inl t ↦ rw (bmap, e, q, p, t) tt
                | inr ((a, s2), t) ↦
                    let g' : length s2.logged ≤ 3 + length s1.logged = rw t at g in
                    rw (bmap, e, q, p, t) (omega (arith, h', g'))
              ]
        ]
  ]
]

pub iupdate-logged : (ip : Inode) (s : Fs) → length (iupdate ip s).logged ≡ suc (length s.logged)
unfolding iupdate
iupdate-logged ip s = refl

-- A round calls `log_write` six times at most: twice for a block, three times for an entry of the
-- indirect block, and once for the bytes.
pub write_blocks-logged :
    (fuel : ℕ) (ip : Inode) (src : ℕ → ℕ) (i off left : ℕ) (s : Fs)
    → Logs (6 * rounds off left) s (write_blocks fuel ip src i off left s)
unfolding write_blocks
write_blocks-logged zero ip src i off left s = elim (Bool-cases (left == 0)) [
  | inl e ↦ rw (write_blocks, e) (omega arith)
  | inr e ↦ rw (write_blocks, e) tt
]
write_blocks-logged (suc fuel) ip src i off left s = elim (Bool-cases (left == 0)) [
  | inl e ↦ rw (write_blocks, e) (omega arith)
  | inr e ↦
      let more : 0 < left = ground (arith, e) in
      let h = bmap-logged ip (off / bsize) s in
      elim (Option-cases (bmap ip (off / bsize) s)) [
        | inl p ↦ rw (write_blocks, e, p) tt
        | inr ((a, ip1, s1), p) ↦
            let h' : length s1.logged ≤ 5 + length s.logged = rw p at h in
            let m = min left (bsize - off % bsize) in
            let s2 = put_block a (patch (s1.block a) (off % bsize) m src i) s1 in
            rw (write_blocks, e, p)
              (later s2 (write_blocks fuel ip1 src (i + m) (off + m) (left - m) s2)
                (omega (arith, h')) (rw e at (rounds_step off left more))
                (write_blocks-logged fuel ip1 src (i + m) (off + m) (left - m) s2))
      ]
]
  where
    later :
        (s2 : Fs) (r : Option (Inode × Fs)) {k n : ℕ}
        → length s2.logged ≤ 6 + length s.logged
        → k < n
        → Logs (6 * k) s2 r
        → Logs (6 * n) s r
    later s2 none a b c = tt
    later s2 (some (ip', s')) a b c = omega (arith, a, b, c)

-- A piece of `filewrite`, at most 1536 bytes, fits into an empty log.
chunk-fits : (off n : ℕ) → n ≤ chunk → 6 * rounds off n + 1 < log_size
chunk-fits off n small = elim (Bool-cases (n == 0)) [
  | inl e ↦ rw e (omega arith)
  | inr e ↦ rw e (omega (arith, small))
]
