-- ===== src/Fs/Inode/Writei.antt =====
-- writei of fs.c on a file, and the reading of what it wrote.
use modified_xv.Base.{
  ℕ, ◌+◌, ◌-◌, ◌*◌, ◌/◌, ◌^◌, ◌≤◌, ◌<◌, ◌≡◌, ◌≢◌, refl, sym, ap, ◌∙◌, Bool, true, false, some, none,
  ◌==◌, ltb, leb, ◌||◌, ◌&&◌, arith, Bool-cases, inl, inr, Option-cases, min, if◌then◌else◌, add32,
  window, window_shift, length,
}
use modified_xv.Fs.Blocks.{Fs, bsize}
use modified_xv.Fs.Blocks.Free.{free_blocks}
use modified_xv.Fs.Inode.{
  Inode, Devices, t_dev, maxfile, write_blocks, write_file, writei, iblock, iupdate, readi,
}
use modified_xv.Fs.Inode.Slots.{slot, content, IsForeign, IsSound}
use modified_xv.Fs.Inode.Reading.{IsDense, readi_lem}
use modified_xv.Fs.Inode.Store.{
  iupdate-IsSound, slot-iupdate, content-iupdate, iupdate-IsForeign, block-iupdate, inodes-iupdate,
  resized, resized-IsSound, resized-IsForeign,
}
use modified_xv.Log.{log_size}
use modified_xv.Fs.Inode.Logged.{write_blocks-logged, iupdate-logged}
use modified_xv.Fs.Inode.Writing.{over, rounds, IsWritten, write_blocks_lem}

-- The arguments for which `writei` gives -1.
abbrev pub refused : Inode → ℕ → ℕ → Bool
refused ip off n = ltb ip.size off || leb (2 ^ 32) (off + n) || ltb (maxfile * bsize) (off + n)

-- What a write of `n` bytes at `off` does to a file, and to what others hold.
pub record IsWrite (ip : Inode) (s : Fs) (src : ℕ → ℕ) (off n : ℕ) (ip' : Inode) (s' : Fs)
    : Type 0 where
  pub sound : IsSound ip' s'
  pub full : IsDense ip' s'
  pub size : ip'.size ≡ (if ltb ip.size (off + n) then off + n else ip.size)
  pub written : (j : ℕ) → j / 512 < maxfile → content ip' s' j ≡ over (content ip s) src 0 off n j
  pub foreign_kept :
      (c : ℕ)
      → IsForeign ip s c
      → c ≢ iblock s ip.inum
      → IsForeign ip' s' c × (s'.block c ≡ s.block c)
  pub kind_kept : ip'.kind ≡ ip.kind
  pub home_kept : (iblock s' ip'.inum ≡ iblock s ip.inum) × IsForeign ip' s' (iblock s' ip'.inum)

module _ (ip : Inode) (s : Fs) (src : ℕ → ℕ) (off n : ℕ) (ip1 : Inode) (s1 : Fs)
    (r : IsWritten ip s src 0 off n ip1 s1) (full : IsDense ip s)
    (home : IsForeign ip s (iblock s ip.inum)) (low : off ≤ ip.size)
    (top : off + n ≤ maxfile * bsize) where
  same_inum : ip1.inum ≡ ip.inum
  same_inum = ap Inode.inum r.fields_kept

  same_size : ip1.size ≡ ip.size
  same_size = ap Inode.size r.fields_kept

  same_home : iblock s1 ip1.inum ≡ iblock s ip.inum
  same_home = rw (same_inum, r.inodes_kept) refl

  -- Every byte of the old file and of the new bytes has a block.
  covered :
      (bn : ℕ)
      → bn * 512 < (if ltb ip.size (off + n) then off + n else ip.size)
      → slot ip1 s1 bn ≢ 0
  covered bn lt = elim (Bool-cases (ltb (bn * 512) ip.size)) [
    | inl e ↦
        let old = full.dense bn (ground (arith, e)) in
        let in_range : bn ≤ maxfile = ground (arith, e, full.limit) in
        λ z. old (sym (r.slots_kept bn in_range old) ∙ z)
    | inr e ↦
        let p : bn * 512 / 512 ≡ bn = omega arith in
        let h = r.there (bn * 512) (ground (arith, e, low)) (ground (arith, e, lt)) in rw p at h
  ]

  home1 : IsForeign ip1 s1 (iblock s1 ip1.inum)
  home1 = rw same_home (r.foreign_kept (iblock s ip.inum) home).0

  -- The file grows.
  grows :
      ltb ip.size (off + n) ≡ true
      → let ip2 = record ip1 { size = off + n } in IsWrite ip s src off n ip2 (iupdate ip2 s1)
  grows e =
      let ip2 = resized ip1 s1 (off + n) in
      let ok2 = resized-IsSound ip1 s1 (off + n) r.sound in
      let home2 = resized-IsForeign ip1 s1 (off + n) _ home1 in
      record {
        sound = iupdate-IsSound ip2 s1 ok2 home2;
        full = record {
          limit = top;
          dense = λ bn lt z. covered bn (rw e lt) (sym (slot-iupdate ip2 s1 ok2 home2 bn) ∙ z);
        };
        size = rw e refl;
        written = λ j lt. content-iupdate ip2 s1 ok2 home2 j lt ∙ r.written j lt;
        foreign_kept = λ c h ne.
            let (h1, e1) = r.foreign_kept c h in
            (
              iupdate-IsForeign ip2 s1 ok2 home2 c (resized-IsForeign ip1 s1 (off + n) c h1),
              block-iupdate ip2 s1 ok2 home2 c (λ z. ne (z ∙ same_home)) ∙ e1,
            );
        kind_kept = ap Inode.kind r.fields_kept;
        home_kept =
            let p : iblock (iupdate ip2 s1) ip1.inum ≡ iblock s1 ip1.inum =
              ap (λ v. ip1.inum / 8 + v) (inodes-iupdate ip2 s1 ok2 home2) in
            (p ∙ same_home, rw p (iupdate-IsForeign ip2 s1 ok2 home2 (iblock s1 ip1.inum) home2));
      }

  -- The file keeps its size.
  stays : ltb ip.size (off + n) ≡ false → IsWrite ip s src off n ip1 s1
  stays e = record {
    sound = r.sound;
    full = record {
      limit = rw same_size full.limit;
      dense = λ bn lt. covered bn (rw e (rw same_size at lt));
    };
    size = same_size ∙ rw e refl;
    written = r.written;
    foreign_kept = λ c h ne. r.foreign_kept c h;
    kind_kept = ap Inode.kind r.fields_kept;
    home_kept = (same_home, home1);
  }

-- `writei` to an inode that is no device, with an offset and a count below 2 ^ 32, gives -1 and
-- changes nothing, where the offset is past the end of the file, the end at or past 2 ^ 32 or the
-- end past the largest size.
pub writei_refused :
    (D : Devices) (w : D.World) (ip : Inode) (s : Fs) (src : ℕ → ℕ) (off n : ℕ)
    → ip.kind ≢ t_dev
    → off < 2 ^ 32
    → n < 2 ^ 32
    → refused ip off n ≡ true
    → writei D ip src off n s w ≡ some (none, ip, s, w)
unfolding writei write_file
writei_refused D w ip s src off n file a b e =
    let k : (ip.kind == t_dev) ≡ false = ground (arith, file) in
    let g : (ltb ip.size off || ltb (add32 off n) off || ltb (maxfile * bsize) (add32 off n))
        ≡ true =
      ground arith in
    rw (k, g) refl

-- For a sound inode that is no device, has a block for every byte and whose own block is none of
-- them, and bytes at an offset within the file and an end within the largest size, where two
-- blocks are free for each round of the loop and the blocks given to `log_write` before, six for
-- each round and one more are fewer than LOGSIZE: `writei` ends, returns the count, and leaves a
-- sound inode with a block for every byte, whose bytes are the new ones in their place and else
-- the old ones, whose size has grown to the end of the write where that is larger, and no block of
-- others has changed but that of the inodes; the calls of `log_write` are still fewer than LOGSIZE
-- in all.
pub writei_lem :
    (D : Devices) (w : D.World) (ip : Inode) (s : Fs) (src : ℕ → ℕ) (off n : ℕ)
    → IsSound ip s
    → IsDense ip s
    → IsForeign ip s (iblock s ip.inum)
    → ip.kind ≢ t_dev
    → ((o : ℕ) → src o < 256)
    → refused ip off n ≡ false
    → 2 * rounds off n ≤ free_blocks s
    → length s.logged + 6 * rounds off n + 1 < log_size
    → (ip' : Inode) × (s' : Fs) × (writei D ip src off n s w ≡ some (some n, ip', s', w))
      × IsWrite ip s src off n ip' s'
      × (length s'.logged < log_size)
unfolding writei write_file
writei_lem D w ip s src off n ok full home file small fine room fits =
    let k : (ip.kind == t_dev) ≡ false = ground (arith, file) in
    let g : (ltb ip.size off || ltb (add32 off n) off || ltb (maxfile * bsize) (add32 off n))
        ≡ false =
      ground arith in
    let low : off ≤ ip.size = ground arith in
    let top : off + n ≤ maxfile * bsize = ground arith in
    let h = write_blocks_lem src small n ip s 0 off n ok (omega arith) top in
    let log = write_blocks-logged n ip src 0 off n s in
    elim (Option-cases (write_blocks n ip src 0 off n s)) [
      | inl p ↦
          let few : free_blocks s < 2 * rounds off n = rw p at h in
          absurd (omega (arith, few, room))
      | inr ((ip1, s1), p) ↦
          let r : IsWritten ip s src 0 off n ip1 s1 = rw p at h in
          let calls : length s1.logged ≤ 6 * rounds off n + length s.logged = rw p at log in
          elim (Bool-cases (ltb ip.size (off + n))) [
            | inl e ↦
                let t : (ltb 0 n && ltb ip1.size (off + n)) ≡ true =
                  ground (arith, low, ap Inode.size r.fields_kept) in
                (
                  record ip1 { size = off + n },
                  iupdate (record ip1 { size = off + n }) s1,
                  rw (k, g, p, t) refl,
                  grows ip s src off n ip1 s1 r full home low top e,
                  omega (arith, iupdate-logged (record ip1 { size = off + n }) s1, calls, fits),
                )
            | inr e ↦
                let t : (ltb 0 n && ltb ip1.size (off + n)) ≡ false =
                  ground (arith, ap Inode.size r.fields_kept) in
                (
                  ip1,
                  s1,
                  rw (k, g, p, t) refl,
                  stays ip s src off n ip1 s1 r full home low top e,
                  omega (arith, calls, fits),
                )
          ]
    ]

-- For a sound inode that is no device, has a block for every byte and whose own block is none of
-- them, and bytes at an offset within the file and an end within the largest size, where two
-- blocks are free for each round of the loop and the blocks given to `log_write` before, six for
-- each round and one more are fewer than LOGSIZE: `writei` returns the count, and a `readi` of the
-- same range then returns the bytes written; the calls of `log_write` are still fewer than LOGSIZE
-- in all.
pub readi-writei :
    (D : Devices) (w : D.World) (ip : Inode) (s : Fs) (src : ℕ → ℕ) (off n : ℕ)
    → IsSound ip s
    → IsDense ip s
    → IsForeign ip s (iblock s ip.inum)
    → ip.kind ≢ t_dev
    → ((o : ℕ) → src o < 256)
    → refused ip off n ≡ false
    → 2 * rounds off n ≤ free_blocks s
    → length s.logged + 6 * rounds off n + 1 < log_size
    → (ip' : Inode) × (s' : Fs) × (writei D ip src off n s w ≡ some (some n, ip', s', w))
      × (length s'.logged < log_size)
      × (readi D ip' off n s' w ≡ some (some (window src 0 n), ip', s', w))
readi-writei D w ip s src off n ok full home file small fine room fits =
    let (ip', s', eq, r, calls) =
      writei_lem D w ip s src off n ok full home file small fine room fits in
    let top : off + n ≤ maxfile * bsize = ground arith in
    let size : off + n ≤ ip'.size = ground (arith, r.size) in
    let accepted : (ltb ip'.size off || leb (2 ^ 32) (off + n)) ≡ false =
      ground (arith, size, top) in
    let whole : min n (ip'.size - off) ≡ n = omega (arith, size) in
    let back =
      readi_lem D w ip' s' off n r.sound r.full (λ e. file (sym r.kind_kept ∙ e))
        (omega (arith, top)) (omega (arith, top)) in
    let same : window (content ip' s') off n ≡ window src 0 n =
      window_shift (content ip' s') src off 0 n λ d lt.
        let t : (leb off (off + d) && ltb (off + d) (off + n)) ≡ true = ground arith in
        let q : 0 + (off + d - off) ≡ 0 + d = omega arith in
        r.written (off + d) (omega (arith, lt, top)) ∙ rw (t, q) refl in
    (ip', s', eq, calls, back ∙ rw (accepted, whole, same) refl)
