-- ===== src/Fs/Inode/Writing.antt =====
-- The loop of writei in fs.c.
use modified_xv.Base.{
  ℕ, zero, suc, ◌+◌, ◌-◌, ◌*◌, ◌/◌, ◌%◌, ◌≤◌, ◌<◌, ◌≡◌, ◌≢◌, refl, sym, ap, ◌∙◌, true, false,
  Option, some, none, ◌==◌, ==_iff, ltb, leb, ◌&&◌, arith, Bool-cases, if_ind, inl, inr,
  Option-cases, min, if◌then◌else◌,
}
use modified_xv.Fs.Blocks.{Fs, bsize, put_block}
use modified_xv.Fs.Blocks.Free.{free_blocks}
use modified_xv.Fs.Inode.{Inode, maxfile, bmap, patch, write_blocks}
use modified_xv.Fs.Inode.Slots.{slot, content, IsHeld, IsForeign, IsSound, IsLoaded}
use modified_xv.Fs.Inode.Bmap.{bmap_lem, Loads}
use modified_xv.Fs.Inode.Patch.{
  patched-slot, patched_held, patched-IsSound, patched_own, patched_other, patched_free,
}

-- Byte `j` of a file after a write.
abbrev pub over : (ℕ → ℕ) → (ℕ → ℕ) → ℕ → ℕ → ℕ → ℕ → ℕ
over old src i off left j = if leb off j && ltb j (off + left) then src (i + (j - off)) else old j

-- What the writing of `left` bytes at `off` does.
pub record IsWritten (ip : Inode) (s : Fs) (src : ℕ → ℕ) (i off left : ℕ) (ip' : Inode) (s' : Fs)
    : Type 0 where
  pub sound : IsSound ip' s'
  pub written :
      (j : ℕ) → j / 512 < maxfile → content ip' s' j ≡ over (content ip s) src i off left j
  pub there : (j : ℕ) → off ≤ j → j < off + left → slot ip' s' (j / 512) ≢ 0
  pub slots_kept : (j : ℕ) → j ≤ maxfile → slot ip s j ≢ 0 → slot ip' s' j ≡ slot ip s j
  pub foreign_kept : (c : ℕ) → IsForeign ip s c → IsForeign ip' s' c × (s'.block c ≡ s.block c)
  pub size_kept : s'.size ≡ s.size
  pub inodes_kept : s'.inodestart ≡ s.inodestart
  pub fields_kept : ip' ≡ record ip { addrs = ip'.addrs }

-- The rounds for `left` bytes at `off`.
abbrev pub rounds : ℕ → ℕ → ℕ
rounds off left = if left == 0 then 0 else (off % 512 + left + 511) / 512

pub rounds_step :
    (off n : ℕ)
    → 0 < n
    → rounds (off + min n (512 - off % 512)) (n - min n (512 - off % 512)) < rounds off n
rounds_step off n pos =
    let m = min n (512 - off % 512) in
    let z : (n == 0) ≡ false = ground arith in
    elim (Bool-cases (n - m == 0)) [
      | inl e ↦ rw (z, e) (omega (arith, pos))
      | inr e ↦ let more : n - m ≢ 0 = ground (arith, e) in rw (z, e) (omega (arith, more))
    ]

abbrev pub Writes : Inode → Fs → (ℕ → ℕ) → ℕ → ℕ → ℕ → Option (Inode × Fs) → Type 0
Writes ip s src i off left none = free_blocks s < 2 * rounds off left
Writes ip s src i off left (some (ip', s')) = IsWritten ip s src i off left ip' s'

-- Nothing to write.
IsWritten-zero :
    (ip : Inode) (s : Fs) (src : ℕ → ℕ) (i off : ℕ) → IsSound ip s → IsWritten ip s src i off 0 ip s
IsWritten-zero ip s src i off ok = record {
  sound = ok;
  written = λ j lt.
      let none_of : (leb off j && ltb j (off + 0)) ≡ false = ground arith in rw none_of refl;
  there = λ j a b. absurd (omega arith);
  slots_kept = λ j le nz. refl;
  foreign_kept = λ c h. (h, refl);
  size_kept = refl;
  inodes_kept = refl;
  fields_kept = refl;
}

-- Two pieces, one after the other.
over-over :
    (f g src : ℕ → ℕ) (i off m left j : ℕ)
    → g j ≡ over f src i off m j
    → over g src (i + m) (off + m) left j ≡ over f src i off (m + left) j
over-over f g src i off m left j h = elim (Bool-cases (leb off j && ltb j (off + m))) [
  | inl e ↦
      let p : (leb (off + m) j && ltb j (off + m + left)) ≡ false = ground arith in
      let q : (leb off j && ltb j (off + (m + left))) ≡ true = ground arith in
      rw (p, q) (h ∙ rw e refl)
  | inr e ↦ elim (Bool-cases (leb (off + m) j && ltb j (off + m + left))) [
    | inl p ↦
        let q : (leb off j && ltb j (off + (m + left))) ≡ true = ground arith in
        let d : i + m + (j - (off + m)) ≡ i + (j - off) = ground arith in rw (p, q, d) refl
    | inr p ↦
        let q : (leb off j && ltb j (off + (m + left))) ≡ false = ground arith in
        rw (p, q) (h ∙ rw e refl)
  ]
]

-- One round.
module _ (src : ℕ → ℕ) (small : (o : ℕ) → src o < 256) (ip : Inode) (s : Fs) (i off m : ℕ) (a : ℕ)
    (ip1 : Inode) (s1 : Fs) (l : IsLoaded 2 ip s (off / 512) a ip1 s1) (top : off / 512 < maxfile)
    (pos : 0 < m) (fits : m ≤ 512 - off % 512) where
  abbrev bytes : ℕ → ℕ
  bytes = patch (s1.block a) (off % 512) m src i

  bytes_small : (o : ℕ) → bytes o < 256
  bytes_small o =
      if_ind (λ v. v < 256) (leb (off % 512) o && ltb o (off % 512 + m)) _ _
        (λ e. small (i + (o - off % 512))) (λ e. l.sound.formatted.bytes a o)

  held : IsHeld s1 a
  held =
      let h = l.sound.held (off / 512) (omega (arith, top)) (λ z. l.real (sym l.address ∙ z)) in
      rw l.address at h

  no_indirect : slot ip1 s1 maxfile ≢ 0 → slot ip1 s1 maxfile ≢ a
  no_indirect nz e =
      let w =
        l.sound.distinct maxfile (off / 512) (omega arith) (omega (arith, top)) nz
          (e ∙ sym l.address) in
      absurd (omega (arith, w, top))

  abbrev s2 : Fs
  s2 = put_block a bytes s1

  sound2 : IsSound ip1 s2
  sound2 = patched-IsSound ip1 s1 l.sound a bytes bytes_small held.apart no_indirect

  slot2 : (k : ℕ) → slot ip1 s2 k ≡ slot ip1 s1 k
  slot2 = patched-slot ip1 s1 l.sound a bytes bytes_small held.apart no_indirect

  written2 : (j : ℕ) → j / 512 < maxfile → content ip1 s2 j ≡ over (content ip s) src i off m j
  written2 j lt = elim (Bool-cases (j / 512 == off / 512)) [
    | inl e ↦
        let q : j / 512 ≡ off / 512 = ground (arith, e) in
        let eq : slot ip1 s1 (j / 512) ≡ a = ap (slot ip1 s1) q ∙ l.address in
        let own =
          patched_own ip1 s1 l.sound a bytes bytes_small held.apart no_indirect j eq l.real in
        let z : (a == 0) ≡ false = ground (arith, l.real) in
        let plain : content ip1 s1 j ≡ s1.block a (j % 512) = rw (eq, z) refl in
        let same_test : (leb (off % 512) (j % 512) && ltb (j % 512) (off % 512 + m))
            ≡ (leb off j && ltb j (off + m)) =
          ground (arith, q) in
        own ∙ elim (Bool-cases (leb off j && ltb j (off + m))) [
          | inl t ↦
              let d : j % 512 - off % 512 ≡ j - off = omega (arith, q) in rw (same_test, t, d) refl
          | inr t ↦ rw (same_test, t) (sym plain ∙ l.content_kept j lt)
        ]
    | inr e ↦
        let ne : j / 512 ≢ off / 512 = ground (arith, e) in
        let out : (leb off j && ltb j (off + m)) ≡ false = ground (arith, ne) in
        let apart : slot ip1 s1 (j / 512) ≢ a = λ y. ne (
          l.sound.distinct (j / 512) (off / 512) (omega (arith, lt)) (omega (arith, top))
            (λ z. l.real (sym y ∙ z)) (y ∙ sym l.address)) in
        patched_other ip1 s1 l.sound a bytes bytes_small held.apart no_indirect j apart
        ∙ l.content_kept j lt
        ∙ rw out refl
  ]

  free2 : free_blocks s2 ≡ free_blocks s1
  free2 = patched_free ip1 s1 l.sound a bytes bytes_small held.apart no_indirect

  foreign2 : (c : ℕ) → IsForeign ip s c → IsForeign ip1 s2 c × (s2.block c ≡ s.block c)
  foreign2 c h =
      let (h1, e1) = l.foreign_kept c h in
      let ne : (c == a) ≡ false = elim (Bool-cases (c == a)) [
        | inr e ↦ e
        | inl e ↦
            absurd (h1.other (off / 512) (omega (arith, top)) (l.address ∙ sym ((==_iff c a).0 e)))
      ] in
      (
        record {
          held = patched_held ip1 s1 l.sound a bytes bytes_small held.apart no_indirect c h1.held;
          real = h1.real;
          other = λ k le e. h1.other k le (sym (slot2 k) ∙ e);
        },
        rw ne e1,
      )

  -- A round, and the rounds after it.
  then-IsWritten :
      (left : ℕ) (ip' : Inode) (s' : Fs)
      → IsWritten ip1 s2 src (i + m) (off + m) left ip' s'
      → IsWritten ip s src i off (m + left) ip' s'
  then-IsWritten left ip' s' r = record {
    sound = r.sound;
    written = λ j lt.
        r.written j lt
        ∙ over-over (content ip s) (content ip1 s2) src i off m left j (written2 j lt);
    there = λ j x y. elim (Bool-cases (ltb j (off + m))) [
      | inr e ↦ r.there j (ground arith) (omega arith)
      | inl e ↦
          let q : j / 512 ≡ off / 512 = ground arith in
          let p : slot ip1 s2 (off / 512) ≡ a = slot2 (off / 512) ∙ l.address in
          let nz : slot ip1 s2 (off / 512) ≢ 0 = λ z. l.real (sym p ∙ z) in
          λ z.
            nz (
              sym (r.slots_kept (off / 512) (omega (arith, top)) nz) ∙ ap (slot ip' s') (sym q) ∙ z)
    ];
    slots_kept = λ j h nz.
        let p = l.slots_kept j h nz in
        let q = slot2 j ∙ p in r.slots_kept j h (λ z. nz (sym q ∙ z)) ∙ q;
    foreign_kept =
        λ c h. let (h1, e1) = foreign2 c h in let (h2, e2) = r.foreign_kept c h1 in (h2, e2 ∙ e1);
    size_kept = r.size_kept ∙ l.size_kept;
    inodes_kept = r.inodes_kept ∙ l.inodes_kept;
    fields_kept =
        r.fields_kept
        ∙ ap {A = Inode} {B = Inode} (λ x. record x { addrs = ip'.addrs }) l.fields_kept;
  }

pub write_blocks_lem :
    (src : ℕ → ℕ)
    → ((o : ℕ) → src o < 256)
    → (fuel : ℕ) (ip : Inode) (s : Fs) (i off left : ℕ) → IsSound ip s
    → left ≤ fuel
    → off + left ≤ maxfile * bsize
    → Writes ip s src i off left (write_blocks fuel ip src i off left s)
unfolding write_blocks
write_blocks_lem src small zero ip s i off zero ok le top = IsWritten-zero ip s src i off ok
write_blocks_lem src small zero ip s i off (suc left) ok le top = absurd (omega arith)
write_blocks_lem src small (suc fuel) ip s i off zero ok le top = IsWritten-zero ip s src i off ok
write_blocks_lem src small (suc fuel) ip s i off (suc left) ok le top =
    let n = suc left in
    let m = min n (512 - off % 512) in
    let z : (n == 0) ≡ false = ground arith in
    let inside : off / 512 < maxfile = omega arith in
    let sum : m + (n - m) ≡ n = omega arith in
    let h = bmap_lem ip s (off / 512) ok inside in
    elim (Option-cases (bmap ip (off / 512) s)) [
      | inl p ↦
          let h' : Loads 2 ip s (off / 512) none = rw p at h in
          let some_round = rounds_step off n (omega arith) in
          rw (z, p) (omega (arith, h'.0, some_round))
      | inr ((a, ip1, s1), p) ↦
          let (l, same) : Loads 2 ip s (off / 512) (some (a, ip1, s1)) = rw p at h in
          let left1 = n - m in
          let sound3 =
            sound2 src small ip s i off m a ip1 s1 l inside (omega arith) (omega arith) in
          let free3 = free2 src small ip s i off m a ip1 s1 l inside (omega arith) (omega arith) in
          let w = put_block a (patch (s1.block a) (off % 512) m src i) s1 in
          let ih =
            write_blocks_lem src small fuel ip1 w (i + m) (off + m) left1 sound3 (omega arith)
              (omega arith) in
          elim (Option-cases (write_blocks fuel ip1 src (i + m) (off + m) left1 w)) [
            | inl q ↦
                let few : free_blocks w < 2 * rounds (off + m) left1 = rw q at ih in
                let step : rounds (off + m) left1 < rounds off n =
                  rounds_step off n (omega arith) in
                rw (z, p, q) (omega (arith, few, step, free3, l.spent))
            | inr ((ip', s'), q) ↦
                let r : IsWritten ip1 w src (i + m) (off + m) left1 ip' s' = rw q at ih in
                let t =
                  then-IsWritten src small ip s i off m a ip1 s1 l inside (omega arith)
                    (omega arith) left1 ip' s' r in
                rw (z, p, q) (rw sum at t)
          ]
    ]
