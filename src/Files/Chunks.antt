-- ===== src/Files/Chunks.antt =====
-- The loop of filewrite in file.c: its rounds, and a whole write.
use modified_xv.Base.{
  ℕ, zero, suc, ◌+◌, ◌-◌, ◌^◌, ◌≤◌, ◌<◌, ◌≡◌, refl, ap, true, some, arith, ◌==◌, Bool-cases, inl,
  inr, add32, min, ◌*◌, ◌/◌, none, leb, ltb, ◌&&◌, if◌then◌else◌,
}
use Prim.Native.Nat.{max}
use modified_xv.Files.{Transfers, chunk, after_piece, write_chunks, write_inode}

-- The bytes `f` with `n` bytes of `src` from `i` on in the place of those at `off`.
abbrev pub placed : (ℕ → ℕ) → (ℕ → ℕ) → ℕ → ℕ → ℕ → ℕ → ℕ
placed f src i off n j = if leb off j && ltb j (off + n) then src (i + (j - off)) else f j

-- How many of `n` bytes at `off` are stored: all, or the pieces that end within the limit.
abbrev pub moved : ℕ → ℕ → ℕ → ℕ
moved limit off n = if leb (off + n) limit then n else (limit - off) / chunk * chunk

module _ (T : Transfers) where
  open T use {World, writei}

  write_chunks-stable :
      (fuel n ip i left off : ℕ) (w : World)
      → left ≤ fuel
      → fuel ≤ n
      → write_chunks T n ip i left off w ≡ write_chunks T fuel ip i left off w
  unfolding write_chunks
  write_chunks-stable zero zero ip i left off w h le = refl
  write_chunks-stable zero (suc n) ip i left off w h le =
      let done : (left == 0) ≡ true = ground arith in rw done refl
  write_chunks-stable (suc fuel) zero ip i left off w h le = absurd (omega arith)
  write_chunks-stable (suc fuel) (suc n) ip i left off w h le = elim (Bool-cases (left == 0)) [
    | inl e ↦ rw e refl
    | inr e ↦
        let more : 0 < left = ground arith in
        let r = writei ip i off (min left chunk) w in
        let ih =
          write_chunks-stable fuel n ip (i + min left chunk) (left - min left chunk)
            (add32 off (min left chunk)) r.1 (omega (arith, more)) (omega arith) in
        rw e (ap (after_piece T r.0 (min left chunk) off r.1) ih)
  ]

  -- As many rounds as there are bytes are enough for the loop of `filewrite`: more give the same
  -- result.
  pub write_inode-fuel :
      (fuel ip n off : ℕ) (w : World)
      → n ≤ fuel
      → write_chunks T fuel ip 0 n off w ≡ write_inode T ip n off w
  unfolding write_inode
  write_inode-fuel fuel ip n off w h = write_chunks-stable n fuel ip 0 n off w (omega arith) h

-- What `writei` does to the file of inode `ip`, of at most `limit` bytes, with the bytes `src` and
-- while blocks are free: a range that ends within the limit is stored, any other refused.
pub record Stored (T : Transfers) (ip : ℕ) (src : ℕ → ℕ) (limit : ℕ) : Type 0 where
  pub size : T.World → ℕ
  pub content : T.World → ℕ → ℕ
  pub stores :
      (i off n : ℕ) (w : T.World)
      → off ≤ size w
      → off + n ≤ limit
      → let (r, w') = T.writei ip i off n w in
        (r ≡ some n)
        × (size w' ≡ max (size w) (off + n))
        × ((j : ℕ) → content w' j ≡ placed (content w) src i off n j)
  pub refuses : (i off n : ℕ) (w : T.World) → limit < off + n → T.writei ip i off n w ≡ (none, w)

module _ (T : Transfers) (ip : ℕ) (src : ℕ → ℕ) (limit : ℕ) (S : Stored T ip src limit)
    (low : limit < 2 ^ 31) where
  open T use {World, writei}
  open S use {size, content, stores, refuses}

  -- After `m` bytes from `src i` on were stored at `off`.
  record IsPlaced (i off m : ℕ) (w w' : World) : Type 0 where
    pub size_now : size w' ≡ max (size w) (off + m)
    pub content_now : (j : ℕ) → content w' j ≡ placed (content w) src i off m j
