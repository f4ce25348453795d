-- ===== src/Vm/Entries.antt =====
-- The store of an entry in a page table of vm.c.
use modified_xv.Base.{
  ℕ, ◌+◌, ◌*◌, ◌/◌, ◌^◌, ◌≤◌, ◌<◌, ◌≡◌, ◌≢◌, refl, arith, true, ◌⊎◌, inl, inr, ◌==◌, ==_iff, ltb,
  if◌then◌else◌, Bool-cases,
}
use modified_xv.Fs.Bytes.{put_le, get_le-put_le, get_le-put_le_other}
use modified_xv.Vm.{Vm, pdx, ptx, is_present}
use modified_xv.Vm.Space.{dir_entry, table, pte, IsSpace, IsSpace-same, Within-put_le, read_apart}

same_page :
    (va a : ℕ) → va < 2 ^ 32 → a < 2 ^ 32 → pdx va ≡ pdx a → ptx va ≡ ptx a → va / 4096 ≡ a / 4096
same_page va a lt lt' d t = omega (arith, d, t)

pub slots_apart :
    (base i j : ℕ) → i ≢ j → (base + 4 * i + 4 ≤ base + 4 * j) ⊎ (base + 4 * j + 4 ≤ base + 4 * i)
slots_apart base i j ne = elim (Bool-cases (ltb i j)) [
  | inl x ↦ (let h : i < j = ground (arith, x) in inl (omega (arith, h)))
  | inr x ↦ (let h : j < i = ground (arith, x, ne) in inr (omega (arith, h)))
]

-- A store to the entry of an address that has a page table.
module _ (pgdir va val : ℕ) (v : Vm) (s : IsSpace pgdir v) (lt : va < 2 ^ 32) (small : val < 2 ^ 32)
    (there : is_present (dir_entry v.mem pgdir (pdx va)) ≡ true) where
  abbrev at : ℕ
  at = table v.mem pgdir (pdx va) + 4 * ptx va

  pub dir_entry-set :
      (d : ℕ) → d < 1024 → dir_entry (put_le 4 v.mem at val) pgdir d ≡ dir_entry v.mem pgdir d
  dir_entry-set d l =
      read_apart v.mem (put_le 4 v.mem at val) (table v.mem pgdir (pdx va)) pgdir d s.whole
        (omega arith) (s.apart (pdx va) (omega arith) there) l
        (Within-put_le (table v.mem pgdir (pdx va)) (ptx va) val v.mem (omega arith))

  pub pte-set :
      (a : ℕ)
      → a < 2 ^ 32
      → pte (put_le 4 v.mem at val) pgdir a
        ≡ (if a / 4096 == va / 4096 then val else pte v.mem pgdir a)
  pte-set a l =
      let e = dir_entry-set (pdx a) (omega arith) in
      elim (Bool-cases (a / 4096 == va / 4096)) [
        | inl q ↦
            let p : pdx a ≡ pdx va = ground (arith, q) in
            let t : ptx a ≡ ptx va = ground (arith, q) in
            rw (e, q, p, t, there) (get_le-put_le 4 v.mem at val small)
        | inr q ↦ elim (Bool-cases (is_present (dir_entry v.mem pgdir (pdx a)))) [
          | inr p ↦ rw (e, q, p) refl
          | inl p ↦ elim (Bool-cases (pdx a == pdx va)) [
            | inl same ↦
                let d : pdx a ≡ pdx va = (==_iff _ _).0 same in
                let ne : ptx a ≢ ptx va = λ t. ground (arith, q, same_page a va l lt d t) in
                rw (e, q, p)
                  (rw d (
                    get_le-put_le_other 4 4 v.mem at val (table v.mem pgdir (pdx va) + 4 * ptx a)
                      (slots_apart (table v.mem pgdir (pdx va)) (ptx a) (ptx va) ne)))
            | inr other ↦
                rw (e, q, p)
                  (read_apart v.mem (put_le 4 v.mem at val) (table v.mem pgdir (pdx va))
                    (table v.mem pgdir (pdx a)) (ptx a) (omega arith) (omega arith)
                    (λ t. ground (
                      arith,
                      other,
                      s.distinct (pdx va) (pdx a) (omega arith) (omega arith) there p t,
                    ))
                    (omega arith)
                    (Within-put_le (table v.mem pgdir (pdx va)) (ptx va) val v.mem (omega arith)))
          ]
        ]
      ]

  pub IsSpace-set : IsSpace pgdir (record v { mem = put_le 4 v.mem at val })
  IsSpace-set =
      IsSpace-same pgdir v (record v { mem = put_le 4 v.mem at val }) dir_entry-set s
        (λ p h. (s.free_frame p h, s.free_private p h)) s.nodup
