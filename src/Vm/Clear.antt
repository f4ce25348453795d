-- ===== src/Vm/Clear.antt =====
-- clearpteu of vm.c.
use modified_xv.Base.{
  ℕ, ◌+◌, ◌-◌, ◌/◌, ◌*◌, ◌^◌, ◌<◌, ◌≡◌, ◌==◌, refl, ap, ◌∙◌, true, false, some, Option, arith,
  if◌then◌else◌,
}
use modified_xv.Fs.Bytes.{get_le, put_le}
use modified_xv.Vm.{Vm, pdx, ptx, is_present, is_user, clearpteu}
use modified_xv.Vm.Space.{dir_entry, table, pte, IsSpace}
use modified_xv.Vm.Entries.{pte-set, IsSpace-set}
use modified_xv.Vm.Ranges.{walk_found}

-- An entry without the bit of the user.
abbrev shut : ℕ → ℕ
shut e = if is_user e then e - 4 else e

-- For a directory whose page tables and the free pages are pages apart, an address with a page table,
-- and an entry of 32 bits: `clearpteu` does not panic, takes the user's bit off the entry of the
-- address, and changes no other entry.
clearpteu_lem :
    (pgdir uva : ℕ) (v : Vm)
    → IsSpace pgdir v
    → uva < 2 ^ 32
    → is_present (dir_entry v.mem pgdir (pdx uva)) ≡ true
    → pte v.mem pgdir uva < 2 ^ 32
    → (v' : Vm) × (clearpteu pgdir uva v ≡ some v')
      × IsSpace pgdir v'
      × (is_user (pte v'.mem pgdir uva) ≡ false)
      × ((a : ℕ)
          → a < 2 ^ 32
          → (a / 4096 == uva / 4096) ≡ false
          → pte v'.mem pgdir a ≡ pte v.mem pgdir a)
unfolding clearpteu
clearpteu_lem pgdir uva v s lt there small =
    let at = table v.mem pgdir (pdx uva) + 4 * ptx uva in
    let e : pte v.mem pgdir uva ≡ get_le 4 v.mem at = rw there refl in
    let less : shut (get_le 4 v.mem at) < 2 ^ 32 = ground (arith, e, small) in
    let set = pte-set pgdir uva (shut (get_le 4 v.mem at)) v s lt less there in
    let here : (uva / 4096 == uva / 4096) ≡ true = ground arith in
    (
      record v { mem = put_le 4 v.mem at (shut (get_le 4 v.mem at)) },
      rw
          (
            clearpteu,
            walk_found pgdir uva v there,
            ap (λ (z : Option ℕ × Vm). z.1) (walk_found pgdir uva v there),
          )
          refl,
      IsSpace-set pgdir uva (shut (get_le 4 v.mem at)) v s lt less there,
      ap is_user (set uva lt ∙ rw here refl) ∙ shut_user (get_le 4 v.mem at),
      λ a l ne. set a l ∙ rw ne refl,
    )
  where
    shut_user : (e : ℕ) → is_user (shut e) ≡ false
    shut_user e = ground arith
