-- ===== src/Vm.antt =====
-- vm.c: page tables in memory, and the calls that map, unmap and copy the pages of a process.
pub mod Space
pub mod Entries
pub mod Walk
pub mod Leaves
pub mod Mapping
pub mod Ranges
pub mod Drop
pub mod Unmap
pub mod Grow
pub mod Undo
pub mod Failure
pub mod Allocate
pub mod Pieces
pub mod Copyout
mod Clear
mod Tests
use modified_xv.Base.{
  ℕ, zero, suc, ◌+◌, ◌-◌, ◌*◌, ◌/◌, ◌%◌, ◌^◌, Bool, true, false, ◌&&◌, ◌||◌, not, Option, none,
  some, List, [], ◌∷◌, ◌==◌, ltb, leb, if◌then◌else◌, add32, sub32, ◌>>=◌, min,
}
use modified_xv.Fs.Bytes.{get_le, put_le}
use modified_xv.Memory.{Bounds, page_size, kernbase, phystop, is_page, round_up}

-- The bytes of physical memory, and the pages on the free list, by their physical addresses. What
-- `kalloc` and `kfree` leave in the first word of a free page is not in it.
pub record Vm : Type 0 where
  pub bounds : Bounds
  pub mem : ℕ → ℕ
  pub free : List ℕ

-- `memset` of a page.
abbrev pub fill : ℕ → ℕ → (ℕ → ℕ) → ℕ → ℕ
fill page c m o = if leb page o && ltb o (page + 4096) then c else m o

-- `memmove` of `n` bytes that do not overlap.
abbrev pub copy_to : ℕ → (ℕ → ℕ) → ℕ → ℕ → (ℕ → ℕ) → ℕ → ℕ
copy_to dst src from n m o = if leb dst o && ltb o (dst + n) then src (from + (o - dst)) else m o

-- `kfree(P2V(pa))` with the list as a list of pages.
pub free_page : ℕ → Vm → Option Vm
free_page pa v =
    if is_page v.bounds (add32 pa kernbase)
    then some (record v { mem = fill pa 1 v.mem; free = pa ∷ v.free })
    else none

-- `PDX` and `PTX`
abbrev pub pdx : ℕ → ℕ
pdx va = va / 0x400000 % 1024

abbrev pub ptx : ℕ → ℕ
ptx va = va / 4096 % 1024

-- `PTE_P`, `PTE_U`, `PTE_ADDR`, `PTE_FLAGS`
abbrev pub is_present : ℕ → Bool
is_present e = e % 2 == 1

abbrev pub is_user : ℕ → Bool
is_user e = e / 4 % 2 == 1

abbrev pub pte_addr : ℕ → ℕ
pte_addr e = e / 4096 * 4096

abbrev pub pte_flags : ℕ → ℕ
pte_flags e = e % 4096

-- The new page table of `walkpgdir`; its page directory entry is at `pde`.
pub new_table : ℕ → ℕ → List ℕ → Vm → Option ℕ × Vm
new_table pde va [] v = (none, v)
new_table pde va (page ∷ rest) v = (
  some (page + 4 * ptx va),
  record v { mem = put_le 4 (fill page 0 v.mem) pde (page + 7); free = rest },
)

-- The address of the entry, or 0.
pub walkpgdir : ℕ → ℕ → Bool → Vm → Option ℕ × Vm
walkpgdir pgdir va alloc v =
    let pde = get_le 4 v.mem (pgdir + 4 * pdx va) in
    if is_present pde
    then (some (pte_addr pde + 4 * ptx va), v)
    else if alloc
    then new_table (pgdir + 4 * pdx va) va v.free v
    else (none, v)

-- `pa | perm | PTE_P` for the address of a page and flags below 4096.
abbrev pub leaf : ℕ → ℕ → ℕ
leaf pa perm = pa + (if is_present perm then perm else perm + 1)

-- The store of an entry at the address that `walkpgdir` gave: whether `mappages` goes on; `none` is
-- the panic.
pub set_leaf : ℕ → ℕ → Option ℕ × Vm → Option (Bool × Vm)
set_leaf pa perm (none, v) = some (false, v)
set_leaf pa perm (some pte, v) =
    if is_present (get_le 4 v.mem pte)
    then none
    else some (true, record v { mem = put_le 4 v.mem pte (leaf pa perm) })

-- The loop of `mappages`: whether it returns 0.
pub map_pages : ℕ → ℕ → ℕ → ℕ → ℕ → ℕ → Vm → Option (Bool × Vm)
map_pages zero pgdir a last pa perm v = none
map_pages (suc fuel) pgdir a last pa perm v =
    (set_leaf pa perm (walkpgdir pgdir a true v) >>= λ (ok, v1). elim ok [
      | false ↦ some (false, v1)
      | true ↦ elim (a == last) [
        | true ↦ some (true, v1)
        | false ↦ map_pages fuel pgdir (add32 a 4096) last (add32 pa 4096) perm v1
      ]
    ])

-- `PGROUNDDOWN`
abbrev pub round_down : ℕ → ℕ
round_down a = a / 4096 * 4096

-- The address space has 2 ^ 20 pages.
pub mappages : ℕ → ℕ → ℕ → ℕ → ℕ → Vm → Option (Bool × Vm)
mappages pgdir va size pa perm v =
    map_pages (2 ^ 20) pgdir (round_down va) (round_down (sub32 (add32 va size) 1)) pa perm v

-- What `deallocuvm` does with an entry.
pub drop_page : ℕ → Vm → Option Vm
drop_page pte v =
    let e = get_le 4 v.mem pte in
    if is_present e
    then (if pte_addr e == 0
        then none
        else (free_page (pte_addr e) v >>= λ v1. some (record v1 { mem = put_le 4 v1.mem pte 0 })))
    else some v

-- The loop of `deallocuvm` from `a`.
pub drop_pages : ℕ → ℕ → ℕ → ℕ → Vm → Option Vm
drop_pages zero pgdir a oldsz v = if ltb a oldsz then none else some v
drop_pages (suc fuel) pgdir a oldsz v = elim (ltb a oldsz) [
  | false ↦ some v
  | true ↦
      let (r, v1) = walkpgdir pgdir a false v in
      elim r [
        | none ↦ drop_pages fuel pgdir ((pdx a + 1) * 0x400000 % 2 ^ 32) oldsz v1
        | some pte ↦ drop_page pte v1 >>= λ v2. drop_pages fuel pgdir (add32 a 4096) oldsz v2
      ]
]

pub deallocuvm : ℕ → ℕ → ℕ → Vm → Option (ℕ × Vm)
deallocuvm pgdir oldsz newsz v =
    if leb oldsz newsz
    then some (oldsz, v)
    else (drop_pages (2 ^ 20) pgdir (round_up newsz) oldsz v >>= λ v1. some (newsz, v1))

-- `kalloc` and the `memset` of a new page for user address `a`: the page where it is mapped; else
-- whether `kalloc` gave one.
pub grow_page : ℕ → ℕ → List ℕ → Vm → Option (Bool × Option ℕ × Vm)
grow_page pgdir a [] v = some (false, none, v)
grow_page pgdir a (page ∷ rest) v =
    (mappages pgdir a 4096 page 6 (record v { mem = fill page 0 v.mem; free = rest })
      >>= λ (ok, v1). some (ok, some page, v1))

-- The end of `allocuvm` after a failure, with the page that could not be mapped.
pub give_back : Option ℕ → Vm → Option (ℕ × Vm)
give_back none v = some (0, v)
give_back (some page) v = free_page page v >>= λ v1. some (0, v1)

-- The loop of `allocuvm` from `a`.
pub grow_pages : ℕ → ℕ → ℕ → ℕ → ℕ → Vm → Option (ℕ × Vm)
grow_pages zero pgdir a oldsz newsz v = if ltb a newsz then none else some (newsz, v)
grow_pages (suc fuel) pgdir a oldsz newsz v = elim (ltb a newsz) [
  | false ↦ some (newsz, v)
  | true ↦ grow_page pgdir a v.free v >>= λ (ok, page, v1). elim ok [
    | true ↦ grow_pages fuel pgdir (add32 a 4096) oldsz newsz v1
    | false ↦ deallocuvm pgdir newsz oldsz v1 >>= λ (sz, v2). give_back page v2
  ]
]

pub allocuvm : ℕ → ℕ → ℕ → Vm → Option (ℕ × Vm)
allocuvm pgdir oldsz newsz v =
    if leb kernbase newsz
    then some (0, v)
    else if ltb newsz oldsz
    then some (oldsz, v)
    else grow_pages (2 ^ 20) pgdir (round_up oldsz) oldsz newsz v

-- `*pte &= ~PTE_U`; `none` is the panic.
pub clearpteu : ℕ → ℕ → Vm → Option Vm
clearpteu pgdir uva v =
    let (r, v1) = walkpgdir pgdir uva false v in
    elim r [
      | none ↦ none
      | some pte ↦
          let e = get_le 4 v1.mem pte in
          some (record v1 { mem = put_le 4 v1.mem pte (if is_user e then e - 4 else e) })
    ]

-- The physical address of the page of a user's address, or 0; `none` is the read through the null
-- pointer that `walkpgdir` gives where there is no page table.
pub uva2ka : ℕ → ℕ → Vm → Option (Option ℕ)
uva2ka pgdir uva v =
    ((walkpgdir pgdir uva false v).0 >>= λ pte.
    let e = get_le 4 v.mem pte in
    some (if is_present e && is_user e then some (pte_addr e) else none))

-- The loop of `copyout` from `va`, with `len` bytes from `src from` on to go: whether it returns 0.
pub copy_pages : ℕ → ℕ → (ℕ → ℕ) → ℕ → ℕ → ℕ → Vm → Option (Bool × Vm)
copy_pages zero pgdir src va from len v = if len == 0 then some (true, v) else none
copy_pages (suc fuel) pgdir src va from len v = elim (len == 0) [
  | true ↦ some (true, v)
  | false ↦
      let va0 = round_down va in
      uva2ka pgdir va0 v >>= λ r. elim r [
        | none ↦ some (false, v)
        | some pa0 ↦
            let n = min len (4096 - (va - va0)) in
            copy_pages fuel pgdir src (add32 va0 4096) (from + n) (len - n)
              (record v { mem = copy_to (pa0 + (va - va0)) src from n v.mem })
      ]
]

-- Each round copies a byte or more; the bytes `src` do not overlap the pages.
pub copyout : ℕ → ℕ → (ℕ → ℕ) → ℕ → Vm → Option (Bool × Vm)
copyout pgdir va src len v = copy_pages len pgdir src va 0 len v
