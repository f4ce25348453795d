-- ===== src/Files/References.antt =====
-- filealloc, filedup and fileclose of file.c against the list of all references to files.
use modified_xv.Base.{
  ℕ, zero, suc, ◌+◌, ◌≤◌, ◌<◌, ◌^◌, ◌≡◌, refl, ap, sym, false, some, List, [], ◌∷◌, ◌++◌, length,
  arith, ◌==◌, if◌then◌else◌, update, Bool-cases, Option-cases, inl, inr, add32, slt, some_inj,
  ==_iff,
}
use modified_xv.Files.{File, fd_none, nfile, find_free, filealloc, filedup}

-- How often a file stands in the list of references.
abbrev pub count : ℕ → List ℕ → ℕ
count i [] = 0
count i (x ∷ xs) = if x == i then suc (count i xs) else count i xs

pub count-append : (i : ℕ) (xs ys : List ℕ) → count i (xs ++ ys) ≡ count i xs + count i ys
count-append i [] ys = omega arith
count-append i (x ∷ xs) ys = ground (arith, count-append i xs ys)

count-le : (i : ℕ) (xs : List ℕ) → count i xs ≤ length xs
count-le i [] = omega arith
count-le i (x ∷ xs) = ground (arith, count-le i xs)

-- The references that the descriptors of all processes hold, and the table.
abbrev pub State : Type 0
State = (ℕ → File) × List ℕ

-- The counts are `int`s: the references stay below 2 ^ 31.
pub record Counted (s : State) : Type 0 where
  pub counts : (i : ℕ) → (s.0 i).ref ≡ count i s.1
  pub few : length s.1 < 2 ^ 31

find_free-some :
    (files : ℕ → File) (i left j : ℕ)
    → find_free files i left ≡ some j
    → ((files j).ref ≡ 0) × (j < i + left)
unfolding find_free
find_free-some files i zero j h = absurd (ground arith)
find_free-some files i (suc left) j h = elim (Bool-cases ((files i).ref == 0)) [
  | inl e ↦
      let same : i ≡ j = some_inj (rw e at h) in
      rw (← same) ((==_iff (files i).ref 0).0 e, omega arith)
  | inr e ↦ let ih = find_free-some files (suc i) left j (rw e at h) in (ih.0, omega (arith, ih.1))
]

filealloc-some :
    (files files' : ℕ → File) (i : ℕ)
    → filealloc files ≡ some (i, files')
    → ((files i).ref ≡ 0) × (i < nfile) × (files' ≡ update files i (record (files i) { ref = 1 }))
unfolding filealloc
filealloc-some files files' i h = elim (Option-cases (find_free files 0 nfile)) [
  | inl e ↦ cc (rw (e, filealloc) at h)
  | inr (j, e) ↦
      let r = some_inj (rw (e, filealloc) at h) in
      let same : j ≡ i = ap (λ (t : ℕ × (ℕ → File)). t.0) r in
      let f = find_free-some files 0 nfile j e in
      (
        rw (← same) f.0,
        rw (← same) (omega (arith, f.1)),
        rw (← same) (sym (ap (λ (t : ℕ × (ℕ → File)). t.1) r)),
      )
]

-- The table after a reference to file `i` was closed, with `left` others: the file keeps its type
-- where there are any, and is of none otherwise. All other files stay.
abbrev pub closed : ℕ → ℕ → (ℕ → File) → ℕ → File
closed i left files =
    update files i
      (record (files i) { ref = left; kind = if left == 0 then fd_none else (files i).kind })

-- Where every file's count is the number of references to it, `filedup` of a file with a reference
-- does not panic, and the counts are exact with the new one.
pub filedup-Counted :
    (files : ℕ → File) (i : ℕ) (refs : List ℕ)
    → Counted (files, refs)
    → 0 < count i refs
    → length refs + 1 < 2 ^ 31
    → (files' : ℕ → File) × (filedup i files ≡ some files') × Counted (files', i ∷ refs)
unfolding filedup
filedup-Counted files i refs v held room =
    let here = v.counts i in
    let ok : slt (files i).ref 1 ≡ false = ground (arith, here, count-le i refs) in
    (
      update files i (record (files i) { ref = add32 (files i).ref 1 }),
      rw ok refl,
      record {
        counts = λ j. ground (arith, v.counts j, here, count-le i refs);
        few = omega (arith, room);
      },
    )

-- Where every file's count is the number of references to it, a file that `filealloc` returns lies
-- in the table and had no reference, and the counts are exact with the new one.
pub filealloc-Counted :
    (files files' : ℕ → File) (i : ℕ) (refs : List ℕ)
    → Counted (files, refs)
    → length refs + 1 < 2 ^ 31
    → filealloc files ≡ some (i, files')
    → (count i refs ≡ 0) × (i < nfile) × Counted (files', i ∷ refs)
filealloc-Counted files files' i refs v room h =
    let (free, small, is) = filealloc-some files files' i h in
    (
      omega (arith, v.counts i, free),
      small,
      record {
        counts = λ j. rw is (ground (arith, v.counts j, v.counts i, free));
        few = omega (arith, room);
      },
    )
