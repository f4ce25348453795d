-- ===== src/Shell/Grammar.antt =====
-- A grammar of the commands of sh.c: phrases, their text and their meaning.
use modified_xv.Base.{
  ℕ, zero, suc, ◌<◌, ◌≡◌, Bool, true, false, ◌||◌, List, [], ◌∷◌, ◌++◌, ◌==◌, if◌then◌else◌, has,
  length,
}
use modified_xv.Shell.{
  Command, exec, pipe, list, back, Redirection, redirect, Level, line, pipeline, simple, whitespace,
  symbols, maxargs, o_write,
}

-- Arguments with redirections, a line in parentheses with redirections, pipelines, and lines: a
-- pipeline with some `&`, alone or before `;` and another line.
pub data Phrase : Level → Type 0 where
  words : List (List ℕ) → List Redirection → Phrase simple
  group : Phrase line → List Redirection → Phrase simple
  alone : Phrase simple → Phrase pipeline
  piped : Phrase simple → Phrase pipeline → Phrase pipeline
  last : Phrase pipeline → ℕ → Phrase line
  before : Phrase pipeline → ℕ → Phrase line → Phrase line

abbrev pub backs : ℕ → Command → Command
backs zero c = c
backs (suc n) c = backs n (back c)

abbrev pub meaning : {l : Level} → Phrase l → Command
meaning (words argv rs) = redirect rs (exec argv)
meaning (group p rs) = redirect rs (meaning p)
meaning (alone p) = meaning p
meaning (piped p q) = pipe (meaning p) (meaning q)
meaning (last p n) = backs n (meaning p)
meaning (before p n q) = list (backs n (meaning p)) (meaning q)

-- Each argument after a space, each redirection with no space, and `&` as often as it is.
abbrev pub put_args : List (List ℕ) → List ℕ → List ℕ
put_args [] k = k
put_args (w ∷ ws) k = 32 ∷ (w ++ put_args ws k)

abbrev pub operator : Redirection → ℕ
operator r = if r.fd == 0 then 60 else 62

abbrev pub put_redirs : List Redirection → List ℕ → List ℕ
put_redirs [] k = k
put_redirs (r ∷ rs) k = operator r ∷ (r.file ++ put_redirs rs k)

abbrev pub put_backs : ℕ → List ℕ → List ℕ
put_backs zero k = k
put_backs (suc n) k = 38 ∷ put_backs n k

-- The text of a phrase before the text `k`.
abbrev pub text : {l : Level} → Phrase l → List ℕ → List ℕ
text (words argv rs) k = put_args argv (put_redirs rs k)
text (group p rs) k = 40 ∷ text p (41 ∷ put_redirs rs k)
text (alone p) k = text p k
text (piped p q) k = text p (124 ∷ text q k)
text (last p n) k = text p (put_backs n k)
text (before p n q) k = text p (put_backs n (59 ∷ text q k))

-- A character of a word.
abbrev pub is_plain : ℕ → Bool
is_plain c = if has c whitespace || has c symbols then false else true

abbrev pub AllPlain : List ℕ → Type 0
AllPlain [] = Unit
AllPlain (c ∷ cs) = (is_plain c ≡ true) × AllPlain cs

-- Some characters, all plain.
abbrev pub IsWord : List ℕ → Type 0
IsWord [] = ⊥
IsWord (c ∷ cs) = AllPlain (c ∷ cs)

abbrev pub AllWords : List (List ℕ) → Type 0
AllWords [] = Unit
AllWords (w ∷ ws) = IsWord w × AllWords ws

-- `<`, or `>` with the mode and the descriptor that the parser gives to it.
pub record IsRedir (r : Redirection) : Type 0 where
  pub named : IsWord r.file
  pub mode : r.mode ≡ (if r.fd == 0 then 0 else o_write)
  pub fd : (r.fd == 0 || r.fd == 1) ≡ true

abbrev pub AllRedirs : List Redirection → Type 0
AllRedirs [] = Unit
AllRedirs (r ∷ rs) = IsRedir r × AllRedirs rs

-- The words and redirections of a phrase are such, and the arguments not too many.
abbrev pub IsProper : {l : Level} → Phrase l → Type 0
IsProper (words argv rs) = AllWords argv × AllRedirs rs × (length argv < maxargs)
IsProper (group p rs) = IsProper p × AllRedirs rs
IsProper (alone p) = IsProper p
IsProper (piped p q) = IsProper p × IsProper q
IsProper (last p n) = IsProper p
IsProper (before p n q) = IsProper p × IsProper q
