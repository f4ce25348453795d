-- ===== src/Shell/Tests.antt =====
-- Command lines, and what the parser of sh.c makes of them.
use modified_xv.Base.{ℕ, ◌≡◌, refl, List, [], ◌∷◌, arith}
use modified_xv.Shell.{line, Redirection, ok, parsecmd}
use modified_xv.Shell.Total.{Answer, parsecmd_lem}
use modified_xv.Shell.Grammar.{
  Phrase, words, group, alone, piped, last, before, text, meaning, IsProper, IsRedir, IsWord,
}
use modified_xv.Shell.Complete.{parsecmd_complete}

-- `ls`, `wc` and `out`
abbrev ls : List ℕ
ls = 108 ∷ 115 ∷ []

abbrev wc : List ℕ
wc = 119 ∷ 99 ∷ []

abbrev out : List ℕ
out = 111 ∷ 117 ∷ 116 ∷ []

abbrev to_out : Redirection
to_out = record { file = out; mode = 513; fd = 1 }

-- ` ls wc|( wc&)>out; ls`
abbrev phrase : Phrase line
phrase =
    before
      (piped (words (ls ∷ wc ∷ []) [])
        (alone (group (last (alone (words (wc ∷ []) [])) 1) (to_out ∷ []))))
      0 (last (alone (words (ls ∷ []) [])) 0)

to_out-IsRedir : IsRedir to_out
to_out-IsRedir = record { named = (refl, (refl, (refl, tt))); mode = refl; fd = refl }

phrase-IsProper : IsProper phrase
phrase-IsProper =
    let ls_word : IsWord ls = (refl, (refl, tt)) in
    let wc_word : IsWord wc = (refl, (refl, tt)) in
    (
      (
        ((ls_word, (wc_word, tt)), tt, omega arith),
        (((wc_word, tt), tt, omega arith), (to_out-IsRedir, tt)),
      ),
      ((ls_word, tt), tt, omega arith),
    )

parsecmd_complete_example : parsecmd (text phrase []) ≡ ok (meaning phrase) []
parsecmd_complete_example = parsecmd_complete phrase phrase-IsProper

parsecmd_lem_example : Answer (parsecmd (40 ∷ 97 ∷ []))
parsecmd_lem_example = parsecmd_lem (40 ∷ 97 ∷ [])
