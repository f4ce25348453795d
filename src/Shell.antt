-- ===== src/Shell.antt =====
-- The parser of sh.c: tokens, and the commands that it builds of them.
pub mod Progress
pub mod Fuel
pub mod Total
pub mod Grammar
pub mod Tokens
pub mod Words
pub mod Args
pub mod Complete
pub mod Tests
use modified_xv.Base.{
  ℕ, zero, suc, ◌+◌, ◌*◌, Bool, true, false, ◌||◌, ◌&&◌, not, Option, none, some, List, [], ◌∷◌,
  ◌++◌, ◌==◌, leb, if◌then◌else◌, has, length,
}

-- `whitespace`, `symbols` and the other sets of characters that the parser asks for.
abbrev pub whitespace : List ℕ
whitespace = 32 ∷ 9 ∷ 13 ∷ 10 ∷ 11 ∷ []

abbrev pub symbols : List ℕ
symbols = 60 ∷ 124 ∷ 62 ∷ 38 ∷ 59 ∷ 40 ∷ 41 ∷ []

abbrev pub redirections : List ℕ
redirections = 60 ∷ 62 ∷ []

abbrev pub ends : List ℕ
ends = 124 ∷ 41 ∷ 38 ∷ 59 ∷ []

-- `O_WRONLY|O_CREATE`
abbrev pub o_write : ℕ
o_write = 513

abbrev pub maxargs : ℕ
maxargs = 10

pub data Command : Type 0 where
  exec : List (List ℕ) → Command
  redir : Command → List ℕ → ℕ → ℕ → Command
  pipe list : Command → Command → Command
  back : Command → Command

-- The reasons that the parser gives to `panic`.
pub data Panic : Type 0 where
  syntax missing_file no_block missing_paren too_many_args : Panic

-- The result of a part of the parser at some text: a value and the text after it, or a panic.
pub data Outcome {ℓ} (A : Type ℓ) : Type ℓ where
  ok : A → List ℕ → Outcome A
  failed : Panic → Outcome A
  out_of_fuel : Outcome A

-- `while(s < es && strchr(whitespace, *s)) s++`
pub skip : List ℕ → List ℕ
skip [] = []
skip (c ∷ cs) = if has c whitespace then skip cs else c ∷ cs

-- The rest of `peek` after the white space.
abbrev pub starts : List ℕ → List ℕ → Bool
starts toks [] = false
starts toks (c ∷ cs) = has c toks

pub peek : List ℕ → List ℕ → Bool × List ℕ
peek toks s = (starts toks (skip s), skip s)

-- The loop of `gettoken` over a word.
pub word : List ℕ → List ℕ × List ℕ
word [] = ([], [])
word (c ∷ cs) =
    let (w, rest) = word cs in
    if has c whitespace || has c symbols then ([], c ∷ cs) else (c ∷ w, rest)

-- What `gettoken` returns, the text from `*q` to `*eq`, and the text after the token.
pub record Token : Type 0 where
  pub kind : ℕ
  pub text : List ℕ
  pub rest : List ℕ

-- The case of `'>'`.
abbrev pub after_greater : List ℕ → Token
after_greater [] = record { kind = 62; text = 62 ∷ []; rest = [] }
after_greater (c ∷ cs) =
    if c == 62
    then record { kind = 43; text = 62 ∷ 62 ∷ []; rest = cs }
    else record { kind = 62; text = 62 ∷ []; rest = c ∷ cs }

-- The switch of `gettoken`.
pub token : List ℕ → Token
token [] = record { kind = 0; text = []; rest = [] }
token (c ∷ cs) =
    if c == 62
    then after_greater cs
    else if has c symbols
    then record { kind = c; text = c ∷ []; rest = cs }
    else (let (w, rest) = word (c ∷ cs) in record { kind = 97; text = w; rest = rest })

pub gettoken : List ℕ → Token
gettoken s = let t = token (skip s) in record t { rest = skip t.rest }

infixl 5 ◌>>◌
abbrev pub ◌>>◌ {ℓ ℓ'} :
    {A : Type ℓ} {B : Type ℓ'} → Outcome A → (A → List ℕ → Outcome B) → Outcome B
ok a s >> f = f a s
failed p >> f = failed p
out_of_fuel >> f = out_of_fuel

-- A redirection: its file, mode and file descriptor.
pub record Redirection : Type 0 where
  pub file : List ℕ
  pub mode : ℕ
  pub fd : ℕ

-- The switch of `parseredirs` on the kind of the first token.
pub redirection : ℕ → List ℕ → List Redirection
redirection tok file =
    if tok == 60
    then record { file = file; mode = 0; fd = 0 } ∷ []
    else if tok == 62
    then record { file = file; mode = o_write; fd = 1 } ∷ []
    else if tok == 43
    then record { file = file; mode = o_write; fd = 1 } ∷ []
    else []

-- The loop of `parseredirs`, with the redirections so far.
pub parse_redirs : ℕ → List Redirection → List ℕ → Outcome (List Redirection)
parse_redirs zero found s = out_of_fuel
parse_redirs (suc fuel) found s =
    let (hit, s1) = peek redirections s in
    if hit
    then (let t = gettoken s1 in
        let u = gettoken t.rest in
        if u.kind == 97
        then parse_redirs fuel (found ++ redirection t.kind u.text) u.rest
        else failed missing_file)
    else ok found s1

-- `redircmd` for each, the first one innermost.
pub redirect : List Redirection → Command → Command
redirect [] c = c
redirect (r ∷ rs) c = redirect rs (redir c r.file r.mode r.fd)

-- A text of `n` characters has at most `n` redirections.
abbrev pub redirs_of : List Redirection → List ℕ → Outcome (List Redirection)
redirs_of found s = parse_redirs (suc (length s)) found s

-- The loop of `parseexec`, with the arguments and the redirections so far.
pub parse_args : ℕ → List (List ℕ) → List Redirection → List ℕ → Outcome Command
parse_args zero argv found s = out_of_fuel
parse_args (suc fuel) argv found s =
    let (hit, s1) = peek ends s in
    if hit
    then ok (redirect found (exec argv)) s1
    else (let t = gettoken s1 in
        if t.kind == 0
        then ok (redirect found (exec argv)) t.rest
        else if t.kind == 97
        then (let argv1 = argv ++ (t.text ∷ []) in
            if leb maxargs (length argv1)
            then failed too_many_args
            else (redirs_of found t.rest >> λ found1 s2. parse_args fuel argv1 found1 s2))
        else failed syntax)

pub parse_exec : (List ℕ → Outcome Command) → List ℕ → Outcome Command
parse_exec inner s =
    let (hit, s1) = peek (40 ∷ []) s in
    if hit
    then inner s1
    else (redirs_of [] s1 >> λ found s2. parse_args (suc (length s2)) [] found s2)

pub parse_block : (List ℕ → Outcome Command) → List ℕ → Outcome Command
parse_block inner s =
    let (hit, s1) = peek (40 ∷ []) s in
    if hit
    then (inner (gettoken s1).rest >> λ c s2.
        let (closed, s3) = peek (41 ∷ []) s2 in
        if closed
        then (redirs_of [] (gettoken s3).rest >> λ found s4. ok (redirect found c) s4)
        else failed missing_paren)
    else failed no_block

pub parse_pipe : (List ℕ → Outcome Command) → (List ℕ → Outcome Command) → List ℕ → Outcome Command
parse_pipe first more s =
    (first s >> λ c s1.
    let (hit, s2) = peek (124 ∷ []) s1 in
    if hit then (more (gettoken s2).rest >> λ d s3. ok (pipe c d) s3) else ok c s2)

-- The loop of `parseline` over `&`.
pub parse_backs : ℕ → Command → List ℕ → Outcome Command
parse_backs zero c s = out_of_fuel
parse_backs (suc fuel) c s =
    let (hit, s1) = peek (38 ∷ []) s in
    if hit then parse_backs fuel (back c) (gettoken s1).rest else ok c s1

pub parse_line : (List ℕ → Outcome Command) → (List ℕ → Outcome Command) → List ℕ → Outcome Command
parse_line first more s =
    (first s >> λ c s1. parse_backs (suc (length s1)) c s1 >> λ d s2.
    let (hit, s3) = peek (59 ∷ []) s2 in
    if hit then (more (gettoken s3).rest >> λ e s4. ok (list d e) s4) else ok d s3)

-- The functions of the parser that call each other.
pub data Level : Type 0 where
  line pipeline simple block : Level

pub parse : ℕ → Level → List ℕ → Outcome Command
parse zero l s = out_of_fuel
parse (suc fuel) line s = parse_line (parse fuel pipeline) (parse fuel line) s
parse (suc fuel) pipeline s = parse_pipe (parse fuel simple) (parse fuel pipeline) s
parse (suc fuel) simple s = parse_exec (parse fuel block) s
parse (suc fuel) block s = parse_block (parse fuel line) s

pub parsecmd : List ℕ → Outcome Command
parsecmd s =
    (parse (4 * length s + 4) line s >> λ c s1. elim (skip s1) [
      | [] ↦ ok c []
      | _ ∷ _ ↦ failed syntax
    ])
