-- ===== src/Process/CommandLine.antt =====
-- The command line of a child against the way in which Windows takes one apart.
use enjambre_worker.Prelude.{
  ℕ, zero, suc, ◌/◌, ◌%◌, ◌≡◌, ◌≢◌, refl, ◌∙◌, ap, sym, Bool, true, false, not, ◌&&◌, ◌||◌, List,
  [], ◌∷◌, ◌++◌, append_assoc, append-nil, any, is_empty, filter_by, All, ◌==◌, if◌then◌else◌,
  arith, Bool-cases, inl, inr,
}
use enjambre_worker.Prelude.Text.{Text, Lacks}
use enjambre_worker.Process.{quoted, push_args, cmd_line}

-- A text in front of the first of a list of texts.
abbrev prepend : Text → List Text → List Text
prepend t [] = t ∷ []
prepend t (p ∷ ps) = (t ++ p) ∷ ps

abbrev backslashes : ℕ → Text
backslashes zero = []
backslashes (suc n) = b'\\' ∷ backslashes n

abbrev is_blank : ℕ → Bool
is_blank c = (c == b' ') || (c == 9)

-- `n` backslashes have been read, inside of quotes or not. In front of a quote two of them stand for
-- one, and one more makes the quote a character; elsewhere they stand for themselves.
parts : Bool → ℕ → Text → List Text
parts inside n [] = backslashes n ∷ []
parts inside n (c ∷ s) =
    let slash = parts inside (suc n) s in
    let quote = prepend (backslashes (n / 2)) (parts (not inside) 0 s) in
    let literal = prepend (backslashes (n / 2) ++ b'"' ∷ []) (parts inside 0 s) in
    let blank = backslashes n ∷ parts inside 0 s in
    let other = prepend (backslashes n ++ c ∷ []) (parts inside 0 s) in
    if c == b'\\'
    then slash
    else if c == b'"'
    then (if n % 2 == 0 then quote else literal)
    else if is_blank c && not inside
    then blank
    else other

-- The arguments of a line in which no argument is the empty text in quotes.
pub argv : Text → List Text
unfolding parts
argv line = filter_by (λ p. not (is_empty p)) (parts false 0 line)

-- The last character is no backslash.
abbrev pub EndsPlain : Text → Type 0
EndsPlain [] = Unit
EndsPlain (c ∷ []) = c ≢ b'\\'
EndsPlain (c ∷ d ∷ s) = EndsPlain (d ∷ s)

-- A text that can be an argument: not empty, no quote, no tab, no backslash at the end.
pub record IsArgument (t : Text) : Type 0 where
  pub filled : is_empty t ≡ false
  pub no_quote : Lacks b'"' t
  pub no_tab : Lacks 9 t
  pub ends_plain : EndsPlain t

any-head : (p : ℕ → Bool) (c : ℕ) (s : Text) → any p (c ∷ s) ≡ false → p c ≡ false
any-head p c s e = elim (Bool-cases (p c)) [ inl y ↦ cc (rw y at e) | inr n ↦ n ]

any-tail : (p : ℕ → Bool) (c : ℕ) (s : Text) → any p (c ∷ s) ≡ false → any p s ≡ false
any-tail p c s e = elim (Bool-cases (p c)) [ inl y ↦ cc (rw y at e) | inr n ↦ rw n at e ]

prepend-prepend : (s t : Text) (ps : List Text) → prepend s (prepend t ps) ≡ prepend (s ++ t) ps
prepend-prepend s t [] = refl
prepend-prepend s t (p ∷ ps) = rw append_assoc refl

backslashes-suc : (n : ℕ) (s : Text) → backslashes (suc n) ++ s ≡ backslashes n ++ b'\\' ∷ s
backslashes-suc zero s = refl
backslashes-suc (suc n) s = ap (λ t. b'\\' ∷ t) (backslashes-suc n s)

parts-slash :
    (inside : Bool) (n c : ℕ) (s : Text)
    → (c == b'\\') ≡ true
    → parts inside n (c ∷ s) ≡ parts inside (suc n) s
unfolding parts
parts-slash inside n c s e = rw e refl

parts-plain :
    (inside : Bool) (n c : ℕ) (s : Text)
    → (c == b'\\') ≡ false
    → c ≢ b'"'
    → (is_blank c && not inside) ≡ false
    → parts inside n (c ∷ s) ≡ prepend (backslashes n ++ c ∷ []) (parts inside 0 s)
unfolding parts
parts-plain inside n c s e q b =
    let no_quote : (c == b'"') ≡ false = ground (arith, q) in rw (e, no_quote, b) refl

parts-blank : (n : ℕ) (s : Text) → parts false n (b' ' ∷ s) ≡ backslashes n ∷ parts false 0 s
unfolding parts
parts-blank n s = refl

parts-quote :
    (inside : Bool) (s : Text) → parts inside 0 (b'"' ∷ s) ≡ prepend [] (parts (not inside) 0 s)
unfolding parts
parts-quote inside s = refl

-- A text that holds blanks only inside of quotes is read as it is.
parts-append :
    (inside : Bool) (n c : ℕ) (s rest : Text)
    → Lacks b'"' (c ∷ s)
    → EndsPlain (c ∷ s)
    → any (λ d. is_blank d && not inside) (c ∷ s) ≡ false
    → parts inside n (c ∷ (s ++ rest)) ≡ prepend (backslashes n ++ c ∷ s) (parts inside 0 rest)
parts-append inside n c [] rest (q, _) p b =
    parts-plain inside n c rest (ground (arith, p)) q (ground (arith, b))
parts-append inside n c (d ∷ s) rest (q, qs) p b =
    let step = λ (k : ℕ).
      parts-append inside k d s rest qs p (any-tail (λ d. is_blank d && not inside) c (d ∷ s) b) in
    elim (Bool-cases (c == b'\\')) [
      | inl e ↦
          let slash : c ≡ b'\\' = ground arith in
          parts-slash inside n c (d ∷ (s ++ rest)) e
          ∙ step (suc n)
          ∙ ap (λ t. prepend t (parts inside 0 rest))
              (backslashes-suc n (d ∷ s) ∙ ap (λ k. backslashes n ++ k ∷ d ∷ s) (sym slash))
      | inr e ↦
          parts-plain inside n c (d ∷ (s ++ rest)) e q
            (any-head (λ d. is_blank d && not inside) c (d ∷ s) b)
          ∙ ap (prepend (backslashes n ++ c ∷ [])) (step 0)
          ∙ prepend-prepend (backslashes n ++ c ∷ []) (d ∷ s) (parts inside 0 rest)
          ∙ ap (λ t. prepend t (parts inside 0 rest))
              (append_assoc (backslashes n) (c ∷ []) (d ∷ s))
    ]

-- A text in quotes.
abbrev in_quotes : Text → Text
in_quotes t = b'"' ∷ (t ++ b'"' ∷ [])

no_blank :
    (t : Text)
    → any (λ c. c == b' ') t ≡ false
    → Lacks 9 t
    → any (λ d. is_blank d && not false) t ≡ false
no_blank [] e l = refl
no_blank (c ∷ t) e (n, l) =
    let rest = no_blank t (any-tail (λ k. k == b' ') c t e) l in
    let here = any-head (λ k. k == b' ') c t e in ground (arith, rest, here, n)

none_inside : (t : Text) → any (λ d. is_blank d && not true) t ≡ false
none_inside [] = refl
none_inside (c ∷ t) = ground (arith, none_inside t)

parts-in_quotes :
    (t rest : Text)
    → IsArgument t
    → parts false 0 (in_quotes t ++ rest) ≡ prepend t (parts false 0 rest)
parts-in_quotes [] rest a = cc (a.filled)
parts-in_quotes (c ∷ s) rest a =
    parts-quote false ((c ∷ s ++ b'"' ∷ []) ++ rest)
    ∙ ap (λ t. prepend [] (parts true 0 t)) (append_assoc (c ∷ s) (b'"' ∷ []) rest)
    ∙ ap (prepend [])
        (parts-append true 0 c s (b'"' ∷ rest) a.no_quote a.ends_plain (none_inside (c ∷ s)))
    ∙ ap (λ ps. prepend [] (prepend (c ∷ s) ps)) (parts-quote true rest)
    ∙ ap (prepend []) (prepend-prepend (c ∷ s) [] (parts false 0 rest))
    ∙ prepend-prepend [] (c ∷ s ++ []) (parts false 0 rest)
    ∙ ap (λ t. prepend t (parts false 0 rest)) (append-nil (c ∷ s))

parts-quoted :
    (t rest : Text)
    → IsArgument t
    → parts false 0 (quoted t ++ rest) ≡ prepend t (parts false 0 rest)
unfolding quoted
parts-quoted [] rest a = cc (a.filled)
parts-quoted (c ∷ s) rest a = elim (Bool-cases (any (λ k. k == b' ') (c ∷ s))) [
  | inl y ↦ rw y (parts-in_quotes (c ∷ s) rest a)
  | inr n ↦
      rw n (parts-append false 0 c s rest a.no_quote a.ends_plain (no_blank (c ∷ s) n a.no_tab))
]

-- What has been read of a line whose last argument is open.
abbrev Reads : Text → List Text → Text → Type 0
Reads line done last =
    (rest : Text) → parts false 0 (line ++ rest) ≡ done ++ prepend last (parts false 0 rest)

push_arg-Reads :
    (line : Text) (done : List Text) (last arg : Text)
    → Reads line done last
    → IsArgument arg
    → Reads (line ++ b' ' ∷ quoted arg) (done ++ last ∷ []) arg
push_arg-Reads line done last arg r a rest =
    let tail = prepend arg (parts false 0 rest) in
    ap (parts false 0) (append_assoc line (b' ' ∷ quoted arg) rest)
    ∙ r (b' ' ∷ (quoted arg ++ rest))
    ∙ ap (λ ps. done ++ prepend last ps)
        (parts-blank 0 (quoted arg ++ rest) ∙ ap (λ ps. [] ∷ ps) (parts-quoted arg rest a))
    ∙ ap (λ t. done ++ t ∷ tail) (append-nil last)
    ∙ sym (append_assoc done (last ∷ []) tail)

parts-push_args :
    (args : List Text) (line : Text) (done : List Text) (last : Text)
    → All IsArgument args
    → Reads line done last
    → parts false 0 (push_args args line) ≡ done ++ last ∷ args
unfolding push_args parts
parts-push_args [] line done last _ r =
    ap (parts false 0) (sym (append-nil line)) ∙ r [] ∙ ap (λ t. done ++ t ∷ []) (append-nil last)
parts-push_args (arg ∷ args) line done last (a, as_) r =
    parts-push_args args (line ++ b' ' ∷ quoted arg) (done ++ last ∷ []) arg as_
      (push_arg-Reads line done last arg r a)
    ∙ append_assoc done (last ∷ []) (arg ∷ args)

filter-arguments :
    (args : List Text) → All IsArgument args → filter_by (λ p. not (is_empty p)) args ≡ args
filter-arguments [] _ = refl
filter-arguments (arg ∷ args) (a, as_) = ground (arith, a, filter-arguments args as_)

-- Windows takes the command line of a child apart into the program and the arguments that it was
-- started with, blanks inside of them included, where each is not empty, has no quote and no tab and
-- does not end in a backslash.
pub argv-cmd_line :
    (program : Text) (args : List Text)
    → IsArgument program
    → All IsArgument args
    → argv (cmd_line program args) ≡ program ∷ args
unfolding argv cmd_line
argv-cmd_line program args a as_ =
    ap (filter_by (λ p. not (is_empty p))) (
      parts-push_args args (in_quotes program) [] program as_
        λ rest. parts-in_quotes program rest a)
    ∙ filter-arguments (program ∷ args) (a, as_)
