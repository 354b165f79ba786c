-- ===== src/Reader/Laws.antt =====
-- What a read of tokio's gives, and what stays behind it.
use enjambre_worker.Prelude.{
  ◌≡◌, refl, Bool, true, false, ◌||◌, [], ◌∷◌, ◌++◌, is_empty, ◌==◌, if◌then◌else◌, arith,
}
use enjambre_worker.Prelude.Text.{Text}
use enjambre_worker.Reader.{read_line, has_line}

-- One line, with its end.
abbrev pub is_line : Text → Bool
is_line [] = false
is_line (c ∷ s) = let rest = is_line s in if c == b'\n' then is_empty s else rest

pub read_line_whole : (s : Text) → (read_line s).0 ++ (read_line s).1 ≡ s
unfolding read_line
read_line_whole [] = refl
read_line_whole (c ∷ s) = ground (arith, read_line_whole s)

pub read_line-is_line : (s : Text) → has_line s ≡ true → is_line (read_line s).0 ≡ true
unfolding read_line
read_line-is_line [] h = cc
read_line-is_line (c ∷ s) h = ground (arith, h, read_line-is_line s)

pub has_line-append : (s t : Text) → has_line (s ++ t) ≡ (has_line s || has_line t)
has_line-append [] t = refl
has_line-append (c ∷ s) t = ground (arith, has_line-append s t)

pub is_line-append : (p l : Text) → has_line p ≡ false → is_line l ≡ true → is_line (p ++ l) ≡ true
is_line-append [] l h k = k
is_line-append (c ∷ p) l h k = ground (arith, h, k, is_line-append p l)
