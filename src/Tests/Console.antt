-- ===== src/Tests/Console.antt =====
-- The windows that a start hides, at three windows.
use enjambre_worker.Prelude.{
  ℕ, ◌≡◌, refl, Bool, true, [], ◌∷◌, not, any, ◌&&◌, ◌==◌, All, if◌then◌else◌, arith, Bool-cases,
  inl, inr,
}
use enjambre_worker.Prelude.Text.{Text, codes}
use enjambre_worker.Utf16.{encode_utf16, IsScalar}
use enjambre_worker.Process.Console.{Screen, console_class, suppress_child_console}
use enjambre_worker.Process.Console.Hiding.{Look, caught, seen, suppress_child_console_lem}

-- The first window is a console.
abbrev class_of : ℕ → Text
class_of w = if w == 1 then console_class else codes "Notepad"

-- Which windows are shown.
abbrev screen : Screen
screen = record {
  State = ℕ → Bool;
  top_level = λ s. 1 ∷ 2 ∷ 3 ∷ [];
  get_class_name = λ w size s. encode_utf16 (class_of w);
  hide_window = λ w s v. not (v == w) && s v;
  meanwhile = λ n s. s;
}

class_of-IsScalar : (w : ℕ) → All IsScalar (class_of w)
class_of-IsScalar w = elim (Bool-cases (w == 1)) [
  | inl y ↦ rw y (ground arith)
  | inr n ↦ rw n (ground arith)
]

abbrev look : Look screen
look = record {
  class_of = class_of;
  visible = λ s v. s v;
  class_IsScalar = class_of-IsScalar;
  class_read = λ w s. refl;
  hidden = λ w v s. refl;
}

abbrev all_shown : ℕ → Bool
all_shown v = true

suppress_child_console_lem_example : look.visible (suppress_child_console screen 77 all_shown) 1 ≡ (
    not (any (λ ws. caught screen look 1 ws) (seen screen look 77 8 all_shown))
    && look.visible all_shown 1)
suppress_child_console_lem_example =
    suppress_child_console_lem screen look 77 all_shown 1 (λ m t. refl)
