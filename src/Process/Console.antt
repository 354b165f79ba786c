-- ===== src/Process/Console.antt =====
-- The console windows that src/process.rs hides behind a start: `suppress_child_console`,
-- `enum_hide_console`. The windows of the system are an interface of calls.
pub mod Hiding
use enjambre_worker.Prelude.{
  ℕ, zero, suc, Bool, true, false, List, [], ◌∷◌, not, ◌&&◌, ◌==◌, if◌then◌else◌,
}
use enjambre_worker.Prelude.Text.{Text, codes, same_text}
use enjambre_worker.Utf16.{from_utf16_lossy}

-- `get_class_name` gives the units that `GetClassNameW` copies into a buffer of a length, none
-- where it fails; `meanwhile` is what happens while the thread sleeps before its n-th round.
pub record Screen : Type 1 where
  pub State : Type 0
  pub top_level : State → List ℕ
  pub get_class_name : ℕ → ℕ → State → List ℕ
  pub hide_window : ℕ → State → State
  pub meanwhile : ℕ → State → State

abbrev pub console_class : Text
console_class = codes "ConsoleWindowClass"

abbrev pub terminal_class : Text
terminal_class = codes "Windows.UI.Core.CoreWindow"

module _ (W : Screen) where
  -- Whether the windows behind this one are gone through, and the windows.
  unfoldable pub enum_hide_console : ℕ → ℕ → W.State → Bool × W.State
  enum_hide_console hwnd lparam s = elim (W.get_class_name hwnd 256 s) [
    | [] ↦ (true, s)
    | u ∷ us ↦
        let class_name = from_utf16_lossy (u ∷ us) in
        if not (same_text class_name console_class) && not (same_text class_name terminal_class)
        then (true, s)
        else (true, W.hide_window hwnd s)
  ]

  -- `EnumWindows` calls its function on each window until that says FALSE.
  unfoldable pub enum_over : (ℕ → W.State → Bool × W.State) → List ℕ → W.State → W.State
  enum_over f [] s = s
  enum_over f (w ∷ ws) s =
      let (goes_on, t) = f w s in let rest = enum_over f ws t in if goes_on then rest else t

  unfoldable pub enum_windows : ℕ → W.State → W.State
  unfolding enum_over
  enum_windows child_pid s = enum_over (λ w t. enum_hide_console w child_pid t) (W.top_level s) s

  -- The rounds that are left.
  unfoldable pub rounds : ℕ → ℕ → W.State → W.State
  unfolding enum_windows
  rounds child_pid zero s = s
  rounds child_pid (suc n) s = rounds child_pid n (enum_windows child_pid (W.meanwhile n s))

  unfoldable pub suppress_child_console : ℕ → W.State → W.State
  unfolding rounds
  suppress_child_console child_pid s = rounds child_pid 8 s
