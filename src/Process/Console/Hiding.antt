-- ===== src/Process/Console/Hiding.antt =====
-- Which windows the thread of `suppress_child_console` (src/process.rs) hides.
use enjambre_worker.Prelude.{
  ℕ, zero, suc, ◌≡◌, refl, ap, ◌∙◌, Bool, true, false, List, [], ◌∷◌, not, any, ==_iff, ◌&&◌, ◌||◌,
  ◌==◌, All, if◌then◌else◌, Bool-cases, inl, inr, arith,
}
use enjambre_worker.Prelude.Text.{Text, same_text}
use enjambre_worker.Utf16.{
  encode_utf16, from_utf16_lossy, decode, IsScalar, from_utf16_lossy-encode_utf16,
}
use enjambre_worker.Process.Console.{
  Screen, console_class, terminal_class, enum_hide_console, enum_over, enum_windows, rounds,
  suppress_child_console,
}

-- What is relied on of the windows: a class name is a text that fits the buffer, and hiding a
-- window changes neither its class nor another window.
pub record Look (W : Screen) : Type 0 where
  pub class_of : ℕ → Text
  pub visible : W.State → ℕ → Bool
  pub class_IsScalar : (w : ℕ) → All IsScalar (class_of w)
  pub class_read : (w : ℕ) (s : W.State) → W.get_class_name w 256 s ≡ encode_utf16 (class_of w)
  pub hidden :
      (w v : ℕ) (s : W.State) → visible (W.hide_window w s) v ≡ (not (v == w) && visible s v)

abbrev pub is_console : Text → Bool
is_console name = same_text name console_class || same_text name terminal_class

neither {ℓ} :
    {A : Type ℓ} (x y : A) (a b : Bool)
    → (if not a && not b then x else y) ≡ (if a || b then y else x)
neither x y true b = refl
neither x y false true = refl
neither x y false false = refl

one_more :
    (c e a v : Bool) → (not (c && a) && (not (c && (e || false)) && v)) ≡ (not (c && (e || a)) && v)
one_more c e a v = ground arith

one_round : (c a : Bool) {x y : Bool} → x ≡ y → (not a && (not c && x)) ≡ (not (c || a) && y)
one_round c a h = ground (arith, h)

module _ (W : Screen) (L : Look W) where
  by_units : List ℕ → ℕ → W.State → Bool × W.State
  by_units units hwnd s =
      if is_console (from_utf16_lossy units) then (true, W.hide_window hwnd s) else (true, s)

  enum_hide_console-units :
      (hwnd pid : ℕ) (s : W.State)
      → enum_hide_console W hwnd pid s ≡ by_units (W.get_class_name hwnd 256 s) hwnd s
  unfolding enum_hide_console by_units from_utf16_lossy decode same_text
  enum_hide_console-units hwnd pid s = go (W.get_class_name hwnd 256 s)
    where
      go :
          (us : List ℕ)
          → (elim us as (λ x. Bool × W.State) [
            | [] ↦ (true, s)
            | u ∷ us ↦
                let class_name = from_utf16_lossy (u ∷ us) in
                if not (same_text class_name console_class)
                  && not (same_text class_name terminal_class)
                then (true, s)
                else (true, W.hide_window hwnd s)
          ])
            ≡ by_units us hwnd s
      go [] = refl
      go (u ∷ us) =
          let name = from_utf16_lossy (u ∷ us) in
          neither (true, s) (true, W.hide_window hwnd s) (same_text name console_class)
            (same_text name terminal_class)

  hide_if :
      (b : Bool) (w v : ℕ) (s : W.State)
      → L.visible (if b then W.hide_window w s else s) v ≡ (not (b && (v == w)) && L.visible s v)
  hide_if true w v s = L.hidden w v s
  hide_if false w v s = refl

  same_or_other : (p : ℕ → Bool) (w v : ℕ) → (p w && (v == w)) ≡ (p v && ((v == w) || false))
  same_or_other p w v = elim (Bool-cases (v == w)) [
    | inl e ↦ rw ((==_iff v w).0 e) (ground arith)
    | inr n ↦ rw n (ground arith)
  ]

  -- What the call on a window comes to.
  after_call : ℕ → W.State → W.State
  after_call hwnd s = if is_console (L.class_of hwnd) then W.hide_window hwnd s else s

  enum_hide_console_lem :
      (hwnd pid : ℕ) (s : W.State) → enum_hide_console W hwnd pid s ≡ (true, after_call hwnd s)
  enum_hide_console_lem hwnd pid s =
      enum_hide_console-units hwnd pid s
      ∙ ap (λ us. by_units us hwnd s) (L.class_read hwnd s)
      ∙ (unfold by_units after_call in
          rw (from_utf16_lossy-encode_utf16 (L.class_of hwnd) (L.class_IsScalar hwnd))
            (ground arith))

  -- A window of the classes among those that are gone through.
  abbrev pub caught : ℕ → List ℕ → Bool
  caught v ws = is_console (L.class_of v) && any (λ w. v == w) ws

  after_call-visible :
      (w v : ℕ) (s : W.State)
      → L.visible (after_call w s) v ≡ (not (caught v (w ∷ [])) && L.visible s v)
  unfolding after_call
  after_call-visible w v s =
      hide_if (is_console (L.class_of w)) w v s
      ∙ ap (λ b. not b && L.visible s v) (same_or_other (λ u. is_console (L.class_of u)) w v)

  enum_over-visible :
      (pid : ℕ) (ws : List ℕ) (s : W.State) (v : ℕ)
      → L.visible (enum_over W (λ w t. enum_hide_console W w pid t) ws s) v
        ≡ (not (caught v ws) && L.visible s v)
  unfolding enum_over
  enum_over-visible pid [] s v = ground arith
  enum_over-visible pid (w ∷ ws) s v = rw (enum_hide_console_lem w pid s) (
      enum_over-visible pid ws (after_call w s) v
      ∙ ap (λ b. not (caught v ws) && b) (after_call-visible w v s)
      ∙ one_more (is_console (L.class_of v)) (v == w) (any (λ u. v == u) ws) (L.visible s v))

  -- The windows that the rounds go through, one list for each.
  abbrev pub seen : ℕ → ℕ → W.State → List (List ℕ)
  seen pid zero s = []
  seen pid (suc n) s =
      W.top_level (W.meanwhile n s) ∷ seen pid n (enum_windows W pid (W.meanwhile n s))

  rounds-visible :
      (pid n : ℕ) (s : W.State) (v : ℕ)
      → ((m : ℕ) (t : W.State) → L.visible (W.meanwhile m t) v ≡ L.visible t v)
      → L.visible (rounds W pid n s) v
        ≡ (not (any (λ ws. caught v ws) (seen pid n s)) && L.visible s v)
  unfolding rounds enum_windows
  rounds-visible pid zero s v steady = ground arith
  rounds-visible pid (suc n) s v steady =
      let u = W.meanwhile n s in
      rounds-visible pid n (enum_windows W pid u) v steady
      ∙ ap (λ b. not (any (λ ws. caught v ws) (seen pid n (enum_windows W pid u))) && b)
          (enum_over-visible pid (W.top_level u) u v)
      ∙ one_round (caught v (W.top_level u))
          (any (λ ws. caught v ws) (seen pid n (enum_windows W pid u))) (steady n s)

  -- Where class names are texts that fit the buffer, and nothing else shows or hides a window
  -- while the thread sleeps, its eight rounds leave exactly those windows hidden that were hidden,
  -- or are of the class of a console or of a terminal and among the windows of a round; the
  -- process that the window belongs to plays no part.
  pub suppress_child_console_lem :
      (child_pid : ℕ) (s : W.State) (v : ℕ)
      → ((m : ℕ) (t : W.State) → L.visible (W.meanwhile m t) v ≡ L.visible t v)
      → L.visible (suppress_child_console W child_pid s) v
        ≡ (not (any (λ ws. caught v ws) (seen child_pid 8 s)) && L.visible s v)
  unfolding suppress_child_console
  suppress_child_console_lem child_pid s v steady = rounds-visible child_pid 8 s v steady
