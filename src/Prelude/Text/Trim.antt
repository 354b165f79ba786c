-- ===== src/Prelude/Text/Trim.antt =====
-- Trimming twice is trimming once.
use mathlib.Core.Path.{◌≡◌, refl}
use mathlib.Core.List.{[], ◌∷◌}
use native.Mathlib.Omega.{arith}
use enjambre_worker.Prelude.Text.{Text, trim_start, trim_end, trim}

trim_start_twice : (s : Text) → trim_start (trim_start s) ≡ trim_start s
unfolding trim_start
trim_start_twice [] = refl
trim_start_twice (c ∷ s) = ground (arith, trim_start_twice s)

trim_end_twice : (s : Text) → trim_end (trim_end s) ≡ trim_end s
unfolding trim_end
trim_end_twice [] = refl
trim_end_twice (c ∷ s) = ground (arith, trim_end_twice s)

trim_end-trim_start : (s : Text) → trim_end s ≡ s → trim_end (trim_start s) ≡ trim_start s
unfolding trim_start trim_end
trim_end-trim_start [] h = refl
trim_end-trim_start (c ∷ s) h = ground (arith, h, trim_end-trim_start s)

pub trim_twice : (s : Text) → trim (trim s) ≡ trim s
unfolding trim
trim_twice s =
    rw (trim_end-trim_start (trim_end s) (trim_end_twice s), trim_start_twice (trim_end s)) refl
