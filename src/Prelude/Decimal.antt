-- ===== src/Prelude/Decimal.antt =====
-- Decimal numbers: `to_string` and `parse` of the unsigned types, whose largest value is an argument.
use Prim.Native.Nat.{ℕ, zero, suc, ◌+◌, ◌-◌, ◌*◌, ◌/◌, ◌%◌, ◌≤◌, ◌<◌}
use mathlib.Core.Path.{◌≡◌, refl}
use mathlib.Core.Logic.{◌≢◌}
use mathlib.Core.Bool.{◌||◌}
use mathlib.Core.List.{[], ◌∷◌, cons-ne-nil}
use mathlib.Core.Option.{Option, none, some}
use native.Mathlib.Omega.{arith}
use enjambre_worker.Prelude.Tests.{ltb, ◌==◌, if◌then◌else◌}
use enjambre_worker.Prelude.Lists.{All}
use enjambre_worker.Prelude.Text.{Text, is_whitespace, Lacks}
use enjambre_worker.Prelude.Text.Laws.{Solid}

-- One round for each digit, the last digit first; the fuel is above the number.
emit : ℕ → ℕ → Text → Text
emit zero n out = out
emit (suc f) n out =
    let digit = b'0' + n % 10 in
    let rest = emit f (n / 10) (digit ∷ out) in if ltb n 10 then digit ∷ out else rest

-- `n.to_string()`
unfoldable pub to_decimal : ℕ → Text
unfolding emit
to_decimal n = emit (suc n) n []

scan : ℕ → Text → ℕ → Option ℕ
scan max [] n = some n
scan max (c ∷ s) n =
    let n' = n * 10 + (c - b'0') in
    let rest = scan max s n' in
    if ltb c b'0' || ltb b'9' c then none else if ltb max n' then none else rest

-- At least one digit.
scan_digits : ℕ → Text → Option ℕ
scan_digits max [] = none
scan_digits max (c ∷ s) = scan max (c ∷ s) 0

-- `s.parse::<uN>().ok()`: an optional plus sign and one digit or more, within the type's range.
unfoldable pub parse_uint : ℕ → Text → Option ℕ
unfolding scan_digits scan
parse_uint max [] = none
parse_uint max (c ∷ s) = if c == b'+' then scan_digits max s else scan_digits max (c ∷ s)

abbrev pub IsDigit : ℕ → Type 0
IsDigit c = (b'0' ≤ c) × (c ≤ b'9')

emit-IsDigit : (f n : ℕ) (out : Text) → All IsDigit out → All IsDigit (emit f n out)
unfolding emit
emit-IsDigit zero n out h = h
emit-IsDigit (suc f) n out h =
    ground (arith, emit-IsDigit f (n / 10) ((b'0' + n % 10) ∷ out) ((omega arith, omega arith), h))

emit-ne-nil : (f n : ℕ) (out : Text) → out ≢ [] → emit f n out ≢ []
unfolding emit
emit-ne-nil zero n out h = h
emit-ne-nil (suc f) n out h =
    ground (arith, emit-ne-nil f (n / 10) _ (cons-ne-nil (b'0' + n % 10) out))

scan_last :
    (max n : ℕ) (out : Text) → n ≤ max → scan max ((b'0' + n % 10) ∷ out) (n / 10) ≡ scan max out n
unfolding scan
scan_last max n out h = ground arith

scan-emit :
    (max f n : ℕ) (out : Text) → n < f → n ≤ max → scan max (emit f n out) 0 ≡ scan max out n
unfolding emit
scan-emit max zero n out h k = absurd (omega arith)
scan-emit max (suc f) n out h k =
    ground (arith, scan_last max n out k, scan-emit max f (n / 10) ((b'0' + n % 10) ∷ out))

to_decimal-IsDigit : (n : ℕ) → All IsDigit (to_decimal n)
unfolding to_decimal
to_decimal-IsDigit n = emit-IsDigit (suc n) n [] tt

pub to_decimal-ne-nil : (n : ℕ) → to_decimal n ≢ []
unfolding to_decimal
to_decimal-ne-nil n = ground (arith, emit-ne-nil n (n / 10) _ (cons-ne-nil (b'0' + n % 10) []))

parse-scan : (max : ℕ) (s : Text) → s ≢ [] → All IsDigit s → parse_uint max s ≡ scan max s 0
unfolding parse_uint
parse-scan max [] n h = absurd (n refl)
parse-scan max (c ∷ s) n (hc, hs) = ground arith

-- Every number in range is read back from its print.
pub parse_uint-to_decimal : (max n : ℕ) → n ≤ max → parse_uint max (to_decimal n) ≡ some n
parse_uint-to_decimal max n h =
    rw (parse-scan max (to_decimal n) (to_decimal-ne-nil n) (to_decimal-IsDigit n))
      (unfold to_decimal scan in scan-emit max (suc n) n [] (omega arith) h)

-- A number that is read is in range.
scan-le : (max : ℕ) (s : Text) (n r : ℕ) → n ≤ max → scan max s n ≡ some r → r ≤ max
unfolding scan
scan-le max [] n r h e = ground arith
scan-le max (c ∷ s) n r h e = ground (arith, scan-le max s (n * 10 + (c - b'0')) r)

pub parse_uint-le : (max : ℕ) (s : Text) {r : ℕ} → parse_uint max s ≡ some r → r ≤ max
unfolding parse_uint
parse_uint-le max [] h = cc
parse_uint-le max (c ∷ []) {r} h = ground (arith, scan-le max (c ∷ []) 0 r)
parse_uint-le max (c ∷ d ∷ s) {r} h =
    ground (arith, scan-le max (c ∷ d ∷ s) 0 r, scan-le max (d ∷ s) 0 r)

digits-Solid : (s : Text) → All IsDigit s → Solid s
unfolding is_whitespace
digits-Solid [] h = tt
digits-Solid (c ∷ s) (hc, hs) = (ground arith, digits-Solid s hs)

pub to_decimal-Solid : (n : ℕ) → Solid (to_decimal n)
to_decimal-Solid n = digits-Solid (to_decimal n) (to_decimal-IsDigit n)

digits-Lacks : (b : ℕ) (s : Text) → ((c : ℕ) → IsDigit c → c ≢ b) → All IsDigit s → Lacks b s
digits-Lacks b [] other h = tt
digits-Lacks b (c ∷ s) other (hc, hs) = (other c hc, digits-Lacks b s other hs)

-- No digit is a colon or a carriage return.
pub to_decimal-Lacks : (n : ℕ) → Lacks b':' (to_decimal n)
to_decimal-Lacks n =
    digits-Lacks b':' (to_decimal n) (λ c h. omega (arith, h)) (to_decimal-IsDigit n)

pub to_decimal-Lacks_return : (n : ℕ) → Lacks b'\r' (to_decimal n)
to_decimal-Lacks_return n =
    digits-Lacks b'\r' (to_decimal n) (λ c h. omega (arith, h)) (to_decimal-IsDigit n)
