-- ===== src/Keys/Naming.antt =====
-- The key strings.
use native.Mathlib.Nat.{pow-suc}
use enjambre_worker.Prelude.{
  ℕ, ◌-◌, zero, suc, ◌+◌, ◌/◌, ◌%◌, ◌<◌, ◌*◌, ◌^◌, ◌≡◌, refl, ap, [], ◌∷◌, ◌++◌, arith, ltb,
  if◌then◌else◌, length, length-append, u64_mod,
}
use enjambre_worker.Prelude.Text.{Text, codes}
use enjambre_worker.Keys.{hex_digit, hex, generate_key_string}

-- The number that a digit stands for.
digit_value : ℕ → ℕ
digit_value c = if ltb c b'a' then c - b'0' else c - b'a' + 10

digit_value-hex_digit : (d : ℕ) → d < 16 → digit_value (hex_digit d) ≡ d
unfolding digit_value hex_digit
digit_value-hex_digit d h = ground arith

hex_value : Text → ℕ → ℕ
hex_value [] n = n
hex_value (c ∷ s) n = hex_value s (n * 16 + digit_value c)

hex_value-append : (s t : Text) (n : ℕ) → hex_value (s ++ t) n ≡ hex_value t (hex_value s n)
unfolding hex_value
hex_value-append [] t n = refl
hex_value-append (c ∷ s) t n = hex_value-append s t (n * 16 + digit_value c)

-- The digits spell the number, if it fits in them.
hex_value-hex : (w n : ℕ) → n < 16 ^ w → hex_value (hex w n) 0 ≡ n
unfolding hex hex_value
hex_value-hex zero n h = omega arith
hex_value-hex (suc w) n h = omega (
  arith,
  hex_value-append (hex w (n / 16)) (hex_digit (n % 16) ∷ []) 0,
  hex_value-hex w (n / 16) (omega (arith, pow-suc 16 w)),
  digit_value-hex_digit (n % 16) (omega arith),
)

length-hex : (w n : ℕ) → length (hex w n) ≡ w
unfolding hex
length-hex zero n = refl
length-hex (suc w) n =
    ground (arith, length-append (hex w (n / 16)) (hex_digit (n % 16) ∷ []), length-hex w (n / 16))

-- Two clock readings that differ in their low 64 bits give different keys.
generate_key_string_injective :
    (a b : ℕ) → generate_key_string a ≡ generate_key_string b → a % u64_mod ≡ b % u64_mod
unfolding generate_key_string
generate_key_string_injective a b h =
    let e : hex 16 (a % u64_mod) ≡ hex 16 (b % u64_mod) = cc in
    omega (
      arith,
      hex_value-hex 16 (a % u64_mod) (omega arith),
      hex_value-hex 16 (b % u64_mod) (omega arith),
      ap (λ t. hex_value t 0) e,
    )

-- Every key has 23 characters.
length-generate_key_string : (a : ℕ) → length (generate_key_string a) ≡ 23
unfolding generate_key_string
length-generate_key_string a =
    omega
      (arith, length-append (codes "sk-enj-") (hex 16 (a % u64_mod)), length-hex 16 (a % u64_mod))
