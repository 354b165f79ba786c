-- ===== src/Utf16.antt =====
-- The texts that are handed to Windows and come back: `encode_utf16` and `from_utf16_lossy`.
use enjambre_worker.Prelude.{
  ℕ, ◌+◌, ◌-◌, ◌*◌, ◌/◌, ◌%◌, ◌<◌, ◌≤◌, ◌≡◌, refl, ap, ◌∙◌, ◌⊎◌, inl, inr, Bool, true, false, ◌&&◌,
  List, [], ◌∷◌, ◌++◌, Option, none, some, All, ltb, leb, if◌then◌else◌, arith, Bool-cases,
}
use enjambre_worker.Prelude.Text.{Text}

abbrev pub units_of : ℕ → List ℕ
units_of c =
    if ltb c 0x10000
    then c ∷ []
    else (0xd800 + (c - 0x10000) / 0x400) ∷ (0xdc00 + (c - 0x10000) % 0x400) ∷ []

unfoldable pub encode_utf16 : Text → List ℕ
encode_utf16 [] = []
encode_utf16 (c ∷ s) = units_of c ++ encode_utf16 s

-- `s.encode_utf16().chain(once(0)).collect()`
unfoldable pub to_wide : Text → List ℕ
unfolding encode_utf16
to_wide s = encode_utf16 s ++ 0 ∷ []

abbrev pub replacement : ℕ
replacement = 0xfffd

abbrev pub is_high : ℕ → Bool
is_high u = leb 0xd800 u && ltb u 0xdc00

abbrev pub is_low : ℕ → Bool
is_low u = leb 0xdc00 u && ltb u 0xe000

-- A unit that does not follow a high surrogate, and one that does: what it gives, and the high
-- surrogate that waits for the next one.
unfoldable pub lead : ℕ → Text × Option ℕ
lead u =
    if is_high u
    then ([], some u)
    else if is_low u
    then (replacement ∷ [], none)
    else (u ∷ [], none)

unfoldable pub step : Option ℕ → ℕ → Text × Option ℕ
unfolding lead
step none u = lead u
step (some h) u =
    if is_low u
    then ((0x10000 + ((h - 0xd800) * 0x400 + (u - 0xdc00))) ∷ [], none)
    else let (out, next) = lead u in (replacement ∷ out, next)

unfoldable pub decode : Option ℕ → List ℕ → Text
unfolding step
decode none [] = []
decode (some h) [] = replacement ∷ []
decode none (u ∷ us) = let (out, next) = step none u in out ++ decode next us
decode (some h) (u ∷ us) = let (out, next) = step (some h) u in out ++ decode next us

unfoldable pub from_utf16_lossy : List ℕ → Text
unfolding decode
from_utf16_lossy us = decode none us

-- A `char`: a code point that is no surrogate.
abbrev pub IsScalar : ℕ → Type 0
IsScalar c = (c < 0xd800) ⊎ ((0xe000 ≤ c) × (c < 0x110000))

decode-plain :
    (c : ℕ) (us : List ℕ) → IsScalar c → c < 0x10000 → decode none (c ∷ us) ≡ c ∷ decode none us
unfolding decode step lead
decode-plain c us h b = ground arith

high : ℕ → ℕ
high c = 0xd800 + (c - 0x10000) / 0x400

low : ℕ → ℕ
low c = 0xdc00 + (c - 0x10000) % 0x400

high-is_high : (c : ℕ) → c < 0x110000 → is_high (high c) ≡ true
unfolding high
high-is_high c h = ground arith

low-is_low : (c : ℕ) → is_low (low c) ≡ true
unfolding low
low-is_low c = ground arith

high-low : (c : ℕ) → 0x10000 ≤ c → 0x10000 + ((high c - 0xd800) * 0x400 + (low c - 0xdc00)) ≡ c
unfolding high low
high-low c h = omega arith

decode-pair :
    (hi lo : ℕ) (us : List ℕ)
    → is_high hi ≡ true
    → is_low lo ≡ true
    → decode none (hi ∷ lo ∷ us)
      ≡ (0x10000 + ((hi - 0xd800) * 0x400 + (lo - 0xdc00))) ∷ decode none us
unfolding decode step lead
decode-pair hi lo us h l = rw h (rw l refl)

units-plain : (c : ℕ) → ltb c 0x10000 ≡ true → units_of c ≡ c ∷ []
units-plain c y = rw y refl

units-pair : (c : ℕ) → ltb c 0x10000 ≡ false → units_of c ≡ high c ∷ low c ∷ []
unfolding high low
units-pair c n = rw n refl

decode-units_of :
    (c : ℕ) (us : List ℕ) → IsScalar c → decode none (units_of c ++ us) ≡ c ∷ decode none us
decode-units_of c us h = elim (Bool-cases (ltb c 0x10000)) [
  | inl y ↦
      ap (λ u. decode none (u ++ us)) (units-plain c y) ∙ decode-plain c us h (ground (arith, y))
  | inr n ↦
      ap (λ u. decode none (u ++ us)) (units-pair c n)
      ∙ decode-pair (high c) (low c) us (high-is_high c (ground (arith, h))) (low-is_low c)
      ∙ ap (λ u. u ∷ decode none us) (high-low c (ground (arith, n)))
]

-- What has been encoded is decoded to the same text.
pub from_utf16_lossy-encode_utf16 :
    (s : Text) → All IsScalar s → from_utf16_lossy (encode_utf16 s) ≡ s
unfolding from_utf16_lossy encode_utf16
from_utf16_lossy-encode_utf16 [] h = unfold decode in refl
from_utf16_lossy-encode_utf16 (c ∷ s) (hc, hs) =
    decode-units_of c (encode_utf16 s) hc ∙ ap (λ t. c ∷ t) (from_utf16_lossy-encode_utf16 s hs)
