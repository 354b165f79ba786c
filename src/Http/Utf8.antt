-- ===== src/Http/Utf8.antt =====
-- `String::from_utf8_lossy`, UTF-8 with U+FFFD for each ill-formed part, and `String::from_utf8`,
-- which is what `read_line` makes of the bytes of a line.
use enjambre_worker.Prelude.{
  ℕ, ◌+◌, ◌-◌, ◌*◌, ◌<◌, ◌≡◌, refl, zero, suc, ◌&&◌, [], ◌∷◌, ◌++◌, ltb, leb, ◌==◌, arith, ap, All,
  if◌then◌else◌, Option, none, some, ◌>>=◌,
}
use enjambre_worker.Prelude.Text.{Text}

-- Between characters, or in one: the bits so far, how many bytes are to come behind the next one,
-- and the range of the next.
pub data Decoder : Type 0 where
  start : Decoder
  inside : (bits more lo hi : ℕ) → Decoder

abbrev pub replacement : ℕ
replacement = 0xfffd

-- The first byte of a character, if it is one.
unfoldable pub first_byte : ℕ → Option (Text × Decoder)
first_byte b =
    if ltb b 0x80
    then some (b ∷ [], start)
    else if ltb b 0xc2
    then none
    else if ltb b 0xe0
    then some ([], inside (b - 0xc0) 0 0x80 0xbf)
    else if b == 0xe0
    then some ([], inside 0 1 0xa0 0xbf)
    else if b == 0xed
    then some ([], inside 0xd 1 0x80 0x9f)
    else if ltb b 0xf0
    then some ([], inside (b - 0xe0) 1 0x80 0xbf)
    else if b == 0xf0
    then some ([], inside 0 2 0x90 0xbf)
    else if ltb b 0xf4
    then some ([], inside (b - 0xf0) 2 0x80 0xbf)
    else if b == 0xf4
    then some ([], inside 4 2 0x80 0x8f)
    else none

unfoldable pub lead : ℕ → Text × Decoder
unfolding first_byte
lead b = elim (first_byte b) [ none ↦ (replacement ∷ [], start) | some r ↦ r ]

abbrev pub continue : ℕ → ℕ → Text × Decoder
continue bits zero = (bits ∷ [], start)
continue bits (suc more) = ([], inside bits more 0x80 0xbf)

unfoldable pub step : Decoder → ℕ → Text × Decoder
step start b = lead b
step (inside bits more lo hi) b =
    if leb lo b && leb b hi
    then continue (bits * 64 + (b - 0x80)) more
    else let (out, d) = lead b in (replacement ∷ out, d)

unfoldable pub decode : Decoder → Text → Text
decode start [] = []
decode (inside bits more lo hi) [] = replacement ∷ []
decode start (b ∷ s) = let (out, d) = step start b in out ++ decode d s
decode (inside bits more lo hi) (b ∷ s) =
    let (out, d) = step (inside bits more lo hi) b in out ++ decode d s

unfoldable pub from_utf8_lossy : Text → Text
from_utf8_lossy s = decode start s

-- A byte behind those that have been read, if it may stand there.
unfoldable pub next_byte : Decoder → ℕ → Option (Text × Decoder)
unfolding first_byte
next_byte start b = first_byte b
next_byte (inside bits more lo hi) b =
    if leb lo b && leb b hi then some (continue (bits * 64 + (b - 0x80)) more) else none

-- `String::from_utf8`
unfoldable pub decode_all : Decoder → Text → Option Text
unfolding next_byte
decode_all start [] = some []
decode_all (inside bits more lo hi) [] = none
decode_all d (b ∷ s) = (do (out, e) ← next_byte d b; t ← decode_all e s; some (out ++ t))

unfoldable pub from_utf8 : Text → Option Text
unfolding decode_all
from_utf8 s = decode_all start s

abbrev pub Ascii : Text → Type 0
Ascii = All (λ b. b < 0x80)

lead_ascii : (b : ℕ) → b < 0x80 → lead b ≡ (b ∷ [], start)
unfolding lead
lead_ascii b h = ground arith

-- ASCII bytes stand for themselves.
from_utf8_lossy-Ascii : (s : Text) → Ascii s → from_utf8_lossy s ≡ s
unfolding from_utf8_lossy decode step
from_utf8_lossy-Ascii [] h = refl
from_utf8_lossy-Ascii (b ∷ s) (hb, hs) =
    rw (lead_ascii b hb) (ap (λ t. b ∷ t) (from_utf8_lossy-Ascii s hs))
