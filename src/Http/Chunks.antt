-- ===== src/Http/Chunks.antt =====
-- How the relay's answer is cut into reads does not matter to where its headers end.
use enjambre_worker.Prelude.{
  ℕ, true, false, List, [], ◌∷◌, ◌++◌, none, some, is_empty, ◌≡◌, refl, arith, All, map, map_option,
  Option-cases, Bool-cases, inl, inr, append_assoc, ◌∙◌, append-nil,
}
use enjambre_worker.Prelude.Text.{Text}
use enjambre_worker.Http.{chunk, filled, read_headers, cut_headers, at_end, drop4}

at_end-append :
    (s t : Text) → at_end s ≡ true → (at_end (s ++ t) ≡ true) × (drop4 (s ++ t) ≡ drop4 s ++ t)
at_end-append [] t h = ground arith
at_end-append (a ∷ []) t h = ground arith
at_end-append (a ∷ b ∷ []) t h = ground arith
at_end-append (a ∷ b ∷ c ∷ []) t h = ground arith
at_end-append (a ∷ b ∷ c ∷ d ∷ s) t h = (h, refl)

at_end-long :
    (c : ℕ) (s t : Text) (p : Text × Text)
    → cut_headers s ≡ some p
    → at_end (c ∷ s ++ t) ≡ at_end (c ∷ s)
unfolding cut_headers
at_end-long c [] t p e = ground arith
at_end-long c (a ∷ []) t p e = ground arith
at_end-long c (a ∷ b ∷ []) t p e = ground arith
at_end-long c (a ∷ b ∷ d ∷ s) t p e = refl

-- Where the headers end does not move when more bytes arrive.
cut_headers-append :
    (s t h l : Text) → cut_headers s ≡ some (h, l) → cut_headers (s ++ t) ≡ some (h, l ++ t)
unfolding cut_headers
cut_headers-append [] t h l e = ground arith
cut_headers-append (c ∷ s) t h l e = elim (Bool-cases (at_end (c ∷ s))) [
  | inl a ↦ let (a1, a2) = at_end-append (c ∷ s) t a in ground (arith, a, a1, a2, e)
  | inr a ↦ elim (Option-cases (cut_headers s)) [
    | inl n ↦ ground (arith, a, n, e)
    | inr ((h1, l1), n) ↦
        ground (arith, a, n, e, at_end-long c s t (h1, l1) n, cut_headers-append s t h1 l1 n)
  ]
]

-- All the bytes of some reads.
abbrev pub whole : List Text → Text
whole [] = []
whole (c ∷ cs) = c ++ whole cs

abbrev pub NonEmpty : List Text → Type 0
NonEmpty = All (λ c. is_empty c ≡ false)

-- The loop over reads that bring bytes, from a buffer without the end of the headers.
read_headers-from :
    (cs : List Text) (buf : Text)
    → NonEmpty cs
    → cut_headers buf ≡ none
    → (got : Text) × (rest : List Text) × (read_headers (map (λ c. chunk c) cs) buf
        ≡ filled got (map (λ c. chunk c) rest))
      × (got ++ whole rest ≡ buf ++ whole cs)
      × ((cut_headers got ≡ none → rest ≡ []))
      × NonEmpty rest
unfolding read_headers
read_headers-from [] buf ne n = (buf, [], refl, refl, λ h. refl, tt)
read_headers-from (c ∷ cs) buf (nc, ne) n = elim (Option-cases (cut_headers (buf ++ c))) [
  | inl m ↦
      let (got, rest, r, a, q, v) = read_headers-from cs (buf ++ c) ne m in
      (got, rest, ground (arith, nc, m, r), a ∙ append_assoc buf c (whole cs), q, v)
  | inr (p, m) ↦
      (buf ++ c, cs, ground (arith, nc, m), append_assoc buf c (whole cs), ground (arith, m), ne)
]

-- However the stream is cut into reads that bring bytes, the loop ends with a buffer that the
-- stream starts with, and leaves the reads that bring the rest of it. The search behind it finds
-- in the buffer the end of the headers that the whole stream has, with what the stream has behind
-- the buffer to follow: where the stream has no such end, the search finds none.
pub read_headers_lem :
    (cs : List Text)
    → NonEmpty cs
    → (got : Text) × (rest : List Text) × (read_headers (map (λ c. chunk c) cs) []
        ≡ filled got (map (λ c. chunk c) rest))
      × (got ++ whole rest ≡ whole cs)
      × (cut_headers (whole cs) ≡ map_option (λ p. (p.0, p.1 ++ whole rest)) (cut_headers got))
      × NonEmpty rest
read_headers_lem cs ne =
    let (got, rest, r, a, q, v) = read_headers-from cs [] ne (unfold cut_headers in refl) in
    (
      got,
      rest,
      r,
      a,
      elim (Option-cases (cut_headers got)) [
        | inl n ↦ ground (arith, a, n, q n, append-nil got)
        | inr ((h, l), n) ↦ ground (arith, a, n, cut_headers-append got (whole rest) h l n)
      ],
      v,
    )
