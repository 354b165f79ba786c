-- ===== src/Connection/Stream/Taking.antt =====
-- The lines that the polls of a reader take of the bytes that come.
use enjambre_worker.Prelude.{
  ℕ, ◌≡◌, refl, ap, sym, ◌∙◌, true, false, List, [], ◌∷◌, ◌++◌, append_assoc, append-nil, Option,
  none, some, All, All-append, arith, Bool-cases, inl, inr,
}
use enjambre_worker.Prelude.Text.{Text}
use enjambre_worker.Connection.Stream.{Input, arrives, polled, closed, failed, commanded}
use enjambre_worker.Reader.{read_line, has_line, Reader, arrive, poll}
use enjambre_worker.Reader.Laws.{
  is_line, read_line_whole, read_line-is_line, has_line-append, is_line-append,
}

-- Bytes come and the read is polled, and nothing else happens.
abbrev pub Quiet : Input → Type 0
Quiet (arrives bytes) = Unit
Quiet (polled now) = Unit
Quiet _ = ⊥

-- The bytes that come.
abbrev pub arrived : List Input → Text
arrived [] = []
arrived (arrives bytes ∷ is) = bytes ++ arrived is
arrived (_ ∷ is) = arrived is

abbrev pub timed : ℕ → Option Text → List (ℕ × Text)
timed now none = []
timed now (some l) = (now, l) ∷ []

-- The lines that the polls of a reader give, each with its time, and the reader behind them.
abbrev pub taken : List Input → Reader → List (ℕ × Text) × Reader
taken [] r = ([], r)
taken (arrives bytes ∷ is) r = taken is (arrive bytes r)
taken (polled now ∷ is) r = let (ls, end) = taken is (poll r).1 in (timed now (poll r).0 ++ ls, end)
taken (_ ∷ is) r = taken is r

abbrev pub text_of : List (ℕ × Text) → Text
text_of [] = []
text_of ((now, l) ∷ ls) = l ++ text_of ls

text_of-append : (ks ls : List (ℕ × Text)) → text_of (ks ++ ls) ≡ text_of ks ++ text_of ls
text_of-append [] ls = refl
text_of-append ((now, l) ∷ ks) ls =
    ap (λ t. l ++ t) (text_of-append ks ls) ∙ sym (append_assoc l (text_of ks) (text_of ls))

poll_whole :
    (now : ℕ) (r : Reader)
    → text_of (timed now (poll r).0) ++ ((poll r).1.partial ++ (poll r).1.unread)
      ≡ r.partial ++ r.unread
unfolding poll
poll_whole now r = elim (Bool-cases (has_line r.unread)) [
  | inl y ↦
      rw y (simp (append_assoc, append-nil) (ap (λ t. r.partial ++ t) (read_line_whole r.unread)))
  | inr n ↦ rw n (rw append-nil refl)
]

poll_lines :
    (now : ℕ) (r : Reader)
    → has_line r.partial ≡ false
    → All (λ x. is_line x.1 ≡ true) (timed now (poll r).0) × (has_line (poll r).1.partial ≡ false)
unfolding poll
poll_lines now r h = elim (Bool-cases (has_line r.unread)) [
  | inl y ↦
      rw y (
        (is_line-append r.partial (read_line r.unread).0 h (read_line-is_line r.unread y), tt),
        refl,
      )
  | inr n ↦ rw n (tt, ground (arith, has_line-append r.partial r.unread, h, n))
]

regroup : (a b c d : Text) → a ++ (b ++ (c ++ d)) ≡ (a ++ (b ++ c)) ++ d
regroup a b c d = simp append_assoc refl

pub taken_whole :
    (is : List Input) (r : Reader)
    → All Quiet is
    → text_of (taken is r).0 ++ ((taken is r).1.partial ++ (taken is r).1.unread)
      ≡ r.partial ++ (r.unread ++ arrived is)
taken_whole [] r q = rw append-nil refl
taken_whole (arrives bytes ∷ is) r (q, qs) =
    taken_whole is (arrive bytes r) qs
    ∙ ap (λ t. r.partial ++ t) (append_assoc r.unread bytes (arrived is))
taken_whole (polled now ∷ is) r (q, qs) =
    let (ls, end) = taken is (poll r).1 in
    let first = text_of (timed now (poll r).0) in
    ap (λ t. t ++ (end.partial ++ end.unread)) (text_of-append (timed now (poll r).0) ls)
    ∙ append_assoc first (text_of ls) (end.partial ++ end.unread)
    ∙ ap (λ t. first ++ t) (taken_whole is (poll r).1 qs)
    ∙ regroup first (poll r).1.partial (poll r).1.unread (arrived is)
    ∙ ap (λ t. t ++ arrived is) (poll_whole now r)
    ∙ append_assoc r.partial r.unread (arrived is)
taken_whole (closed now ∷ is) r (q, qs) = absurd q
taken_whole (failed now ∷ is) r (q, qs) = absurd q
taken_whole (commanded cmd e ∷ is) r (q, qs) = absurd q

pub taken_lines :
    (is : List Input) (r : Reader)
    → All Quiet is
    → has_line r.partial ≡ false
    → All (λ x. is_line x.1 ≡ true) (taken is r).0 × (has_line (taken is r).1.partial ≡ false)
taken_lines [] r q h = (tt, h)
taken_lines (arrives bytes ∷ is) r (q, qs) h = taken_lines is (arrive bytes r) qs h
taken_lines (polled now ∷ is) r (q, qs) h =
    let (here, clear) = poll_lines now r h in
    let (there, end) = taken_lines is (poll r).1 qs clear in
    (All-append _ (timed now (poll r).0) (taken is (poll r).1).0 here there, end)
taken_lines (closed now ∷ is) r (q, qs) h = absurd q
taken_lines (failed now ∷ is) r (q, qs) h = absurd q
taken_lines (commanded cmd e ∷ is) r (q, qs) h = absurd q
