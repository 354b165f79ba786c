-- ===== src/Client/Pong.antt =====
-- What the worker makes of the answers to its heartbeats.
use enjambre_worker.Prelude.{
  ℕ, ◌-◌, ◌<◌, ◌≡◌, refl, ap, false, List, [], ◌∷◌, ◌++◌, append_assoc, Option, none, some, arith,
  All, All-append, if◌then◌else◌, u64_mod, is_empty,
}
use enjambre_worker.Prelude.Text.{
  Text, codes, is_whitespace, trim, join, strip_prefix, starts_with, Lacks, trim_start,
}
use enjambre_worker.Prelude.Text.Laws.{
  Solid, trim_line, strip_prefix-append, trim_end-append_Solid, trim_lem,
}
use enjambre_worker.Prelude.Decimal.{
  to_decimal, parse_uint-to_decimal, to_decimal-Solid, to_decimal-ne-nil,
}
use enjambre_worker.Registry.{update_line}
use enjambre_worker.Connection.{pong_line}
use enjambre_worker.Reader.{read_line}
use enjambre_worker.Client.{slaves_of, read_news, read_answer}

pub join-Solid : (ps : List Text) → All Solid ps → Solid (join b',' ps)
unfolding join is_whitespace
join-Solid [] h = tt
join-Solid (p ∷ []) (hp, hps) = hp
join-Solid (p ∷ q ∷ ps) (hp, hps) =
    All-append _ p (b',' ∷ join b',' (q ∷ ps)) hp (refl, join-Solid (q ∷ ps) hps)

pub trim-update_line :
    (slaves : List Text)
    → All Solid slaves
    → trim (update_line slaves) ≡ codes "UPDATE_SLAVES:" ++ join b',' slaves
unfolding update_line
trim-update_line slaves h =
    trim_line b'U' (codes "PDATE_SLAVES") (b':' ∷ join b',' slaves) (b'\n' ∷ [])
      (unfold is_whitespace in refl) (λ e. cc) (unfold is_whitespace in refl, join-Solid slaves h)
      (unfold is_whitespace in (refl, tt))

-- The first line of the answer.
abbrev pub credits_line : ℕ → Text
credits_line credits = codes "PONG:CREDITS=" ++ (to_decimal credits ++ b'\n' ∷ [])

pub trim-credits_line :
    (credits : ℕ) → trim (credits_line credits) ≡ codes "PONG:CREDITS=" ++ to_decimal credits
trim-credits_line credits =
    trim_line b'P' (codes "ONG:CREDITS=") (to_decimal credits) (b'\n' ∷ [])
      (unfold is_whitespace in refl) (to_decimal-ne-nil credits) (to_decimal-Solid credits)
      (unfold is_whitespace in (refl, tt))

-- The two lines of an answer with a report.
pong_line-report :
    (credits : ℕ) (report : Text) → pong_line credits (some report) ≡ credits_line credits ++ report
unfolding pong_line
pong_line-report credits report = simp append_assoc

pub read_news_lem :
    (credits : ℕ) (extra : Option Text)
    → credits < u64_mod
    → read_news (credits_line credits) extra
      ≡ record { credits = some credits; slaves = slaves_of extra }
unfolding read_news starts_with strip_prefix
read_news_lem credits extra h =
    rw (trim-credits_line credits, parse_uint-to_decimal (u64_mod - 1) credits (omega arith))

pub Solid-Lacks : (s : Text) → Solid s → Lacks b'\n' s
Solid-Lacks [] h = tt
Solid-Lacks (c ∷ s) (hc, hs) = ((λ e. unfold is_whitespace in ground arith), Solid-Lacks s hs)

pub read_line-append :
    (s rest : Text) → Lacks b'\n' s → read_line (s ++ b'\n' ∷ rest) ≡ (s ++ b'\n' ∷ [], rest)
unfolding read_line
read_line-append [] rest h = ground arith
read_line-append (c ∷ s) rest (hc, hs) = ground (arith, read_line-append s rest hs)

pub read_line-credits :
    (credits : ℕ) (rest : Text)
    → read_line (codes "PONG:CREDITS=" ++ (to_decimal credits ++ b'\n' ∷ rest))
      ≡ (credits_line credits, rest)
read_line-credits credits rest =
    let s : Text = codes "PONG:CREDITS=" ++ to_decimal credits in
    let shape : codes "PONG:CREDITS=" ++ (to_decimal credits ++ b'\n' ∷ rest) ≡ s ++ b'\n' ∷ rest =
      simp append_assoc in
    let back : s ++ b'\n' ∷ [] ≡ credits_line credits = simp append_assoc in
    rw (
      shape,
      read_line-append s rest (
          All-append _ (codes "PONG:CREDITS=") (to_decimal credits) (omega arith)
            (Solid-Lacks (to_decimal credits) (to_decimal-Solid credits))),
      back,
    )

read_line-update_line :
    (slaves : List Text)
    → All Solid slaves
    → read_line (update_line slaves) ≡ (update_line slaves, [])
unfolding update_line
read_line-update_line slaves h =
    let s : Text = codes "UPDATE_SLAVES:" ++ join b',' slaves in
    read_line-append s [] (
      All-append _ (codes "UPDATE_SLAVES:") (join b',' slaves) (omega arith)
        (Solid-Lacks (join b',' slaves) (join-Solid slaves h)))

read_line_end : read_line [] ≡ ([], [])
unfolding read_line
read_line_end = refl

-- The report as the second line.
reported :
    (slaves : List Text)
    → All Solid slaves
    → slaves_of (if is_empty (update_line slaves) then none else some (update_line slaves))
      ≡ some (join b',' slaves)
reported slaves h =
    let present : is_empty (update_line slaves) ≡ false = unfold update_line in refl in
    rw present (
      rw (trim-update_line slaves h)
        (strip_prefix-append (codes "UPDATE_SLAVES:") (join b',' slaves)))

-- The answer of the master to a heartbeat brings the worker its credits, and the addresses of the
-- providers joined by commas exactly if the master reports them; provided that the credits fit 64
-- bits and the addresses hold no blanks.
read_answer-pong_line :
    (credits : ℕ) (slaves : List Text)
    → credits < u64_mod
    → All Solid slaves
    → (read_answer (pong_line credits none) ≡ record { credits = some credits; slaves = none })
      × (read_answer (pong_line credits (some (update_line slaves)))
          ≡ record { credits = some credits; slaves = some (join b',' slaves) })
unfolding pong_line read_answer
read_answer-pong_line credits slaves hc hs = (
  rw (read_line-credits credits [], read_line_end) (read_news_lem credits none hc),
  rw
      (
        read_line-credits credits (update_line slaves),
        read_line-update_line slaves hs,
        read_news_lem credits _ hc,
      )
      (ap (λ t. record { credits = some credits; slaves = t }) (reported slaves hs)),
)

-- Slaves that come behind `PONG:UPDATE_SLAVES:` are dropped: the test for `PONG` comes first.
read_news_dropped :
    (s : Text)
    → read_news (codes "PONG:UPDATE_SLAVES:" ++ s) none ≡ record { credits = none; slaves = none }
read_news_dropped s =
    let e =
      trim_end-append_Solid (codes "PONG:UPDATE_SLAVES:") s
        (unfold is_whitespace in ground arith) in
    unfold read_news in
    rw (trim_lem, e) (unfold trim_start is_whitespace starts_with strip_prefix in refl)
