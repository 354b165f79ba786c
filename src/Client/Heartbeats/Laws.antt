-- ===== src/Client/Heartbeats/Laws.antt =====
-- What a worker knows behind its heartbeats.
use enjambre_worker.Prelude.{
  false, ℕ, ◌<◌, ◌≡◌, refl, ap, sym, ◌∙◌, true, List, [], ◌∷◌, ◌++◌, append_assoc, append-nil,
  Option, none, some, All, All-append, arith, map, u64_mod, map_option,
}
use enjambre_worker.Prelude.Text.{Text, codes, trim, join, starts_with, Lacks}
use enjambre_worker.Prelude.Text.Laws.{Solid, strip_prefix-append}
use enjambre_worker.Registry.{update_line}
use enjambre_worker.Connection.{pong_line}
use enjambre_worker.Reader.{read_line, has_line}
use enjambre_worker.Client.{News, read_news, slaves_of}
use enjambre_worker.Client.Pong.{
  credits_line, read_line-credits, read_line-append, trim-update_line, trim-credits_line,
  read_news_lem, join-Solid, Solid-Lacks,
}
use enjambre_worker.Client.Heartbeats.{
  heard, Session, read_extra, extra_of, heartbeat, heartbeats, hear, digest, settle,
}

-- An answer of the master: the credits, and the report of the providers, if there is one.
pub record Answer : Type 0 where
  pub credits : ℕ
  pub report : Option (List Text)

abbrev pub answer_line : Answer → Text
answer_line a = pong_line a.credits (map_option update_line a.report)

abbrev pub AllSolid : Option (List Text) → Type 0
AllSolid none = Unit
AllSolid (some slaves) = All Solid slaves

abbrev pub Fits : Answer → Type 0
Fits a = (a.credits < u64_mod) × AllSolid a.report

-- A session in the loop, with nothing read too much.
abbrev pub clean : Session → Session
clean s = record s { unread = []; heartbeat_ok = true }

starts_with-credits_line : (c : ℕ) → starts_with (codes "PONG") (trim (credits_line c)) ≡ true
starts_with-credits_line c = rw (trim-credits_line c) (unfold starts_with in refl)

pub has_line_last : (s : Text) → has_line (s ++ b'\n' ∷ []) ≡ true
has_line_last [] = refl
has_line_last (c ∷ s) = ground (arith, has_line_last s)

has_line-update_line : (slaves : List Text) → has_line (update_line slaves) ≡ true
unfolding update_line
has_line-update_line slaves = has_line_last (join b',' slaves)

pub read_line-report :
    (slaves : List Text) (rest : Text)
    → All Solid slaves
    → read_line (update_line slaves ++ rest) ≡ (update_line slaves, rest)
unfolding update_line
read_line-report slaves rest h =
    let s : Text = codes "UPDATE_SLAVES:" ++ join b',' slaves in
    let lacks : Lacks b'\n' s =
      All-append _ (codes "UPDATE_SLAVES:") (join b',' slaves) (omega arith)
        (Solid-Lacks (join b',' slaves) (join-Solid slaves h)) in
    ap read_line (append_assoc s (b'\n' ∷ []) rest) ∙ read_line-append s rest lacks

slaves_of-report :
    (slaves : List Text)
    → All Solid slaves
    → slaves_of (some (update_line slaves)) ≡ some (join b',' slaves)
slaves_of-report slaves h =
    rw (trim-update_line slaves h) (strip_prefix-append (codes "UPDATE_SLAVES:") (join b',' slaves))

abbrev with_report : Option (List Text) → List Text → List Text
with_report none sent = sent
with_report (some slaves) sent = sent ++ join b',' slaves ∷ []

read_extra-none : read_extra false [] ≡ (none, [])
unfolding read_extra
read_extra-none = refl

pub read_extra_line :
    (s rest : Text)
    → has_line s ≡ true
    → read_line s ≡ (s, rest)
    → read_extra false s ≡ (some s, rest)
unfolding read_extra
read_extra_line s rest h e = rw (h, e) refl

read_extra-report :
    (slaves : List Text)
    → All Solid slaves
    → read_extra false (update_line slaves) ≡ (some (update_line slaves), [])
read_extra-report slaves h =
    read_extra_line (update_line slaves) [] (has_line-update_line slaves)
      (ap read_line (sym (append-nil (update_line slaves))) ∙ read_line-report slaves [] h)

-- What a beat is once its reads are known.
pub hear_lem :
    (written response rest more : Text) (extra : Option Text) (news : News) (s : Session)
    → read_line written ≡ (response, rest)
    → extra_of false response rest ≡ (extra, more)
    → read_news response extra ≡ news
    → hear false (read_line written) s ≡ settle news more s
hear_lem written response rest more extra news s l e n =
    ap (λ p. hear false p s) l ∙ ap (λ p. digest response p s) e ∙ ap (λ x. settle x more s) n

-- Behind the line of the credits there is a second read.
pub extra_of-credits_line :
    (c : ℕ) (rest : Text) → extra_of false (credits_line c) rest ≡ read_extra false rest
extra_of-credits_line c rest = rw (starts_with-credits_line c) refl

pub heartbeat-pong_line :
    (c : ℕ) (report : Option (List Text)) (s : Session)
    → c < u64_mod
    → AllSolid report
    → heartbeat (heard (pong_line c (map_option update_line report))) (clean s)
      ≡ record (clean s) { credits = c; slaves = with_report report s.slaves }
unfolding heartbeat pong_line
heartbeat-pong_line c none s fits solid =
    hear_lem (pong_line c none) (credits_line c) [] [] none
      (record { credits = some c; slaves = none }) (clean s) (read_line-credits c [])
      (extra_of-credits_line c [] ∙ read_extra-none) (read_news_lem c none fits)
    ∙ rw append-nil refl
heartbeat-pong_line c (some slaves) s fits solid =
    hear_lem (pong_line c (some (update_line slaves))) (credits_line c) (update_line slaves) []
      (some (update_line slaves)) (record { credits = some c; slaves = some (join b',' slaves) })
      (clean s) (read_line-credits c (update_line slaves))
      (extra_of-credits_line c (update_line slaves) ∙ read_extra-report slaves solid)
      (read_news_lem c (some (update_line slaves)) fits
        ∙ ap (λ t. record { credits = some c; slaves = t }) (slaves_of-report slaves solid))

abbrev pub last_credits : List Answer → ℕ → ℕ
last_credits [] c = c
last_credits (a ∷ as') c = last_credits as' a.credits

abbrev pub reports : List Answer → List Text
reports [] = []
reports (a ∷ as') = with_report a.report [] ++ reports as'

with_report-append :
    (r : Option (List Text)) (sent rest : List Text)
    → with_report r sent ++ rest ≡ sent ++ (with_report r [] ++ rest)
with_report-append none sent rest = refl
with_report-append (some slaves) sent rest = append_assoc sent (join b',' slaves ∷ []) rest

-- However many heartbeats the master answers in time, the worker keeps the credits of the last answer,
-- and passes on exactly the reports, each once and in order; provided that the credits fit 64 bits
-- and the addresses hold no blanks.
pub heartbeats-answer_line :
    (as' : List Answer) (s : Session)
    → All Fits as'
    → heartbeats (map (λ a. heard (answer_line a)) as') (clean s)
      ≡ record (clean s) { credits = last_credits as' s.credits; slaves = s.slaves ++ reports as' }
unfolding heartbeats
heartbeats-answer_line [] s h = rw append-nil refl
heartbeats-answer_line (a ∷ as') s ((fits, solid), hs) =
    let t : Session = record s { credits = a.credits; slaves = with_report a.report s.slaves } in
    ap (heartbeats (map (λ b. heard (answer_line b)) as'))
      (heartbeat-pong_line a.credits a.report s fits solid)
    ∙ heartbeats-answer_line as' t hs
    ∙ ap (λ sent. record (clean s) { credits = last_credits as' a.credits; slaves = sent })
        (with_report-append a.report s.slaves (reports as'))
