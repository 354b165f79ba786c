-- ===== src/Client/Heartbeats/Late.antt =====
-- What becomes of an answer of the master whose second line comes late.
use enjambre_worker.Prelude.{
  false, ℕ, ◌<◌, ◌≡◌, refl, ap, ◌∙◌, List, [], ◌∷◌, ◌++◌, append_assoc, append-nil, none, some, All,
  u64_mod,
}
use enjambre_worker.Prelude.Text.{Text, codes, join, starts_with, strip_prefix}
use enjambre_worker.Prelude.Text.Laws.{Solid}
use enjambre_worker.Prelude.Decimal.{to_decimal}
use enjambre_worker.Registry.{update_line}
use enjambre_worker.Connection.{pong_line}
use enjambre_worker.Reader.{read_line}
use enjambre_worker.Client.{news_of, read_news, slaves_of}
use enjambre_worker.Client.Pong.{
  credits_line, read_line-credits, trim-update_line, trim-credits_line, read_news_lem,
}
use enjambre_worker.Client.Heartbeats.{heard, Session, read_extra, extra_of, heartbeat, heartbeats}
use enjambre_worker.Client.Heartbeats.Laws.{
  hear_lem, read_line-report, read_extra_line, has_line_last, extra_of-credits_line,
  heartbeat-pong_line, clean,
}

-- A report as the first line.
extra_of-report :
    (slaves : List Text) (rest : Text)
    → All Solid slaves
    → extra_of false (update_line slaves) rest ≡ (none, rest)
extra_of-report slaves rest h = rw (trim-update_line slaves h) (unfold starts_with in refl)

read_news-report :
    (slaves : List Text)
    → All Solid slaves
    → read_news (update_line slaves) none
      ≡ record { credits = none; slaves = some (join b',' slaves) }
unfolding read_news
read_news-report slaves h =
    ap (λ first. news_of first none) (trim-update_line slaves h)
    ∙ (unfold starts_with strip_prefix in refl)

late_beat :
    (c : ℕ) (slaves : List Text) (s : Session)
    → All Solid slaves
    → heartbeat (heard (update_line slaves ++ credits_line c)) (clean s)
      ≡ record (clean s) { unread = credits_line c; slaves = s.slaves ++ join b',' slaves ∷ [] }
unfolding heartbeat
late_beat c slaves s h =
    hear_lem (update_line slaves ++ credits_line c) (update_line slaves) (credits_line c)
      (credits_line c) none (record { credits = none; slaves = some (join b',' slaves) }) (clean s)
      (read_line-report slaves (credits_line c) h) (extra_of-report slaves (credits_line c) h)
      (read_news-report slaves h)

slaves_of-credits_line : (d : ℕ) → slaves_of (some (credits_line d)) ≡ none
slaves_of-credits_line d = rw (trim-credits_line d) (unfold strip_prefix in refl)

credits_line-append :
    (c : ℕ) (rest : Text)
    → credits_line c ++ rest ≡ codes "PONG:CREDITS=" ++ (to_decimal c ++ b'\n' ∷ rest)
credits_line-append c rest =
    ap (λ t. codes "PONG:CREDITS=" ++ t) (append_assoc (to_decimal c) (b'\n' ∷ []) rest)

read_extra-credits_line : (d : ℕ) → read_extra false (credits_line d) ≡ (some (credits_line d), [])
read_extra-credits_line d =
    read_extra_line (credits_line d) [] (has_line_last (codes "PONG:CREDITS=" ++ to_decimal d))
      (read_line-credits d [])

behind_beat :
    (c d : ℕ) (s : Session)
    → c < u64_mod
    → heartbeat (heard (credits_line d)) (record (clean s) { unread = credits_line c })
      ≡ record (clean s) { credits = c }
unfolding heartbeat
behind_beat c d s fits =
    hear_lem (credits_line c ++ credits_line d) (credits_line c) (credits_line d) []
      (some (credits_line d)) (record { credits = some c; slaves = none })
      (record (clean s) { unread = credits_line c })
      (ap read_line (credits_line-append c (credits_line d)) ∙ read_line-credits c (credits_line d))
      (extra_of-credits_line c (credits_line d) ∙ read_extra-credits_line d)
      (read_news_lem c (some (credits_line d)) fits
        ∙ ap (λ t. record { credits = some c; slaves = t }) (slaves_of-credits_line d))
    ∙ rw append-nil refl

-- A report that comes later than 100 ms behind its answer is passed on with the next heartbeat,
-- but the credits that answer it are read one heartbeat later, and those of that one are never
-- read; where the credits fit 64 bits and the addresses hold no blanks.
pub late_report :
    (c d e : ℕ) (slaves : List Text) (s : Session)
    → c < u64_mod
    → d < u64_mod
    → All Solid slaves
    → heartbeats
        (heard (credits_line c)
          ∷ heard (update_line slaves ++ credits_line d)
          ∷ heard (credits_line e)
          ∷ [])
        (clean s)
      ≡ record (clean s) { credits = d; slaves = s.slaves ++ join b',' slaves ∷ [] }
unfolding heartbeats pong_line
late_report c d e slaves s hc hd h =
    let t : Session = record s { credits = c } in
    let u : Session = record t { slaves = s.slaves ++ join b',' slaves ∷ [] } in
    ap (heartbeats (heard (update_line slaves ++ credits_line d) ∷ heard (credits_line e) ∷ []))
      (heartbeat-pong_line c none s hc tt)
    ∙ ap (heartbeats (heard (credits_line e) ∷ [])) (late_beat d slaves t h)
    ∙ behind_beat d e u hd
