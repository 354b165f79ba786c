-- ===== src/Tests/Heartbeats.antt =====
-- The theorems on the heartbeats of a worker, at the answers of the small network.
use enjambre_worker.Prelude.{◌≡◌, List, [], ◌∷◌, ◌++◌, none, some, map, true, All, arith, refl}
use enjambre_worker.Prelude.Text.{codes, join, is_whitespace}
use enjambre_worker.Prelude.Text.Laws.{Solid}
use enjambre_worker.Registry.{update_line}
use enjambre_worker.Client.Pong.{credits_line}
use enjambre_worker.Client.Heartbeats.{Session, heard, heartbeats}
use enjambre_worker.Client.Heartbeats.Laws.{
  Answer, answer_line, clean, last_credits, reports, heartbeats-answer_line,
}
use enjambre_worker.Client.Heartbeats.Late.{late_report}

abbrev idle : Session
idle = record { unread = []; credits = 7; slaves = []; heartbeat_ok = true }

abbrev answers : List Answer
answers =
    record { credits = 8; report = none }
    ∷ record { credits = 9; report = some (codes "a:1" ∷ []) }
    ∷ []

addrs-Solid : All Solid (codes "a:1" ∷ [])
unfolding is_whitespace
addrs-Solid = ((refl, (refl, (refl, tt))), tt)

heartbeats-answer_line_example :
    heartbeats (map (λ a. heard (answer_line a)) answers) (clean idle) ≡ record (clean idle) {
      credits = last_credits answers idle.credits;
      slaves = idle.slaves ++ reports answers;
    }
heartbeats-answer_line_example =
    heartbeats-answer_line answers idle ((omega arith, tt), ((omega arith, addrs-Solid), tt))

late_report_example :
    heartbeats
      (heard (credits_line 8)
        ∷ heard (update_line (codes "a:1" ∷ []) ++ credits_line 9)
        ∷ heard (credits_line 10)
        ∷ [])
      (clean idle)
    ≡ record (clean idle) { credits = 9; slaves = idle.slaves ++ join b',' (codes "a:1" ∷ []) ∷ [] }
late_report_example =
    late_report 8 9 10 (codes "a:1" ∷ []) idle (omega arith) (omega arith) addrs-Solid
