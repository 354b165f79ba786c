-- ===== src/Tests/Client.antt =====
-- The theorems on the worker's side, at the names of the small network.
use enjambre_worker.Client.Registration.{turn-register_line}
use enjambre_worker.Prelude.Text.Laws.{Solid}
use enjambre_worker.Prelude.{◌/◌, ◌≡◌, refl, [], ◌∷◌, none, some, true, arith, All}
use enjambre_worker.Prelude.Text.{Text, codes, Lacks, is_whitespace}
use enjambre_worker.Connection.{Connection, line, turn, add_worker, Status}
use enjambre_worker.Client.{parse_init}
use enjambre_worker.Client.Lines.{register_line}
use enjambre_worker.Client.Greeting.{config_of}
use enjambre_worker.Stats.{credits, count, new, to_oracle, to_worker, credits-count}
use enjambre_worker.Tests.{two_workers, one_model, one_config}

big-Lacks : Lacks b':' (codes "big")
big-Lacks = ground arith

llama-Lacks : Lacks b':' (codes "llama")
llama-Lacks = ground arith

addrs-Solid : All Solid (codes "a:1" ∷ [])
unfolding is_whitespace
addrs-Solid = ((refl, (refl, (refl, tt))), tt)

abbrev new_connection : Connection
new_connection = record { cmd_tx = 5; peer = codes "10.0.0.9:5555"; this_worker_id = none }

turn-register_line_example :
    let t =
      turn one_config new_connection 9
        (line (register_line (codes "big") 8192 16384 8 true 8090))
        two_workers in
    let (r', node) = add_worker new_connection 9 (codes "big") 8192 16384 8 true 8090 two_workers in
    (l : Text) × (t ≡ record {
      registry = r';
      connection = record new_connection { this_worker_id = some (codes "big") };
      output = l ∷ [];
      response = none;
      status = Status.running;
    })
    × (parse_init (codes "big") l
        ≡ some (config_of (codes "big") node.role node.tunnel_port one_model))
turn-register_line_example =
    turn-register_line one_config new_connection 9 (codes "big") 8192 16384 8 true 8090 two_workers
      one_model [] big-Lacks (omega arith) (omega arith) (omega arith) (omega arith) refl
      llama-Lacks (omega arith) (omega arith, omega arith)

credits-count_example : credits (count (to_oracle 3000 ∷ to_worker 5000 ∷ []) new) ≡ 8000 / 2000
credits-count_example = credits-count (to_oracle 3000 ∷ to_worker 5000 ∷ []) (omega arith)
