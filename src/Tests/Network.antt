-- ===== src/Tests/Network.antt =====
-- Registrations at once and one after another, the keys behind their accounts, and what a charge
-- leaves in the file.
use enjambre_worker.Prelude.{
  ℕ, ◌+◌, ◌≡◌, ◌≢◌, refl, Bool, true, false, List, [], ◌∷◌, none, some, is_some, arith,
  if◌then◌else◌,
}
use enjambre_worker.Prelude.Text.{Text, codes, same_text}
use enjambre_worker.Prelude.Maps.{HashMap, get}
use enjambre_worker.Storage.{plain_storage-IsDurable}
use enjambre_worker.Json.{Value}
use enjambre_worker.Registry.{
  WorkerNode, WorkerRegistry, super_node, is_super, register, set_super_node,
  get_saved_worker_credit,
}
use enjambre_worker.Registry.Files
use enjambre_worker.Registry.Files.{load_credits}
use enjambre_worker.Registry.Invariant.{IsValid}
use enjambre_worker.Heartbeat.{check_heartbeats}
use enjambre_worker.Connection.{Connection, add_worker, assign_port}
use enjambre_worker.Connection.Race.{
  Registration, begun, finished, Both, call, node_of, run, run-two_super_nodes,
}
use enjambre_worker.Connection.Race.Turns.{run_named_first-IsValid}
use enjambre_worker.Connection.Succession.{add_worker-check_heartbeats}
use enjambre_worker.Keys.{ApiKey}
use enjambre_worker.Keys.Invariant.{deducts}
use enjambre_worker.Keys.Refinement.{
  Request, does, checks, answers, replies, contents, replies-answers,
}
use enjambre_worker.Api.{ApiState}
use enjambre_worker.Api.Chat.{charge}
use enjambre_worker.Api.Chat.Saved.{charge-load_credits, earner}
use enjambre_worker.Tests.Registry.{two_workers-IsValid, two_workers-Unique}
use enjambre_worker.Tests.{
  key_files, credit_files, alice, two_keys, big, two_workers, server, any_text, any_body,
}

abbrev peer : ℕ → Connection
peer n = record { cmd_tx = n; peer = codes "10.0.0.9:5555"; this_worker_id = some (codes "big") }

abbrev registration : Text → Registration
registration id = record {
  connection = peer 5;
  now = 9;
  id = id;
  vram_mb = 8192;
  ram_mb = 16384;
  cpu_cores = 8;
  has_gpu = true;
  rpc_port = 8090;
}

abbrev one : Registration
one = registration (codes "one")

abbrev two : Registration
two = registration (codes "two")

abbrev nobody : WorkerRegistry Value
nobody = Files.new credit_files none none

abbrev turns : List Bool
turns = true ∷ false ∷ true ∷ false ∷ true ∷ false ∷ true ∷ false ∷ []

abbrev both : Both Value
both =
    run one two (true ∷ false ∷ turns) (record { registry = nobody; first = begun; second = begun })

abbrev super : Registration → WorkerNode
super x = node_of x super_node 0 0

one_finished : both.first ≡ finished (super one)
unfolding run call Files.new get assign_port get_saved_worker_credit register set_super_node
one_finished = refl

two_finished : both.second ≡ finished (super two)
unfolding run call Files.new get assign_port get_saved_worker_credit register set_super_node
two_finished = refl

nobody_named : nobody.super_node_id ≡ none
unfolding Files.new
nobody_named = refl

one_ne_two : codes "one" ≢ codes "two"
one_ne_two e = ground (arith, e)

run-two_super_nodes_example :
    (get (codes "one") both.registry.workers ≡ some (super one))
    × (get (codes "two") both.registry.workers ≡ some (super two))
    × (is_super super_node ≡ true)
    × (is_super super_node ≡ true)
    × (¬ IsValid both.registry)
run-two_super_nodes_example =
    run-two_super_nodes one two turns nobody both (super one) (super two) one_ne_two refl refl
      nobody_named refl one_finished two_finished

nobody-IsValid : IsValid nobody
unfolding Files.new get
nobody-IsValid = record {
  table = record { unique = tt; own = λ k w e. cc; named = λ k w e s. cc };
  port = omega arith;
  linked = λ h. cc;
}

-- The first worker is named before the second one asks.
run_named_first-IsValid_example :
    IsValid
      (run one two
        (true ∷ true ∷ turns)
        (record { registry = nobody; first = begun; second = begun })).registry
run_named_first-IsValid_example = run_named_first-IsValid one two turns nobody nobody-IsValid

big_found : get (codes "big") two_workers.workers ≡ some big
unfolding get same_text
big_found = refl

add_worker-check_heartbeats_example :
    let (r', node) =
      add_worker
        (peer 5)
        130000000009
        (codes "one")
        8192
        16384
        8
        true
        8090
        (check_heartbeats 130000000000 two_workers) in
    (node.role ≡ super_node)
    × (get (codes "one") r'.workers ≡ some node)
    × (r'.super_node_id ≡ some (codes "one"))
    × (r'.super_node_cmd_tx ≡ some 5)
add_worker-check_heartbeats_example =
    add_worker-check_heartbeats (peer 5) 130000000000 130000000009 (codes "big") (codes "one") big
      8192 16384 8 8090 two_workers two_workers-IsValid refl big_found refl (omega arith)

-- Alice's two credits are spent, and her key is not usable then.
abbrev requests : List Request
requests =
    checks (codes "alice")
    ∷ does (deducts (codes "alice"))
    ∷ does (deducts (codes "alice"))
    ∷ does (deducts (codes "alice"))
    ∷ checks (codes "alice")
    ∷ []

alice_answers :
    answers requests (contents key_files two_keys) ≡ true ∷ true ∷ true ∷ false ∷ false ∷ []
unfolding get same_text
alice_answers = refl

replies-answers_example :
    replies key_files requests two_keys ≡ answers requests (contents key_files two_keys)
replies-answers_example = replies-answers key_files requests two_keys

-- A server with the pool of a file that is not there yet, and whose super node has left.
abbrev lonely : ApiState (HashMap ApiKey) Value
lonely = record server {
  registry = record two_workers { super_node_id = none };
  credit_pool = 1000;
}

first_pool : (load_credits credit_files none).0 ≡ 1000
unfolding load_credits
first_pool = refl

charge-load_credits_example :
    let state' = charge any_text any_body any_text key_files credit_files alice lonely in
    (state'.credit_pool + 1 ≡ 1000)
    × ((load_credits credit_files state'.registry.disk).0 ≡ (
        if is_some (earner credit_files (plain_storage-IsDurable Value) lonely.registry)
        then state'.credit_pool
        else state'.credit_pool + 1))
charge-load_credits_example =
    charge-load_credits any_text any_body any_text key_files credit_files
      (plain_storage-IsDurable Value) (codes "credits.json") alice lonely refl two_workers-Unique
      (omega arith) (omega arith) first_pool
