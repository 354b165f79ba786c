-- ===== src/Tests/Registry.antt =====
-- The theorems on the registry, the split and the heartbeats, at two workers.
use enjambre_worker.Prelude.{
  ◌+◌, ◌/◌, ◌<◌, ◌≡◌, refl, [], ◌∷◌, none, some, ◌≢◌, ◌⊎◌, not, sum, filter_option, arith,
}
use enjambre_worker.Prelude.Text.{codes, same_text}
use enjambre_worker.Prelude.Maps.{get, insert, Unique}
use enjambre_worker.Storage.{plain_storage-IsDurable}
use enjambre_worker.Json.{Value}
use enjambre_worker.Registry.{
  check_slave_change, get_rpc_slave_addrs, update_line, get_worker_credits,
}
use enjambre_worker.Registry.Files.{load_credits, save_credits}
use enjambre_worker.Registry.Credits.{load_credits-save_credits}
use enjambre_worker.Registry.Invariant.{IsTable, IsValid, insert-IsTable}
use enjambre_worker.Registry.Ports.{IsPort, port_count, nth_port, nth_port_distinct}
use enjambre_worker.Registry.Slaves.{check_slave_change_lem}
use enjambre_worker.Heartbeat.{is_late, check_heartbeats, get-check_heartbeats}
use enjambre_worker.Split.{gpu_workers, calculate_tensor_split}
use enjambre_worker.Split.Shares.{
  addrs, layers, Between, sharers, share_addrs, calculate_tensor_split_lem,
}
use enjambre_worker.Tests.{credit_files, big, small, two_workers}

pub two_workers-Unique : Unique two_workers.workers
unfolding get same_text
two_workers-Unique = (refl, (refl, tt))

no_workers-IsTable : IsTable (some (codes "big")) []
unfolding get
no_workers-IsTable = record { unique = tt; own = λ k w e. cc; named = λ k w e s. cc }

two_workers-IsTable : IsTable (some (codes "big")) two_workers.workers
unfolding insert same_text
two_workers-IsTable =
    insert-IsTable (some (codes "big")) ((codes "big", big) ∷ []) small (λ h. cc)
      (insert-IsTable (some (codes "big")) [] big (λ h. refl) no_workers-IsTable)

pub two_workers-IsValid : IsValid two_workers
two_workers-IsValid = record {
  table = two_workers-IsTable;
  port = (omega arith, omega arith);
  linked = λ h. refl;
}

big_found : get (codes "big") two_workers.workers ≡ some big
unfolding get same_text
big_found = refl

get-check_heartbeats_example :
    get (codes "small") (check_heartbeats 250000000000 two_workers).workers
    ≡ filter_option (λ w. not (is_late 250000000000 w)) (get (codes "small") two_workers.workers)
get-check_heartbeats_example =
    get-check_heartbeats 250000000000 (codes "small") two_workers two_workers-IsValid

calculate_tensor_split_lem_example :
    let shares = calculate_tensor_split 29 (big ∷ small ∷ []) in
    (sum (layers shares) ≡ 29)
    × (addrs shares ≡ share_addrs (gpu_workers (big ∷ small ∷ [])))
    × Between
        (29 / sharers (big ∷ small ∷ []))
        (29 / sharers (big ∷ small ∷ []) + 1)
        (layers shares)
calculate_tensor_split_lem_example = calculate_tensor_split_lem 29 (big ∷ small ∷ []) (omega arith)

load_credits-save_credits_example :
    let (pool, saved_credits) =
      load_credits credit_files (save_credits credit_files 10 two_workers).disk in
    (pool ≡ 10) × (get (codes "big") saved_credits ≡ get_worker_credits (codes "big") two_workers)
load_credits-save_credits_example =
    load_credits-save_credits credit_files (plain_storage-IsDurable Value) (codes "credits.json") 10
      (codes "big") two_workers refl two_workers-Unique

check_slave_change_lem_example :
    let current = get_rpc_slave_addrs two_workers in
    let (r', report) = check_slave_change two_workers in
    (r'.last_slave_list ≡ current)
    × (get_rpc_slave_addrs r' ≡ current)
    × (((current ≢ []) × (current ≢ []) × (report ≡ some (update_line current)))
        ⊎ (((current ≡ []) ⊎ (current ≡ [])) × (report ≡ none)))
check_slave_change_lem_example = check_slave_change_lem two_workers

nth_port_distinct_example :
    IsPort (nth_port 2 two_workers)
    × (5 < 2 + port_count → nth_port 2 two_workers ≢ nth_port 5 two_workers)
    × (nth_port (2 + port_count) two_workers ≡ nth_port 2 two_workers)
nth_port_distinct_example = nth_port_distinct 2 5 two_workers (omega arith) (omega arith)
