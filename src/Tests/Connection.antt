-- ===== src/Tests/Connection.antt =====
-- The theorems on the connections, at two workers.
use enjambre_worker.Prelude.{Option, ◌≡◌, refl, [], ◌∷◌, none, some, ◌≢◌, true, if◌then◌else◌}
use enjambre_worker.Prelude.Text.{Text, codes, same_text}
use enjambre_worker.Prelude.Maps.{get}
use enjambre_worker.Registry.{is_super}
use enjambre_worker.Connection.{Connection, pong_line, add_worker, heartbeat}
use enjambre_worker.Connection.Roles.{role_of, add_worker_lem}
use enjambre_worker.Connection.Replies.{IsNews, heartbeat_told_once}
use enjambre_worker.Tests.{big, small, two_workers}

abbrev peer_connection : Connection
peer_connection = record { cmd_tx = 5; peer = codes "10.0.0.9:5555"; this_worker_id = none }

-- A third worker with a GPU becomes a provider.
add_worker_lem_example :
    let (r', node) =
      add_worker peer_connection 9 (codes "third") 8192 16384 8 true 8090 two_workers in
    (get (codes "third") r'.workers ≡ some node)
    × ((j : Text) → codes "third" ≢ j → get j r'.workers ≡ get j two_workers.workers)
    × (node.role ≡ role_of 8192 true (some (codes "big")))
    × (r'.super_node_id ≡ (if is_super node.role then some (codes "third") else some (codes "big")))
    × (r'.super_node_cmd_tx ≡ (if is_super node.role then some 5 else some 0))
    × (node.tunnel_port ≡ (if is_super node.role then 0 else 18001))
add_worker_lem_example =
    add_worker_lem peer_connection 9 (codes "third") 8192 16384 8 true 8090 two_workers

big_known : get (codes "big") two_workers.workers ≡ some big
unfolding get same_text
big_known = refl

small_known : get (codes "small") two_workers.workers ≡ some small
unfolding get same_text
small_known = refl

-- The provider asks first, and the super node is not told.
heartbeat_told_once_example :
    let t = heartbeat peer_connection 9 (codes "small") 4096 8192 two_workers in
    ((report : Option Text) × (t.output ≡ pong_line 7 report ∷ []) × IsNews two_workers report)
    × ((heartbeat peer_connection 10 (codes "big") 4096 8192 t.registry).output
        ≡ pong_line 7 none ∷ [])
heartbeat_told_once_example =
    heartbeat_told_once peer_connection peer_connection 9 10 (codes "small") (codes "big") 4096 8192
      4096 8192 two_workers small big small_known big_known
