-- ===== src/Connection/Succession.antt =====
-- What becomes of the place of a super node that leaves or is lost.
use enjambre_worker.Prelude.{ℕ, ◌≡◌, ◌∙◌, true, List, [], ◌∷◌, none, some, arith, ◌≤◌}
use enjambre_worker.Prelude.Text.{Text, same_text_iff}
use enjambre_worker.Prelude.Maps.{get, values}
use enjambre_worker.Registry.{
  super_node, WorkerNode, WorkerRegistry, unregister, get_active_workers,
}
use enjambre_worker.Registry.Invariant.{IsValid}
use enjambre_worker.Heartbeat.{
  is_late, late_ids, mem, mem-late_ids, unregister_all, check_heartbeats,
}
use enjambre_worker.Connection.{Connection, add_worker, leave, super_node_vram_threshold}
use enjambre_worker.Connection.Roles.{add_worker_lem}

module _ {File : Type 0} where
  unregister_all-unnamed :
      (ids : List Text) (r : WorkerRegistry File)
      → r.super_node_id ≡ none
      → (unregister_all ids r).super_node_id ≡ none
  unfolding unregister_all unregister
  unregister_all-unnamed [] r e = e
  unregister_all-unnamed (id ∷ ids) r e =
      unregister_all-unnamed ids (unregister id r) (ground (arith, e))

  unregister_all-named :
      (ids : List Text) (r : WorkerRegistry File) (k : Text)
      → r.super_node_id ≡ some k
      → mem k ids ≡ true
      → (unregister_all ids r).super_node_id ≡ none
  unfolding unregister_all unregister mem
  unregister_all-named [] r k e m = cc
  unregister_all-named (id ∷ ids) r k e m = ground (
    arith,
    unregister_all-unnamed ids (unregister id r),
    unregister_all-named ids (unregister id r) k,
    same_text_iff id k,
    same_text_iff k id,
  )

  -- Where no super node is named, a fit worker that registers becomes the super node.
  next_super_node :
      (c : Connection) (now : ℕ) (id : Text) (vram ram cores port : ℕ) (r : WorkerRegistry File)
      → super_node_vram_threshold ≤ vram
      → r.super_node_id ≡ none
      → let (r', node) = add_worker c now id vram ram cores true port r in
        (node.role ≡ super_node)
        × (get id r'.workers ≡ some node)
        × (r'.super_node_id ≡ some id)
        × (r'.super_node_cmd_tx ≡ some c.cmd_tx)
  next_super_node c now id vram ram cores port r fit e =
      let (found, others, role, named, linked, tunnel) =
        add_worker_lem c now id vram ram cores true port r in
      let super : (add_worker c now id vram ram cores true port r).1.role ≡ super_node =
        role ∙ ground (arith, e, fit) in
      (super, found, ground (arith, named, super), ground (arith, linked, super))

  -- When the connection of the super node ends, the next worker that registers with a GPU of 6144 MB
  -- or more takes its place and gets the commands.
  add_worker-leave :
      (gone c : Connection) (now : ℕ) (sn id : Text) (vram ram cores port : ℕ)
      (r : WorkerRegistry File)
      → gone.this_worker_id ≡ some sn
      → r.super_node_id ≡ some sn
      → super_node_vram_threshold ≤ vram
      → let (r', node) = add_worker c now id vram ram cores true port (leave gone r) in
        (node.role ≡ super_node)
        × (get id r'.workers ≡ some node)
        × (r'.super_node_id ≡ some id)
        × (r'.super_node_cmd_tx ≡ some c.cmd_tx)
  unfolding leave unregister
  add_worker-leave gone c now sn id vram ram cores port r e n fit =
      next_super_node c now id vram ram cores port (leave gone r) fit
        (ground (arith, e, n, same_text_iff sn sn))

  -- When the super node has sent no heartbeat for 120 seconds, a round of the check makes room for the
  -- next worker that registers with a GPU of 6144 MB or more: it takes its place and gets the
  -- commands.
  pub add_worker-check_heartbeats :
      (c : Connection) (now later : ℕ) (sn id : Text) (w : WorkerNode) (vram ram cores port : ℕ)
      (r : WorkerRegistry File)
      → IsValid r
      → r.super_node_id ≡ some sn
      → get sn r.workers ≡ some w
      → is_late now w ≡ true
      → super_node_vram_threshold ≤ vram
      → let (r', node) = add_worker c later id vram ram cores true port (check_heartbeats now r) in
        (node.role ≡ super_node)
        × (get id r'.workers ≡ some node)
        × (r'.super_node_id ≡ some id)
        × (r'.super_node_cmd_tx ≡ some c.cmd_tx)
  unfolding check_heartbeats get_active_workers
  add_worker-check_heartbeats c now later sn id w vram ram cores port r v n g late fit =
      next_super_node c later id vram ram cores port (check_heartbeats now r) fit (
        unregister_all-named (late_ids now (values r.workers)) r sn n
          (ground (arith, mem-late_ids now sn r.workers v.table.unique v.table.own, g, late)))
