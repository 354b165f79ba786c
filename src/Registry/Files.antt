-- ===== src/Registry/Files.antt =====
-- The credits file of the registry: `WorkerRegistry::new`, `save_credits`, `load_credits` and
-- `add_credits_to_super_node` of src/master.rs.
use enjambre_worker.Prelude.{ℕ, ◌+◌, ◌%◌, [], ◌∷◌, Option, none, some, ◌>>=◌, unwrap_or, u64_mod}
use enjambre_worker.Prelude.Text.{Text, codes}
use enjambre_worker.Prelude.Maps.{HashMap, get, insert, modify}
use enjambre_worker.Storage.{Storage}
use enjambre_worker.Json.{
  Value, Fields, number, object, end, field, insert_field, as_object, as_u64, at,
}
use enjambre_worker.Registry.{WorkerNode, WorkerRegistry, first_tunnel_port, bump_version}

-- The object of the workers, filled in the order of the table.
unfoldable pub workers_map : HashMap WorkerNode → Fields → Fields
workers_map [] done = done
workers_map ((id, w) ∷ ws) done =
    workers_map ws
      (insert_field id (object (insert_field (codes "credits") (number w.credits) end)) done)

unfoldable pub credits_json : ℕ → HashMap WorkerNode → Value
unfolding workers_map
credits_json credit_pool workers = object (
    insert_field (codes "workers") (object (workers_map workers end))
      (insert_field (codes "credit_pool") (number credit_pool) end))

-- The loop over the object of the workers.
unfoldable pub read_workers : Fields → HashMap ℕ → HashMap ℕ
read_workers end done = done
read_workers (field id wdata fs) done =
    read_workers fs (elim (as_u64 (at (codes "credits") wdata)) [
      | none ↦ done
      | some creds ↦ insert id creds done
    ])

unfoldable pub read_credits : Value → ℕ × HashMap ℕ
unfolding read_workers
read_credits json = (
  unwrap_or (as_u64 (at (codes "credit_pool") json)) 1000,
  elim (as_object (at (codes "workers") json)) [ none ↦ [] | some wmap ↦ read_workers wmap [] ],
)

module _ (s : Storage Value) where
  unfoldable pub load_credits : Option s.File → ℕ × HashMap ℕ
  unfolding read_credits
  load_credits disk = elim (do text ← disk; s.from_str text) [
    | none ↦ (1000, [])
    | some json ↦ read_credits json
  ]

  saved_at : Option Text → Option s.File → HashMap ℕ
  saved_at none disk = []
  saved_at (some p) disk = (load_credits disk).1

  -- `WorkerRegistry::new`
  unfoldable pub new : Option Text → Option s.File → WorkerRegistry s.File
  unfolding saved_at
  new credits_file disk = record {
    workers = [];
    version = 0;
    super_node_id = none;
    last_slave_list = [];
    tunnel_port_allocator = first_tunnel_port;
    credits_file = credits_file;
    saved_worker_credits = saved_at credits_file disk;
    super_node_cmd_tx = none;
    disk = disk;
  }

  unfoldable pub save_at : Option Text → ℕ → WorkerRegistry s.File → WorkerRegistry s.File
  unfolding credits_json
  save_at none credit_pool r = r
  save_at (some p) credit_pool r = elim (s.to_string_pretty (credits_json credit_pool r.workers)) [
    | none ↦ r
    | some text ↦ record r { disk = s.write text r.disk }
  ]

  unfoldable pub save_credits : ℕ → WorkerRegistry s.File → WorkerRegistry s.File
  unfolding save_at
  save_credits credit_pool r = save_at r.credits_file credit_pool r

  -- A worker with credits added at 64 bits.
  abbrev pub earn : ℕ → WorkerNode → WorkerNode
  earn amount w = record w { credits = (w.credits + amount) % u64_mod }

  unfoldable pub credit : Text → ℕ → ℕ → WorkerRegistry s.File → WorkerRegistry s.File × ℕ
  credit sid amount credit_pool r = elim (get sid r.workers) [
    | none ↦ (r, 0)
    | some w ↦ (
      save_credits credit_pool
          (bump_version (record r { workers = modify sid (earn amount) r.workers })),
      (w.credits + amount) % u64_mod,
    )
  ]

  unfoldable pub add_credits_to_super_node :
      ℕ → ℕ → WorkerRegistry s.File → WorkerRegistry s.File × ℕ
  unfolding credit
  add_credits_to_super_node amount credit_pool r = elim r.super_node_id [
    | none ↦ (r, 0)
    | some sid ↦ credit sid amount credit_pool r
  ]
