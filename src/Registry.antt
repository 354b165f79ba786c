-- ===== src/Registry.antt =====
-- The worker registry of src/master.rs: roles, models, workers and the operations on their table.
-- An `Instant` is a number of nanoseconds; a sender of the command channel is the number of the
-- connection that owns the receiver.
pub mod Files
pub mod Ports
pub mod Credits
pub mod Slaves
pub mod Invariant
pub mod Earnings
use enjambre_worker.Prelude.{
  ℕ, ◌+◌, ◌%◌, Bool, true, false, List, [], ◌∷◌, ◌++◌, ◌&&◌, not, Option, none, some, map, length,
  any, filter_by, ltb, is_empty, if◌then◌else◌, ◌>>=◌, unwrap_or, map_option, u16_mod, u64_mod,
}
use enjambre_worker.Prelude.Text.{Text, codes, same_text, join}
use enjambre_worker.Prelude.Decimal.{to_decimal}
use enjambre_worker.Prelude.Maps.{HashMap, get, insert, remove, modify, values}

pub data Role : Type 0 where
  consumer super_node gpu_provider : Role

abbrev pub is_super : Role → Bool
is_super super_node = true
is_super _ = false

abbrev pub is_consumer : Role → Bool
is_consumer consumer = true
is_consumer _ = false

abbrev pub is_gpu_provider : Role → Bool
is_gpu_provider gpu_provider = true
is_gpu_provider _ = false

pub record ModelEntry : Type 0 where
  pub name : Text
  pub url : Text
  pub total_layers : ℕ

pub record MasterConfig : Type 0 where
  pub models : List ModelEntry
  pub public_ip : Text
  pub admin_password : Text

pub record WorkerNode : Type 0 where
  pub id : Text
  pub role : Role
  pub addr : Text
  pub rpc_port : ℕ
  pub tunnel_port : ℕ
  pub vram_mb : ℕ
  pub vram_free_mb : ℕ
  pub ram_mb : ℕ
  pub ram_free_mb : ℕ
  pub cpu_cores : ℕ
  pub has_gpu : Bool
  pub last_ping : ℕ
  pub credits : ℕ

abbrev pub first_tunnel_port : ℕ
first_tunnel_port = 18000

-- `disk` is the content of the credits file, if it can be read.
pub record WorkerRegistry (File : Type 0) : Type 0 where
  pub workers : HashMap WorkerNode
  pub version : ℕ
  pub super_node_id : Option Text
  pub last_slave_list : List Text
  pub tunnel_port_allocator : ℕ
  pub credits_file : Option Text
  pub saved_worker_credits : HashMap ℕ
  pub super_node_cmd_tx : Option ℕ
  pub disk : Option File

-- What came of a command on the channel: no receiver, no answer, or the worker's answer.
pub data Delivery : Type 0 where
  closed : Delivery
  dropped : Delivery
  answered : (succeeded : Bool) → Text → Delivery

-- `Result<String, String>`
pub data Reply : Type 0 where
  ok : Text → Reply
  err : Text → Reply

abbrev to_reply : Delivery → Reply
to_reply closed = err (codes "SuperNode desconectado")
to_reply dropped = err (codes "Timeout esperando cambio de modelo")
to_reply (answered true t) = ok t
to_reply (answered false t) = err t

-- `s == Some(id)`
abbrev pub is_id : Option Text → Text → Bool
is_id none id = false
is_id (some j) id = same_text j id

unfoldable pub switch_command : Text → Text → ℕ → Text
switch_command name url layers =
    codes "SWITCH_MODEL:" ++ (name ++ b':' ∷ (url ++ b':' ∷ (to_decimal layers ++ b'\n' ∷ [])))

-- The allocator after a port has been handed out.
unfoldable pub next_port : ℕ → ℕ
next_port port =
    let p = (port + 1) % u16_mod in if ltb p first_tunnel_port then first_tunnel_port else p

-- What a heartbeat writes to a worker.
abbrev pub refresh : ℕ → ℕ → ℕ → WorkerNode → WorkerNode
refresh vram_free ram_free now w = record w {
  vram_free_mb = vram_free;
  ram_free_mb = ram_free;
  last_ping = now;
}

-- `Vec<String> == Vec<String>`
unfoldable pub same_texts : List Text → List Text → Bool
same_texts [] [] = true
same_texts [] (t ∷ ts) = false
same_texts (s ∷ ss) [] = false
same_texts (s ∷ ss) (t ∷ ts) = if same_text s t then same_texts ss ts else false

unfoldable pub update_line : List Text → Text
update_line slaves = codes "UPDATE_SLAVES:" ++ (join b',' slaves ++ b'\n' ∷ [])

module _ {File : Type 0} where
  unfoldable pub set_super_node_cmd_tx : ℕ → WorkerRegistry File → WorkerRegistry File
  set_super_node_cmd_tx tx r = record r { super_node_cmd_tx = some tx }

  -- `send` is the channel with the connection behind it.
  unfoldable pub switch_model :
      (ℕ → Text → Delivery) → Text → Text → ℕ → WorkerRegistry File → Reply
  switch_model send name url layers r = elim r.super_node_cmd_tx [
    | none ↦ err (codes "No hay SuperNode conectado")
    | some tx ↦ to_reply (send tx (switch_command name url layers))
  ]

  unfoldable pub allocate_tunnel_port : WorkerRegistry File → WorkerRegistry File × ℕ
  unfolding next_port
  allocate_tunnel_port r = (
    record r { tunnel_port_allocator = next_port r.tunnel_port_allocator },
    r.tunnel_port_allocator,
  )

  unfoldable pub bump_version : WorkerRegistry File → WorkerRegistry File
  bump_version r = record r { version = (r.version + 1) % u64_mod }

  unfoldable pub set_super_node : Text → WorkerRegistry File → WorkerRegistry File
  unfolding bump_version
  set_super_node id r = bump_version (record r { super_node_id = some id })

  abbrev pub get_super_node_id : WorkerRegistry File → Option Text
  get_super_node_id r = r.super_node_id

  unfoldable pub get_active_workers : WorkerRegistry File → List WorkerNode
  get_active_workers r = values r.workers

  unfoldable pub get_worker_count : WorkerRegistry File → ℕ
  get_worker_count r = length r.workers

  unfoldable pub get_rpc_slaves : WorkerRegistry File → List WorkerNode
  get_rpc_slaves r = filter_by (λ w. is_gpu_provider w.role) (values r.workers)

  unfoldable pub get_rpc_slave_addrs : WorkerRegistry File → List Text
  unfolding get_rpc_slaves
  get_rpc_slave_addrs r = map (λ w. w.addr) (get_rpc_slaves r)

  unfoldable pub register : WorkerNode → WorkerRegistry File → WorkerRegistry File
  unfolding bump_version
  register node r = bump_version (record r { workers = insert node.id node r.workers })

  unfoldable pub unregister : Text → WorkerRegistry File → WorkerRegistry File
  unfolding bump_version
  unregister id r =
      let was_super = is_id r.super_node_id id in
      bump_version (record r {
        workers = remove id r.workers;
        super_node_id = if was_super then none else r.super_node_id;
        super_node_cmd_tx = if was_super then none else r.super_node_cmd_tx;
      })

  unfoldable pub update_heartbeat :
      Text → ℕ → ℕ → ℕ → WorkerRegistry File → WorkerRegistry File × Bool
  update_heartbeat id vram_free ram_free now r = elim (get id r.workers) [
    | none ↦ (r, false)
    | some w ↦ (record r { workers = modify id (refresh vram_free ram_free now) r.workers }, true)
  ]

  unfoldable pub get_worker_credits : Text → WorkerRegistry File → Option ℕ
  get_worker_credits id r = map_option (λ w. w.credits) (get id r.workers)

  unfoldable pub get_saved_worker_credit : Text → WorkerRegistry File → ℕ
  get_saved_worker_credit id r = unwrap_or (get id r.saved_worker_credits) 0

  unfoldable pub check_slave_change : WorkerRegistry File → WorkerRegistry File × Option Text
  check_slave_change r =
      let current = get_rpc_slave_addrs r in
      if same_texts current r.last_slave_list then (r, none) else (
        record r { last_slave_list = current },
        if is_empty current then none else some (update_line current),
      )

-- `models[0]`: there is no model to take where the configuration has none, and the code panics.
abbrev pub first_model : List ModelEntry → Option ModelEntry
first_model [] = none
first_model (m ∷ ms) = some m

unfoldable pub select_model :
    {File : Type 0} → MasterConfig → WorkerRegistry File → Option ModelEntry
select_model config r =
    let has_super = any (λ w. is_super w.role) (get_active_workers r) in
    if has_super && not (is_empty config.models)
    then first_model config.models
    else first_model config.models
