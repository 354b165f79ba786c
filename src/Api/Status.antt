-- ===== src/Api/Status.antt =====
-- What `get_network_status` of src/api.rs shows.
use enjambre_worker.Prelude.{
  ℕ, ◌+◌, ◌-◌, ◌/◌, ◌%◌, Bool, List, [], ◌∷◌, ◌&&◌, map, length, any, is_some, u64_mod,
}
use enjambre_worker.Prelude.Text.{Text, codes}
use enjambre_worker.Registry.{
  Role, consumer, super_node, gpu_provider, is_super, WorkerNode, get_active_workers,
  get_super_node_id,
}
use enjambre_worker.Api.{ApiState}

pub record NetworkStatus : Type 0 where
  pub total_vram_mb : ℕ
  pub total_ram_mb : ℕ
  pub active_workers_count : ℕ
  pub has_active_super_node : Bool
  pub registry_version : ℕ
  pub credit_pool : ℕ

pub record WorkerDetail : Type 0 where
  pub id : Text
  pub addr : Text
  pub role : Text
  pub vram_free_mb : ℕ
  pub ram_free_mb : ℕ
  pub seconds_since_last_ping : ℕ
  pub credits : ℕ

abbrev role_name : Role → Text
role_name super_node = codes "SuperNode"
role_name consumer = codes "Consumer"
role_name gpu_provider = codes "GpuProvider"

abbrev pub nanos_per_second : ℕ
nanos_per_second = 1000000000

abbrev pub detail : ℕ → WorkerNode → WorkerDetail
detail now w = record {
  id = w.id;
  addr = w.addr;
  role = role_name w.role;
  vram_free_mb = w.vram_free_mb;
  ram_free_mb = w.ram_free_mb;
  seconds_since_last_ping = (now - w.last_ping) / nanos_per_second;
  credits = w.credits;
}

-- The loop that adds up one number of each worker, at 64 bits.
unfoldable pub add_up : (WorkerNode → ℕ) → List WorkerNode → ℕ → ℕ
add_up f [] sum = sum
add_up f (w ∷ ws) sum = add_up f ws ((sum + f w) % u64_mod)

unfoldable pub network_status :
    {KeyFile CreditsFile : Type 0}
    → ℕ
    → ApiState KeyFile CreditsFile
    → NetworkStatus × List WorkerDetail
unfolding add_up
network_status now state =
    let workers = get_active_workers state.registry in
    (
      record {
        total_vram_mb = add_up (λ w. w.vram_free_mb) workers 0;
        total_ram_mb = add_up (λ w. w.ram_free_mb) workers 0;
        active_workers_count = length workers;
        has_active_super_node =
            is_some (get_super_node_id state.registry) && any (λ w. is_super w.role) workers;
        registry_version = state.registry.version;
        credit_pool = state.credit_pool;
      },
      map (detail now) workers,
    )
