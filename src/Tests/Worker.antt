-- ===== src/Tests/Worker.antt =====
-- The theorems on the worker's programs, at a machine with a GPU.
use enjambre_worker.Prelude.{◌/◌, ◌≡◌, refl, Bool, true, false, List, [], ◌∷◌, none, some, arith}
use enjambre_worker.Prelude.Text.{codes}
use enjambre_worker.Hardware.{HardwareInfo, build_rpc_args}
use enjambre_worker.Stats.{credits, new, sizes}
use enjambre_worker.Tunnel.{
  Round, copied, no_local, run_reverse_tunnel, copies, credits-run_reverse_tunnel,
}
use enjambre_worker.Client.{gpu_provider, ModelConfig}
use enjambre_worker.Worker.{
  rpc_port, AppState, relaunch_args, handle_slave_updates, slave_update, left_behind,
}
use enjambre_worker.Worker.Lifecycle.{running}

abbrev machine : HardwareInfo
machine = record {
  has_nvidia_gpu = true;
  nvidia_gpu_name = some (codes "RTX");
  vram_mib = some 8192;
  cpu_cores = 16;
  used_threads = 8;
}

-- A round without the local program, a copy, and one behind the shutdown.
abbrev tunnel_rounds : List (Bool × (Round × Bool))
tunnel_rounds =
    (false, (no_local, false)) ∷ (false, (copied 3000 5000, true)) ∷ (true, (copied 1 1, true)) ∷ []

credits-run_reverse_tunnel_example :
    credits (run_reverse_tunnel tunnel_rounds new) ≡ sizes (copies tunnel_rounds) / 2000
credits-run_reverse_tunnel_example = credits-run_reverse_tunnel tunnel_rounds (omega arith)

abbrev provider : ModelConfig
provider = record {
  role = gpu_provider;
  name = [];
  url = [];
  total_layers = 0;
  tunnel_port = 18000;
  worker_id = codes "w";
}

abbrev empty_state : AppState
empty_state = record {
  rpc_process = none;
  server_process = none;
  left_running = [];
  shutdown = false;
}

abbrev started : AppState
started = record empty_state { rpc_process = some (build_rpc_args machine rpc_port) }

-- Two updates, and three llama-servers run with the one of the start.
all_run :
    running (
      handle_slave_updates
        (relaunch_args machine (codes "m.gguf"))
        ((codes "a:1", true) ∷ (codes "b:2", true) ∷ [])
        (record started { server_process = some [] }))
    ≡ relaunch_args machine (codes "m.gguf") (codes "b:2")
      ∷ relaunch_args machine (codes "m.gguf") (codes "a:1")
      ∷ []
      ∷ []
unfolding handle_slave_updates slave_update left_behind
all_run = refl
