-- ===== src/Worker/Run.antt =====
-- The run of the worker, `run` of src/main.rs and `run_worker` of src-tauri/src/main.rs: the single
-- instance, the workspace, the wait for the configuration, the programs, and the end.
pub mod Ready
pub mod Ending
use enjambre_worker.Prelude.{
  ℕ, ◌≡◌, refl, ◌⊎◌, inl, inr, Bool, true, false, List, [], ◌∷◌, ◌++◌, Option, none, some,
  if◌then◌else◌, arith, Bool-cases, Option-cases,
}
use enjambre_worker.Prelude.Text.{Text, codes}
use enjambre_worker.Prelude.Maps.{get}
use enjambre_worker.Files.{Disk, exists, create_dir_all, join_path}
use enjambre_worker.Download.{Outcome, ok, err}
use enjambre_worker.Workspace
use enjambre_worker.Workspace.{Workspace, Item, extract_llama}
use enjambre_worker.Hardware.{HardwareInfo, build_rpc_args, build_llama_server_args}
use enjambre_worker.Client.{ModelConfig}
use enjambre_worker.Worker.{
  rpc_port, llama_port, AppState, Task, Start, ready, spawn_error, has_gpu_role, is_super_node,
  tasks, launch, launch_server,
}

-- What `CreateMutexW` gives.
pub data Mutex : Type 0 where
  null existing fresh : Mutex

unfoldable pub check_single_instance : Mutex → Option Text
check_single_instance null = some (codes "Error creando mutex de instancia única")
check_single_instance existing = some (
    codes "Ya hay una instancia de Worker Node ejecutándose.\n\n"
    ++ (codes "Revisa la bandeja del sistema (icono de Enjambre).\n"
        ++ codes "Si no funciona, usa 'taskkill /F /IM worker-node.exe'."))
check_single_instance fresh = none

-- What comes over the channel of the configuration.
pub data Config : Type 0 where
  timed_out : Config
  dropped : Config
  arrived : ModelConfig → Config

-- What the system, the network and the disk do in a run.
pub record World : Type 0 where
  pub mutex : Mutex
  pub log_dir : Text
  pub creates_log_dir : Bool
  pub appdata : Option Text
  pub creates_root : Bool
  pub archive : Option (List Item)
  pub runtime_starts : Bool
  pub config : Config
  pub rpc_starts : Bool
  pub server_starts : Bool

-- How a run comes up: with an error before any program is started, or with the start of the programs.
pub data Run : Type 0 where
  failed : Text → Disk → Run
  started : Start → Disk → Run

abbrev pub new_state : AppState
new_state = record {
  rpc_process = none;
  server_process = none;
  left_running = [];
  shutdown = false;
}

abbrev pub model_path : Text → Text → Text
model_path root name = join_path root (name ++ codes ".gguf")

module _ (w : World) (hardware : HardwareInfo) where
  unfoldable pub configured : Workspace → Config → Disk → Run
  configured ws timed_out d =
      failed (codes "Tiempo de espera agotado esperando modelo del Maestro (7200s)") d
  configured ws dropped d = failed (codes "El Maestro no envió configuración de modelo") d
  configured ws (arrived config) d =
      started
        (launch hardware (model_path ws.root config.name) w.rpc_starts w.server_starts config
          new_state)
        d

  unfoldable pub extracted : Workspace → Outcome × Disk → Run
  unfolding configured
  extracted ws (err e, d) = failed e d
  extracted ws (ok, d) =
      if w.runtime_starts then configured ws w.config d else failed (codes "Runtime::new") d

  unfoldable pub with_workspace : Option Workspace × Disk → Run
  unfolding extracted
  with_workspace (none, d) = failed (codes "Workspace::init") d
  with_workspace (some ws, d) = extracted ws (extract_llama ws w.archive d)

  unfoldable pub run_worker : Disk → Run
  unfolding with_workspace
  run_worker d =
      if w.creates_log_dir
      then with_workspace (Workspace.init w.appdata w.creates_root (create_dir_all w.log_dir d))
      else failed (codes "create_dir_all") d

  unfoldable pub run : Disk → Run
  unfolding run_worker
  run d = elim (check_single_instance w.mutex) as (λ e. Run) [
    | some e ↦ failed e d
    | none ↦ run_worker d
  ]

-- The end of a run, when the tray is left or the flag is set: with the last child the handles of the
-- job are closed.
unfoldable pub close : AppState → AppState
close s = record s { shutdown = true; rpc_process = none; server_process = none; left_running = [] }

-- No child is held or left, and the flag is set.
abbrev pub stopped : AppState
stopped = record { rpc_process = none; server_process = none; left_running = []; shutdown = true }
