-- ===== src/Tests/Run.antt =====
-- A run of the worker, and the desktop application's window and tray.
use mathlib.Core.Option.{or_else}
use enjambre_worker.Prelude.{
  not, ◌||◌, ◌≡◌, refl, true, false, List, [], ◌∷◌, ◌++◌, none, some, arith, any, if◌then◌else◌,
}
use enjambre_worker.Prelude.Text.{Text, codes, same_text, same_text_refl}
use enjambre_worker.Prelude.Maps.{get, insert}
use enjambre_worker.Files.{Disk, exists, join_path, has_dot_dot, parent}
use enjambre_worker.Workspace
use enjambre_worker.Workspace.{
  Item, item, workspace_at, extract_llama, extract_all, extract_entry, extract_file, extract_dir,
}
use enjambre_worker.Client.{ModelConfig, gpu_provider}
use enjambre_worker.Hardware.{HardwareInfo, build_rpc_args}
use enjambre_worker.Worker.{
  AppState, ready, rpc_port, launch, tasks, Happening, tick, update, exited, alive,
  desktop_relaunch_args,
}
use enjambre_worker.Desktop.{App}
use enjambre_worker.Desktop.Background
use enjambre_worker.Desktop.Background.{start_worker_background, ended}
use enjambre_worker.Desktop.Background.Ending.{is_waiting, run_worker-ended}
use enjambre_worker.Tray.{other, command, id_exit, is_exit}
use enjambre_worker.Worker.Run.Ending.{leave_tray, leave_tray_lem}
use enjambre_worker.Worker.Run
use enjambre_worker.Worker.Run.{
  World, arrived, started, run, run_worker, with_workspace, extracted, configured,
  check_single_instance, model_path, stopped,
}
use enjambre_worker.Worker.Run.Ready.{run-Up, Ships, Up}

abbrev machine : HardwareInfo
machine = record {
  has_nvidia_gpu = true;
  nvidia_gpu_name = none;
  vram_mib = some 8192;
  cpu_cores = 8;
  used_threads = 4;
}

abbrev engine : List Item
engine =
    item (record { name = codes "ggml-rpc-server.exe"; is_dir = false; bytes = codes "rpc" })
      Workspace.done
    ∷ []

abbrev provider : ModelConfig
provider = record {
  role = gpu_provider;
  name = [];
  url = [];
  total_layers = 0;
  tunnel_port = 18000;
  worker_id = codes "host-01";
}

abbrev world : World
world = record {
  mutex = Run.fresh;
  log_dir = codes "C:\\logs";
  creates_log_dir = true;
  appdata = some (codes "C:\\Users\\ana");
  creates_root = true;
  archive = some engine;
  runtime_starts = true;
  config = arrived provider;
  rpc_starts = true;
  server_starts = true;
}

abbrev bare : Disk
bare = record { files = []; dirs = [] }

abbrev after : Disk
after = record {
  files = (codes "C:\\Users\\ana\\Enjambre\\ggml-rpc-server.exe", codes "rpc") ∷ [];
  dirs =
      codes "C:\\Users\\ana\\Enjambre" ∷ codes "C:\\Users\\ana\\Enjambre" ∷ codes "C:\\logs" ∷ [];
}

engine-Ships : Ships engine (codes "ggml-rpc-server.exe")
unfolding has_dot_dot or_else
engine-Ships root = ground (arith, same_text_refl (join_path root (codes "ggml-rpc-server.exe")))

abbrev relaunch : Text → List Text
relaunch = desktop_relaunch_args machine (codes "m.gguf")

abbrev hidden : App
hidden = record { visible = false; x = 0; y = 0; exited = false }

abbrev calm : List Happening
calm = tick alive alive ∷ update (codes "a:1") true ∷ []

abbrev state : AppState
state = record {
  rpc_process = some (build_rpc_args machine rpc_port);
  server_process = none;
  left_running = [];
  shutdown = false;
}

comes_up : run world machine bare ≡ started (ready state (tasks gpu_provider 18000)) after
unfolding run run_worker check_single_instance with_workspace Workspace.init extract_llama get
    same_text insert has_dot_dot parent extracted configured launch tasks
comes_up = refl

run-Up_example :
    (appdata : Text) × (config : ModelConfig) × (world.mutex ≡ Run.fresh)
    × (world.appdata ≡ some appdata)
    × (world.config ≡ arrived config)
    × (exists (join_path (join_path appdata (codes "Enjambre")) (codes "ggml-rpc-server.exe")) after
        ≡ true)
    × Up world machine
        (workspace_at (join_path appdata (codes "Enjambre")))
        config
        state
        (tasks gpu_provider 18000)
run-Up_example =
    run-Up world machine engine bare state (tasks gpu_provider 18000) after refl engine-Ships
      comes_up

runs : run_worker world machine bare ≡ started (ready state (tasks gpu_provider 18000)) after
unfolding run run_worker check_single_instance with_workspace Workspace.init extract_llama get
    same_text insert has_dot_dot parent extracted configured launch tasks
runs = refl

-- The RPC server exits in the second round.
run_worker-ended_example :
    let end =
      Background.run_worker world machine bare relaunch
        ((calm ∷ []) ++ ([] ++ tick exited alive ∷ []) ∷ []) in
    let still = Background.run_worker world machine bare relaunch (calm ∷ calm ∷ []) in
    (end ≡ ended stopped)
    × (is_waiting still ≡ true)
    × (start_worker_background end hidden ≡ hidden)
    × (start_worker_background still hidden ≡ hidden)
run_worker-ended_example =
    run_worker-ended relaunch world machine bare after state (tasks gpu_provider 18000) (calm ∷ [])
      [] (calm ∷ calm ∷ []) [] [] alive hidden runs refl refl
      (((refl, refl), (tt, tt)), (((refl, refl), (tt, tt)), tt))

leave_tray_lem_example :
    leave_tray true true
      (other ∷ command id_exit ∷ [])
      (record { panel = false; should_exit = false; over = false })
      state
    ≡ (if not true || any is_exit (other ∷ command id_exit ∷ []) then some stopped else none)
leave_tray_lem_example = leave_tray_lem true true (other ∷ command id_exit ∷ []) false false state
