-- ===== src/Worker/Run/Ready.antt =====
-- With what a worker has come up.
use mathlib.Core.Option.{or_else}
use enjambre_worker.Prelude.{
  ◌≡◌, refl, Bool, true, false, List, Option, none, some, is_some, if◌then◌else◌, arith, Bool-cases,
  inl, inr,
}
use enjambre_worker.Prelude.Text.{Text, codes}
use enjambre_worker.Files.{Disk, exists, create_dir_all, join_path}
use enjambre_worker.Download.{Outcome, ok, err}
use enjambre_worker.Workspace
use enjambre_worker.Workspace.{Workspace, workspace_at, Item, extract_llama}
use enjambre_worker.Workspace.Laws.{wanted, extract_llama_lem}
use enjambre_worker.Hardware.{HardwareInfo, build_rpc_args, build_llama_server_args}
use enjambre_worker.Client.{ModelConfig}
use enjambre_worker.Worker.{
  rpc_port, llama_port, AppState, Task, Start, ready, has_gpu_role, is_super_node, tasks, launch,
  launch_server,
}
use enjambre_worker.Worker.Run.{
  Mutex, null, existing, fresh, check_single_instance, Config, timed_out, dropped, arrived, World,
  Run, failed, started, new_state, model_path, configured, extracted, with_workspace, run_worker,
  run,
}

-- The archive has a file of that name.
abbrev pub Ships : List Item → Text → Type 0
Ships items name = (root : Text) → is_some (wanted root (join_path root name) items) ≡ true

extract_llama-exists :
    (w : Workspace) (items : List Item) (d : Disk)
    → is_some (wanted w.root w.rpc_bin items) ≡ true
    → (extract_llama w (some items) d).0 ≡ ok
    → exists w.rpc_bin (extract_llama w (some items) d).1 ≡ true
unfolding or_else
extract_llama-exists w items d s e = elim (Bool-cases (exists w.rpc_bin d)) [
  | inl y ↦ unfold extract_llama in rw y y
  | inr n ↦ ground (arith, extract_llama_lem w items d w.rpc_bin n e, s)
]

module _ (w : World) (hardware : HardwareInfo) where
  -- The programs and the tasks of a role, and that they could be started.
  pub record Up (ws : Workspace) (config : ModelConfig) (st : AppState) (ts : List Task)
      : Type 0 where
    pub rpc_runs :
        st.rpc_process
        ≡ (if has_gpu_role config.role then some (build_rpc_args hardware rpc_port) else none)
    pub server_runs : st.server_process ≡ (
        if is_super_node config.role
        then some
            (build_llama_server_args hardware rpc_port llama_port (model_path ws.root config.name))
        else none)
    pub goes_on : st.shutdown ≡ false
    pub has_tasks : ts ≡ tasks config.role config.tunnel_port

  launch-Up :
      (ws : Workspace) (config : ModelConfig) (st : AppState) (ts : List Task)
      → launch hardware
          (model_path ws.root config.name)
          w.rpc_starts
          w.server_starts
          config
          new_state
        ≡ ready st ts
      → Up ws config st ts
  unfolding launch launch_server
  launch-Up ws config st ts e = record {
    rpc_runs = ground (arith, e);
    server_runs = ground (arith, e);
    goes_on = ground (arith, e);
    has_tasks = ground (arith, e);
  }

  configured-Up :
      (ws : Workspace) (c : Config) (d : Disk) {st : AppState} {ts : List Task} {t : Disk}
      → configured w hardware ws c d ≡ started (ready st ts) t
      → (config : ModelConfig) × (c ≡ arrived config) × (d ≡ t) × Up ws config st ts
  unfolding configured
  configured-Up ws timed_out d e = cc
  configured-Up ws dropped d e = cc
  configured-Up ws (arrived config) d {st} {ts} {t} e =
      (config, refl, ground (arith, e), launch-Up ws config st ts (ground (arith, e)))

  extracted-Up :
      (ws : Workspace) (r : Outcome × Disk) {st : AppState} {ts : List Task} {t : Disk}
      → extracted w hardware ws r ≡ started (ready st ts) t
      → (config : ModelConfig) × (w.config ≡ arrived config)
        × (r.0 ≡ ok)
        × (r.1 ≡ t)
        × Up ws config st ts
  unfolding extracted
  extracted-Up ws (err x, d) e = cc
  extracted-Up ws (ok, d) {st} {ts} {t} e = elim (Bool-cases w.runtime_starts) [
    | inl y ↦
        let (config, c, same, up) = configured-Up ws w.config d (rw y at e) in
        (config, c, refl, same, up)
    | inr n ↦ absurd (ground (arith, e, n))
  ]

  with_workspace-Up :
      (ws : Workspace) (items : List Item) (d : Disk) {st : AppState} {ts : List Task} {t : Disk}
      → w.archive ≡ some items
      → is_some (wanted ws.root ws.rpc_bin items) ≡ true
      → with_workspace w hardware (some ws, d) ≡ started (ready st ts) t
      → (config : ModelConfig) × (w.config ≡ arrived config)
        × (exists ws.rpc_bin t ≡ true)
        × Up ws config st ts
  unfolding with_workspace
  with_workspace-Up ws items d {t = t} a s e =
      let (config, c, good, same, up) = extracted-Up ws (extract_llama ws w.archive d) e in
      let extracts : (extract_llama ws (some items) d).0 ≡ ok = rw a at good in
      let leaves : (extract_llama ws (some items) d).1 ≡ t = rw a at same in
      (config, c, rw leaves at (extract_llama-exists ws items d s extracts), up)

  by_mutex :
      (m : Mutex) (d t : Disk) (s : Start)
      → elim (check_single_instance m) as (λ e. Run) [
        | some e ↦ failed e d
        | none ↦ run_worker w hardware d
      ]
        ≡ started s t
      → (m ≡ fresh) × (run_worker w hardware d ≡ started s t)
  unfolding check_single_instance
  by_mutex null d t s e = cc
  by_mutex existing d t s e = cc
  by_mutex fresh d t s e = (refl, e)

  by_appdata :
      (a : Option Text) (creates : Bool) (d t : Disk) (s : Start)
      → with_workspace w hardware (Workspace.init a creates d) ≡ started s t
      → (appdata : Text) × (a ≡ some appdata)
        × (with_workspace w hardware (
          some (workspace_at (join_path appdata (codes "Enjambre"))),
          create_dir_all (join_path appdata (codes "Enjambre")) d,
        )
            ≡ started s t)
  unfolding with_workspace Workspace.init
  by_appdata none creates d t s e = cc
  by_appdata (some appdata) true d t s e = (appdata, refl, e)
  by_appdata (some appdata) false d t s e = cc

  -- A run that comes up, of a program whose archive has the RPC server, is the only instance and has
  -- got its configuration; the program of the RPC server lies in its workspace; and by its role it
  -- runs the RPC server and llama-server, with the model of the configuration, and has its tasks.
  pub run-Up :
      (items : List Item) (d : Disk) (st : AppState) (ts : List Task) (t : Disk)
      → w.archive ≡ some items
      → Ships items (codes "ggml-rpc-server.exe")
      → run w hardware d ≡ started (ready st ts) t
      → (appdata : Text) × (config : ModelConfig) × (w.mutex ≡ fresh)
        × (w.appdata ≡ some appdata)
        × (w.config ≡ arrived config)
        × (exists (join_path (join_path appdata (codes "Enjambre")) (codes "ggml-rpc-server.exe")) t
            ≡ true)
        × Up (workspace_at (join_path appdata (codes "Enjambre"))) config st ts
  unfolding run run_worker
  run-Up items d st ts t a s e =
      let (only, worker) = by_mutex w.mutex d t (ready st ts) e in
      elim (Bool-cases w.creates_log_dir) [
        | inl y ↦
            let after = create_dir_all w.log_dir d in
            let (appdata, env, rest) =
              by_appdata w.appdata w.creates_root after t (ready st ts) (rw y at worker) in
            let ws = workspace_at (join_path appdata (codes "Enjambre")) in
            let (config, c, there, up) =
              with_workspace-Up ws items
                (create_dir_all (join_path appdata (codes "Enjambre")) after) a
                (unfold workspace_at in s (join_path appdata (codes "Enjambre"))) rest in
            (appdata, config, only, env, c, (unfold workspace_at in there), up)
        | inr n ↦ absurd (ground (arith, worker, n))
      ]
