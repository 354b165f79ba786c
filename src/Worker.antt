-- ===== src/Worker.antt =====
-- The worker's main program, src/main.rs, and that of the desktop application,
-- src-tauri/src/main.rs, which starts and watches the same programs in the same way: the programs and
-- tasks that it starts by its role, the monitor of its children, and the relaunch of llama-server when
-- the master reports other slaves. A child process is what it was
-- started with.
pub mod Lifecycle
pub mod Run
use enjambre_worker.Prelude.{
  ℕ, ◌+◌, ◌<◌, ◌≡◌, refl, ◌⊎◌, inl, inr, Bool, true, false, ◌&&◌, List, [], ◌∷◌, ◌++◌, Option, none,
  some, is_empty, is_some, ltb, if◌then◌else◌, arith, Option-cases, Bool-cases,
}
use enjambre_worker.Prelude.Text.{Text, codes}
use enjambre_worker.Prelude.Decimal.{to_decimal}
use enjambre_worker.Hardware.{HardwareInfo, build_rpc_args, build_llama_server_args}
use enjambre_worker.Client.{WorkerRole, consumer, super_node, gpu_provider, ModelConfig}

abbrev pub rpc_port : ℕ
rpc_port = 8090

abbrev pub llama_port : ℕ
llama_port = 8081

abbrev oracle_addr : Text
oracle_addr = codes "159.54.175.236:7000"

abbrev master_host : Text
master_host = codes "159.54.175.236"

-- The children that the worker holds, each with the arguments that it was started with, and those
-- that it has dropped without the drop ending them: all children are in one job, whose processes Windows
-- ends with its last handle, so that a drop ends nothing while another child is held
-- (Process.Jobs).
pub record AppState : Type 0 where
  pub rpc_process : Option (List Text)
  pub server_process : Option (List Text)
  pub left_running : List (List Text)
  pub shutdown : Bool

pub data Task : Type 0 where
  monitor : Task
  slave_updates : Task
  tunnel : (server_addr local_addr : Text) → Task

-- The start ends with the tasks, or with the program that could not be started.
pub data Start : Type 0 where
  ready : AppState → List Task → Start
  spawn_error : AppState → Text → Start

abbrev local : ℕ → Text
local port = codes "127.0.0.1:" ++ to_decimal port

abbrev pub has_gpu_role : WorkerRole → Bool
has_gpu_role consumer = false
has_gpu_role _ = true

abbrev pub is_super_node : WorkerRole → Bool
is_super_node super_node = true
is_super_node _ = false

-- The tasks in the order in which they are spawned.
unfoldable pub tasks : WorkerRole → ℕ → List Task
tasks consumer tunnel_port = []
tasks super_node tunnel_port = monitor ∷ slave_updates ∷ tunnel oracle_addr (local llama_port) ∷ []
tasks gpu_provider tunnel_port =
    monitor
    ∷ (if ltb 0 tunnel_port
        then tunnel (master_host ++ b':' ∷ to_decimal tunnel_port) (local rpc_port) ∷ []
        else [])

-- `rpc_starts` and `server_starts` are what comes of the two spawns.
unfoldable pub launch_server : HardwareInfo → Text → Bool → ModelConfig → AppState → Start
unfolding tasks
launch_server hardware model_path server_starts config state =
    let with_server = record state {
      server_process = some (build_llama_server_args hardware rpc_port llama_port model_path);
    } in
    if is_super_node config.role
    then (if server_starts
        then ready with_server (tasks config.role config.tunnel_port)
        else spawn_error state (codes "llama-server"))
    else ready state (tasks config.role config.tunnel_port)

unfoldable pub launch : HardwareInfo → Text → Bool → Bool → ModelConfig → AppState → Start
unfolding launch_server
launch hardware model_path rpc_starts server_starts config state =
    let with_rpc = record state { rpc_process = some (build_rpc_args hardware rpc_port) } in
    if has_gpu_role config.role
    then (if rpc_starts
        then launch_server hardware model_path server_starts config with_rpc
        else spawn_error state (codes "ggml-rpc-server"))
    else launch_server hardware model_path server_starts config state

-- What `try_wait` gives.
pub data Wait : Type 0 where
  exited : Wait
  alive : Wait
  wait_error : Wait

abbrev pub has_exited : Wait → Bool
has_exited exited = true
has_exited _ = false

abbrev check_server : Wait → AppState → AppState × Bool
check_server w s =
    if is_some s.server_process && has_exited w
    then (
      record s {
        server_process = none;
        left_running = if is_some s.rpc_process then s.left_running else [];
        shutdown = true;
      },
      false,
    )
    else (s, true)

-- One tick of `monitor_children`, and whether its loop goes on.
unfoldable pub monitor_children : Wait → Wait → AppState → AppState × Bool
monitor_children rpc server s =
    if s.shutdown
    then (s, false)
    else if is_some s.rpc_process && has_exited rpc
    then (
      record s {
        rpc_process = none;
        left_running = if is_some s.server_process then s.left_running else [];
        shutdown = true;
      },
      false,
    )
    else check_server server s

abbrev pub chain : Text → Text
chain slaves = if is_empty slaves then local rpc_port else local rpc_port ++ b',' ∷ slaves

-- The arguments of the relaunch.
unfoldable pub relaunch_args : HardwareInfo → Text → Text → List Text
relaunch_args hardware model_path slaves =
    codes "--rpc"
    ∷ chain slaves
    ∷ codes "-m"
    ∷ model_path
    ∷ codes "--host"
    ∷ codes "0.0.0.0"
    ∷ codes "--port"
    ∷ to_decimal llama_port
    ∷ codes "--threads"
    ∷ to_decimal hardware.used_threads
    ∷ []

-- The relaunch of the desktop application gives the arguments of the first start as well.
unfoldable pub desktop_relaunch_args : HardwareInfo → Text → Text → List Text
unfolding relaunch_args
desktop_relaunch_args hardware model_path slaves =
    relaunch_args hardware model_path slaves
    ++ codes "-ngl"
      ∷ codes "999"
      ∷ codes "--parallel"
      ∷ codes "2"
      ∷ codes "--cont-batching"
      ∷ codes "--no-kv-offload"
      ∷ []

-- What is left behind `drop(guard.take())` of the old llama-server, if there is one: it ends only if
-- the RPC server is not held, and then those that were left are ended with it.
unfoldable pub left_behind :
    Option (List Text) → Option (List Text) → List (List Text) → List (List Text)
left_behind rpc none left = left
left_behind none (some old) left = []
left_behind (some rpc) (some old) left = old ∷ left

-- One message on the channel, and whether the relaunch succeeds; `args` are those for the slaves,
-- `relaunch_args` in src/main.rs and `desktop_relaunch_args` in src-tauri/src/main.rs.
unfoldable pub slave_update : (Text → List Text) → Text → Bool → AppState → AppState
unfolding left_behind
slave_update args slaves starts s = record s {
  server_process = if starts then some (args slaves) else none;
  left_running = left_behind s.rpc_process s.server_process s.left_running;
}

unfoldable pub handle_slave_updates : (Text → List Text) → List (Text × Bool) → AppState → AppState
unfolding slave_update
handle_slave_updates args [] s = s
handle_slave_updates args ((slaves, starts) ∷ us) s =
    handle_slave_updates args us (slave_update args slaves starts s)

-- A tick of the monitor, with what its children give, or a message with other slaves.
pub data Happening : Type 0 where
  tick : (rpc server : Wait) → Happening
  update : (slaves : Text) (starts : Bool) → Happening

-- The state after the happenings. The monitor ends its loop with the flag set, so that a tick behind
-- that changes nothing.
unfoldable pub watch : (Text → List Text) → List Happening → AppState → AppState
unfolding monitor_children slave_update
watch args [] s = s
watch args (tick rpc server ∷ hs) s = watch args hs (monitor_children rpc server s).0
watch args (update slaves starts ∷ hs) s = watch args hs (slave_update args slaves starts s)
