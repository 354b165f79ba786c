-- ===== src/Worker/Lifecycle.antt =====
-- What the monitor and the relaunches of src/main.rs keep, in any order.
use enjambre_worker.Prelude.{
  ◌≡◌, refl, false, Option, ◌⊎◌, Bool, true, List, [], ◌∷◌, ◌++◌, none, some, if◌then◌else◌, arith,
}
use enjambre_worker.Prelude.Text.{Text}
use enjambre_worker.Hardware.{HardwareInfo, build_rpc_args}
use enjambre_worker.Client.{ModelConfig}
use enjambre_worker.Worker.{
  rpc_port, AppState, Task, ready, has_gpu_role, launch, launch_server, Wait, exited,
  monitor_children, slave_update, handle_slave_updates, Happening, tick, update, watch,
}

pub watch-shutdown :
    (args : Text → List Text) (hs : List Happening) (s : AppState)
    → s.shutdown ≡ true
    → (watch args hs s).shutdown ≡ true
unfolding watch
watch-shutdown args [] s e = e
watch-shutdown args (tick rpc server ∷ hs) s e =
    watch-shutdown args hs (monitor_children rpc server s).0
      (unfold monitor_children in ground (arith, e))
watch-shutdown args (update slaves starts ∷ hs) s e =
    watch-shutdown args hs (slave_update args slaves starts s) (unfold slave_update in e)

abbrev pub held : Option (List Text) → List (List Text) → List (List Text)
held none left = left
held (some server) left = server ∷ left

-- The llama-servers that run: the one that is held, and those that are left.
abbrev pub running : AppState → List (List Text)
running s = held s.server_process s.left_running

-- Those that updates have started, the last one first, in front of those that run already.
abbrev pub all_started :
    (Text → List Text) → List (Text × Bool) → List (List Text) → List (List Text)
all_started args [] servers = servers
all_started args ((slaves, true) ∷ us) servers = all_started args us (args slaves ∷ servers)
all_started args ((slaves, false) ∷ us) servers = all_started args us servers

module _ (hardware : HardwareInfo) (model_path : Text) (args : Text → List Text) where
  pub data Step : AppState → AppState → Type 0 where
    ticks : (rpc server : Wait) (s : AppState) → Step s (monitor_children rpc server s).0
    updates :
        (slaves : Text) (starts : Bool) (s : AppState) → Step s (slave_update args slaves starts s)

  pub data Steps : AppState → AppState → Type 0 where
    done : (s : AppState) → Steps s s
    more : {s t u : AppState} → Step s t → Steps t u → Steps s u

  -- The RPC server is the one that was started, or the worker shuts down.
  abbrev pub Serves : AppState → Type 0
  Serves s = (s.rpc_process ≡ some (build_rpc_args hardware rpc_port)) ⊎ (s.shutdown ≡ true)

  Step-Serves : {s t : AppState} → Step s t → Serves s → Serves t
  unfolding monitor_children slave_update
  Step-Serves (ticks rpc server s) v = ground (arith, v)
  Step-Serves (updates slaves starts s) v = v

  Steps-Serves : {s t : AppState} → Steps s t → Serves s → Serves t
  Steps-Serves (done s) v = v
  Steps-Serves (more p q) v = Steps-Serves q (Step-Serves p v)

  launch-Serves :
      (rpc_starts server_starts : Bool) (config : ModelConfig) (s t : AppState) (ts : List Task)
      → has_gpu_role config.role ≡ true
      → launch hardware model_path rpc_starts server_starts config s ≡ ready t ts
      → Serves t
  unfolding launch launch_server
  launch-Serves rpc_starts server_starts config s t ts g e = ground (arith, g, e)

  -- A worker with a GPU that has started keeps its RPC server, with the arguments that it was
  -- started with, through any ticks of the monitor and any relaunches of llama-server, in any
  -- order, or it shuts down.
  launch-Steps :
      (rpc_starts server_starts : Bool) (config : ModelConfig) (s t u : AppState) (ts : List Task)
      → has_gpu_role config.role ≡ true
      → launch hardware model_path rpc_starts server_starts config s ≡ ready t ts
      → Steps t u
      → Serves u
  launch-Steps rpc_starts server_starts config s t u ts g e p =
      Steps-Serves p (launch-Serves rpc_starts server_starts config s t ts g e)

  watch-append :
      (hs ks : List Happening) (s : AppState)
      → watch args (hs ++ ks) s ≡ watch args ks (watch args hs s)
  unfolding watch
  watch-append [] ks s = refl
  watch-append (tick rpc server ∷ hs) ks s = watch-append hs ks (monitor_children rpc server s).0
  watch-append (update slaves starts ∷ hs) ks s =
      watch-append hs ks (slave_update args slaves starts s)

  watch-Serves : (hs : List Happening) (s : AppState) → Serves s → Serves (watch args hs s)
  unfolding watch
  watch-Serves [] s v = v
  watch-Serves (tick rpc server ∷ hs) s v =
      watch-Serves hs (monitor_children rpc server s).0 (Step-Serves (ticks rpc server s) v)
  watch-Serves (update slaves starts ∷ hs) s v =
      watch-Serves hs (slave_update args slaves starts s) (Step-Serves (updates slaves starts s) v)

  exit-shutdown :
      (server : Wait) (s : AppState)
      → Serves s
      → (monitor_children exited server s).0.shutdown ≡ true
  unfolding monitor_children
  exit-shutdown server s v = ground (arith, v)

  -- Once a tick of the monitor finds that the RPC server of a worker with a GPU has exited, the worker
  -- shuts down for good, whatever ticks and relaunches have come before and come behind.
  launch-watch :
      (rpc_starts server_starts : Bool) (config : ModelConfig) (s t : AppState) (ts : List Task)
      (before behind : List Happening) (server : Wait)
      → has_gpu_role config.role ≡ true
      → launch hardware model_path rpc_starts server_starts config s ≡ ready t ts
      → (watch args (before ++ tick exited server ∷ behind) t).shutdown ≡ true
  unfolding watch
  launch-watch rpc_starts server_starts config s t ts before behind server g e =
      let serves = launch-Serves rpc_starts server_starts config s t ts g e in
      rw (watch-append before (tick exited server ∷ behind) t) (
        watch-shutdown args behind (monitor_children exited server (watch args before t)).0
          (exit-shutdown server (watch args before t) (watch-Serves before t serves)))

module _ (hardware : HardwareInfo) (model_path : Text) (us : List (Text × Bool)) (slaves : Text)
    (starts : Bool) (s : AppState) where
  -- What updates of the slaves come to, for the arguments of a relaunch: the worker holds the
  -- llama-server of the last one, if it was started, or none, and no llama-server has been ended.
  abbrev pub Relaunched : (Text → List Text) → Type 0
  Relaunched args =
      let t = handle_slave_updates args (us ++ (slaves, starts) ∷ []) s in
      (t.server_process ≡ (if starts then some (args slaves) else none))
      × (running t ≡ all_started args (us ++ (slaves, starts) ∷ []) (running s))
