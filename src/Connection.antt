-- ===== src/Connection.antt =====
-- `handle_connection` of src/master.rs: one turn of its loop for each event. A line is handled with
-- the registry to itself; Race has a registration as the single calls of the registry. The turns of
-- several connections are interleaved in Server.
pub mod Roles
pub mod Replies
pub mod Race
pub mod Stream
pub mod Succession
pub mod Invariant
use enjambre_worker.Prelude.{
  ℕ, Bool, true, false, ◌&&◌, not, List, [], ◌∷◌, ◌++◌, Option, none, some, map, find_by, leb,
  is_empty, is_some, if◌then◌else◌, unwrap_or,
}
use enjambre_worker.Prelude.Text.{Text, codes, same_text, trim, join}
use enjambre_worker.Prelude.Decimal.{to_decimal}
use enjambre_worker.Protocol.{MasterCommand, parse_line}
use enjambre_worker.Protocol
use enjambre_worker.Registry.{
  Role, consumer, super_node, gpu_provider, is_super, ModelEntry, MasterConfig, WorkerNode,
  WorkerRegistry, Reply, ok, err, get_super_node_id, set_super_node, allocate_tunnel_port,
  get_saved_worker_credit, set_super_node_cmd_tx, select_model, update_heartbeat,
  get_worker_credits, check_slave_change, get_active_workers, unregister,
}
use enjambre_worker.Registry
use enjambre_worker.Split.{calculate_tensor_split}

-- What the task of a connection keeps: its own channel, the peer, and the worker it stands for.
pub record Connection : Type 0 where
  pub cmd_tx : ℕ
  pub peer : Text
  pub this_worker_id : Option Text

-- What `select!` wakes up for: a line, the end of the stream, a read error, or a command from the
-- channel, with the error if it could not be written and the line that came back.
pub data Event : Type 0 where
  line : Text → Event
  eof : Event
  read_error : Event
  command : (cmd : Text) (write_error : Option Text) (resp : Option Text) → Event

pub data Status : Type 0 where
  running finished panicked : Status

-- A turn: the registry and the connection behind it, what was written to the worker, what was
-- answered on the channel, and whether the loop goes on.
pub record Turn (File : Type 0) : Type 0 where
  pub registry : WorkerRegistry File
  pub connection : Connection
  pub output : List Text
  pub response : Option Reply
  pub status : Status

abbrev pub super_node_vram_threshold : ℕ
super_node_vram_threshold = 6144

abbrev pub colon : Text → Text → Text
colon s t = s ++ b':' ∷ t

-- `PONG`, with the change of the slaves behind it.
unfoldable pub pong_line : ℕ → Option Text → Text
pong_line credits update =
    codes "PONG:CREDITS=" ++ (to_decimal credits ++ b'\n' ∷ unwrap_or update [])

-- The line buffer is cleared before the command is looked at, so it is empty here.
unfoldable pub unknown_line : Text → List Text
unknown_line buffer =
    if same_text (trim buffer) (codes "MODEL_READY")
    then []
    else codes "ERROR:invalid_command\n" ∷ []

module _ {File : Type 0} where
  unfoldable pub assign_role : Text → ℕ → Bool → WorkerRegistry File → WorkerRegistry File × Role
  assign_role id vram_mb has_gpu r =
      if has_gpu && leb super_node_vram_threshold vram_mb
      then if not (is_some (get_super_node_id r))
        then (set_super_node id r, super_node)
        else (r, gpu_provider)
      else (r, consumer)

  unfoldable pub assign_port : Role → WorkerRegistry File → WorkerRegistry File × ℕ
  assign_port role r = if is_super role then (r, 0) else allocate_tunnel_port r

  -- The worker goes into the table, and a super node's connection gets the commands.
  unfoldable pub enroll : Connection → WorkerNode → WorkerRegistry File → WorkerRegistry File
  enroll c node r =
      let r' = Registry.register node r in
      if is_super node.role then set_super_node_cmd_tx c.cmd_tx r' else r'

  unfoldable pub add_worker :
      Connection
      → ℕ
      → Text
      → ℕ
      → ℕ
      → ℕ
      → Bool
      → ℕ
      → WorkerRegistry File
      → WorkerRegistry File × WorkerNode
  add_worker c now id vram_mb ram_mb cpu_cores has_gpu rpc_port r =
      let (r1, role) = assign_role id vram_mb has_gpu r in
      let (r2, tunnel_port) = assign_port role r1 in
      let saved_credits = get_saved_worker_credit id r2 in
      let node : WorkerNode = record {
        id = id;
        role = role;
        addr = colon c.peer (to_decimal rpc_port);
        rpc_port = rpc_port;
        tunnel_port = tunnel_port;
        vram_mb = vram_mb;
        vram_free_mb = vram_mb;
        ram_mb = ram_mb;
        ram_free_mb = ram_mb;
        cpu_cores = cpu_cores;
        has_gpu = has_gpu;
        last_ping = now;
        credits = saved_credits;
      } in
      (enroll c node r2, node)

  -- The `INIT_MODEL` line for a new worker; none where the code panics for want of a model.
  unfoldable pub init_line : MasterConfig → WorkerNode → WorkerRegistry File → Option Text
  init_line config node r = elim node.role [
    | super_node ↦ elim (select_model config r) [
      | none ↦ none
      | some m ↦ some (
          codes "INIT_MODEL:SUPER_NODE:"
          ++ (m.name ++ b':' ∷ (m.url ++ b':' ∷ (to_decimal m.total_layers ++ b'\n' ∷ []))))
    ]
    | consumer ↦ some (codes "INIT_MODEL:CONSUMER\n")
    | gpu_provider ↦
        some (codes "INIT_MODEL:GPU_PROVIDER:" ++ (to_decimal node.tunnel_port ++ b'\n' ∷ []))
  ]

  abbrev goes_on : WorkerRegistry File → Connection → Text → Turn File
  goes_on r c out = record {
    registry = r;
    connection = c;
    output = out ∷ [];
    response = none;
    status = Status.running;
  }

  unfoldable pub greet : MasterConfig → Connection → WorkerRegistry File × WorkerNode → Turn File
  unfolding init_line
  greet config c (r, node) =
      let c' = record c { this_worker_id = some node.id } in
      elim (init_line config node r) [
        | none ↦ record {
          registry = r;
          connection = c';
          output = [];
          response = none;
          status = Status.panicked;
        }
        | some out ↦ goes_on r c' out
      ]

  unfoldable pub heartbeat : Connection → ℕ → Text → ℕ → ℕ → WorkerRegistry File → Turn File
  unfolding pong_line
  heartbeat c now id vram_free ram_free r =
      let (r1, known) = update_heartbeat id vram_free ram_free now r in
      let credits = unwrap_or (get_worker_credits id r1) 0 in
      let (r2, update) = check_slave_change r1 in
      if known
      then goes_on r2 c (pong_line credits update)
      else goes_on r1 c (codes "ERROR:worker_not_found\n")

  unfoldable pub infer_line : MasterConfig → Text → WorkerRegistry File → Text
  infer_line config model_name r =
      let workers = get_active_workers r in
      elim (find_by (λ m. same_text m.name model_name) config.models) [
        | none ↦
            codes "ERROR:model_not_available:"
            ++ (join b',' (map (λ m. m.name) config.models) ++ b'\n' ∷ [])
        | some model ↦
            let split = calculate_tensor_split model.total_layers workers in
            if is_empty workers
            then codes "ERROR:no_workers_available\n"
            else codes "RPC_CHAIN:"
              ++ (join b',' (map (λ s. s.0) split)
                  ++ b':' ∷ (join b',' (map (λ s. to_decimal s.1) split) ++ b'\n' ∷ []))
      ]

  unfoldable pub execute :
      MasterConfig → Connection → ℕ → Option MasterCommand → WorkerRegistry File → Turn File
  execute config c now none r = record {
    registry = r;
    connection = c;
    output = unknown_line [];
    response = none;
    status = Status.running;
  }
  execute config c now (some (Protocol.register id vram ram cores gpu port)) r =
      greet config c (add_worker c now id vram ram cores gpu port r)
  execute config c now (some (Protocol.ping id vram_free ram_free)) r =
      heartbeat c now id vram_free ram_free r
  execute config c now (some (Protocol.infer model_name)) r =
      goes_on r c (infer_line config model_name r)

  -- The worker of a connection that ends is unregistered.
  unfoldable pub leave : Connection → WorkerRegistry File → WorkerRegistry File
  leave c r = elim c.this_worker_id [ none ↦ r | some id ↦ unregister id r ]

  abbrev ends : Connection → Option Reply → WorkerRegistry File → Turn File
  ends c response r = record {
    registry = leave c r;
    connection = c;
    output = [];
    response = response;
    status = Status.finished;
  }

  unfoldable pub relay_command :
      Connection → Text → Option Text → Option Text → WorkerRegistry File → Turn File
  unfolding leave
  relay_command c cmd (some e) resp r =
      ends c (some (err (codes "Error enviando comando: " ++ e))) r
  relay_command c cmd none none r =
      record (ends c (some (err (codes "Conexión perdida durante cambio de modelo"))) r) {
        output = cmd ∷ [];
      }
  relay_command c cmd none (some resp) r = record (goes_on r c cmd) {
    response = some (ok (trim resp));
  }

  unfoldable pub turn : MasterConfig → Connection → ℕ → Event → WorkerRegistry File → Turn File
  unfolding execute leave relay_command
  turn config c now eof r = ends c none r
  turn config c now read_error r = ends c none r
  turn config c now (line text) r = execute config c now (parse_line (trim text)) r
  turn config c now (command cmd write_error resp) r = relay_command c cmd write_error resp r
