-- ===== src/Client/Registration.antt =====
-- A registration from end to end: the worker's line, the master's turn, the worker's reading.
use enjambre_worker.Prelude.{
  ℕ, ◌<◌, ◌≡◌, refl, ap, ◌∙◌, Bool, [], ◌∷◌, List, none, some, arith, u16_mod, u32_mod, u64_mod,
}
use enjambre_worker.Prelude.Text.{Text, trim, Lacks}
use enjambre_worker.Prelude.Text.Trim.{trim_twice}
use enjambre_worker.Protocol.{register, parse_line}
use enjambre_worker.Registry.{MasterConfig, ModelEntry, WorkerNode, WorkerRegistry, select_model}
use enjambre_worker.Registry.Ports.{IsPort}
use enjambre_worker.Connection.{
  Connection, line, Status, add_worker, greet, init_line, execute, turn,
}
use enjambre_worker.Connection.Roles.{add_worker_lem}
use enjambre_worker.Client.{parse_init}
use enjambre_worker.Client.Lines.{register_line}
use enjambre_worker.Client.RoundTrip.{parse_line-register_line}
use enjambre_worker.Client.Greeting.{config_of, parse_init-init_line}

parse_line-trim : (s : Text) → parse_line (trim s) ≡ parse_line s
unfolding parse_line
parse_line-trim s = rw (trim_twice s) refl

module _ {File : Type 0} where
  select_model_lem :
      (config : MasterConfig) (m : ModelEntry) (ms : List ModelEntry) (r : WorkerRegistry File)
      → config.models ≡ m ∷ ms
      → select_model config r ≡ some m
  unfolding select_model
  select_model_lem config m ms r e = ground (arith, e)

  greet_lem :
      (config : MasterConfig) (c : Connection) (r : WorkerRegistry File) (node : WorkerNode)
      (l : Text)
      → init_line config node r ≡ some l
      → greet config c (r, node) ≡ record {
        registry = r;
        connection = record c { this_worker_id = some node.id };
        output = l ∷ [];
        response = none;
        status = Status.running;
      }
  unfolding greet
  greet_lem config c r node l i = rw (i, greet) refl

  turn_greets :
      (config : MasterConfig) (c : Connection) (now : ℕ) (id text : Text) (vram ram cores : ℕ)
      (gpu : Bool) (port : ℕ) (r : WorkerRegistry File)
      → parse_line (trim text) ≡ some (register id vram ram cores gpu port)
      → turn config c now (line text) r
        ≡ greet config c (add_worker c now id vram ram cores gpu port r)
  unfolding turn execute
  turn_greets config c now id text vram ram cores gpu port r e = rw e refl

  add_worker-id :
      (c : Connection) (now : ℕ) (id : Text) (vram ram cores : ℕ) (gpu : Bool) (port : ℕ)
      (r : WorkerRegistry File)
      → (add_worker c now id vram ram cores gpu port r).1.id ≡ id
  unfolding add_worker
  add_worker-id c now id vram ram cores gpu port r = refl

  -- A worker that sends its registration, with an id without a colon and numbers that fit their
  -- types, to a master that has a model whose name has no colon and whose layers fit 32 bits, with
  -- an allocator in the range of its ports: the master enters it into the
  -- table, keeps its id for the connection, goes on, and answers with one line, which the worker
  -- reads as the role and the tunnel port that the table has for it, and as the first model where
  -- it is the super node.
  pub turn-register_line :
      (config : MasterConfig) (c : Connection) (now : ℕ) (id : Text) (vram ram cores : ℕ)
      (gpu : Bool) (port : ℕ) (r : WorkerRegistry File) (m : ModelEntry) (ms : List ModelEntry)
      → Lacks b':' id
      → vram < u64_mod
      → ram < u64_mod
      → cores < u64_mod
      → port < u16_mod
      → config.models ≡ m ∷ ms
      → Lacks b':' m.name
      → m.total_layers < u32_mod
      → IsPort r.tunnel_port_allocator
      → let t = turn config c now (line (register_line id vram ram cores gpu port)) r in
        let (r', node) = add_worker c now id vram ram cores gpu port r in
        (l : Text) × (t ≡ record {
          registry = r';
          connection = record c { this_worker_id = some id };
          output = l ∷ [];
          response = none;
          status = Status.running;
        })
        × (parse_init id l ≡ some (config_of id node.role node.tunnel_port m))
  turn-register_line config c now id vram ram cores gpu port r m ms h hv hr hc hp e hn hl p =
      let parsed =
        parse_line-trim (register_line id vram ram cores gpu port)
        ∙ parse_line-register_line id vram ram cores gpu port h hv hr hc hp in
      let w = add_worker_lem c now id vram ram cores gpu port r in
      let (r', node) = add_worker c now id vram ram cores gpu port r in
      let (l, i, q) =
        parse_init-init_line id config node r' m (select_model_lem config m ms r' e) hn hl
          (ground (arith, w, p)) in
      (
        l,
        turn_greets config c now id (register_line id vram ram cores gpu port) vram ram cores gpu
              port r parsed
            ∙ greet_lem config c r' node l i
            ∙ ap
                (λ x. record {
                  registry = r';
                  connection = record c { this_worker_id = some x };
                  output = l ∷ [];
                  response = none;
                  status = Status.running;
                })
                (add_worker-id c now id vram ram cores gpu port r),
        q,
      )
