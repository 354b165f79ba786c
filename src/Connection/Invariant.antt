-- ===== src/Connection/Invariant.antt =====
-- A connection keeps the registry valid, whatever it reads.
use mathlib.Core.Path.{subst, sym}
use enjambre_worker.Prelude.{
  ℕ, ◌≡◌, Bool, true, Option, none, some, arith, Bool-cases, inl, inr, Option-cases, ◌∙◌,
}
use enjambre_worker.Prelude.Text.{Text, trim}
use enjambre_worker.Protocol.{MasterCommand, parse_line}
use enjambre_worker.Protocol
use enjambre_worker.Registry.{
  Role, is_super, MasterConfig, WorkerNode, WorkerRegistry, set_super_node, update_heartbeat,
  register, allocate_tunnel_port,
}
use enjambre_worker.Registry.Invariant.{
  IsValid, register-IsValid, unregister-IsValid, set_super_node-IsValid,
  allocate_tunnel_port-IsValid, set_super_node_cmd_tx-IsValid, update_heartbeat-IsValid,
  check_slave_change-IsValid,
}
use enjambre_worker.Connection.{
  Connection, Event, line, eof, read_error, command, assign_role, assign_port, add_worker, greet,
  heartbeat, execute, leave, relay_command, turn, enroll,
}

module _ {File : Type 0} where
  assign_role-IsValid :
      (id : Text) (vram : ℕ) (gpu : Bool) (r : WorkerRegistry File)
      → IsValid r
      → IsValid (assign_role id vram gpu r).0
  unfolding assign_role
  assign_role-IsValid id vram gpu r v = ground (arith, v, set_super_node-IsValid id r)

  assign_role-super :
      (id : Text) (vram : ℕ) (gpu : Bool) (r : WorkerRegistry File)
      → let (r', role) = assign_role id vram gpu r in
        is_super role ≡ true → r'.super_node_id ≡ some id
  unfolding assign_role set_super_node
  assign_role-super id vram gpu r h = ground arith

  assign_port-IsValid :
      (role : Role) (r : WorkerRegistry File) → IsValid r → IsValid (assign_port role r).0
  unfolding assign_port
  assign_port-IsValid role r v = ground (arith, v, allocate_tunnel_port-IsValid r v)

  assign_port-super :
      (role : Role) (r : WorkerRegistry File)
      → (assign_port role r).0.super_node_id ≡ r.super_node_id
  unfolding assign_port allocate_tunnel_port
  assign_port-super role r = ground arith

  enroll-IsValid :
      (c : Connection) (node : WorkerNode) (r : WorkerRegistry File)
      → (is_super node.role ≡ true → r.super_node_id ≡ some node.id)
      → IsValid r
      → IsValid (enroll c node r)
  unfolding enroll
  enroll-IsValid c node r h v = elim (Bool-cases (is_super node.role)) [
    | inl super ↦
        rw (super, enroll)
          (set_super_node_cmd_tx-IsValid c.cmd_tx (register node r)
            (unfold register in ground (arith, h super)) (register-IsValid node r h v))
    | inr other ↦ rw (other, enroll) (register-IsValid node r h v)
  ]

  add_worker-IsValid :
      (c : Connection) (now : ℕ) (id : Text) (vram ram cores : ℕ) (gpu : Bool) (port : ℕ)
      (r : WorkerRegistry File)
      → IsValid r
      → IsValid (add_worker c now id vram ram cores gpu port r).0
  unfolding add_worker
  add_worker-IsValid c now id vram ram cores gpu port r v =
      let (r1, role) = assign_role id vram gpu r in
      enroll-IsValid c _ (assign_port role r1).0
        (λ h. assign_port-super role r1 ∙ assign_role-super id vram gpu r h)
        (assign_port-IsValid role r1 (assign_role-IsValid id vram gpu r v))

  greet-registry :
      (config : MasterConfig) (c : Connection) (p : WorkerRegistry File × WorkerNode)
      → (greet config c p).registry ≡ p.0
  unfolding greet
  greet-registry config c (r, node) = ground arith

  heartbeat-IsValid :
      (c : Connection) (now : ℕ) (id : Text) (vram ram : ℕ) (r : WorkerRegistry File)
      → IsValid r
      → IsValid (heartbeat c now id vram ram r).registry
  unfolding heartbeat
  heartbeat-IsValid c now id vram ram r v =
      let r1 = (update_heartbeat id vram ram now r).0 in
      let v1 = update_heartbeat-IsValid id vram ram now r v in
      ground (arith, v1, check_slave_change-IsValid r1 v1)

  execute-IsValid :
      (config : MasterConfig) (c : Connection) (now : ℕ) (cmd : Option MasterCommand)
      (r : WorkerRegistry File)
      → IsValid r
      → IsValid (execute config c now cmd r).registry
  unfolding execute
  execute-IsValid config c now none r v = v
  execute-IsValid config c now (some (Protocol.register id vram ram cores gpu port)) r v =
      let p = add_worker c now id vram ram cores gpu port r in
      subst IsValid (sym (greet-registry config c p))
        (add_worker-IsValid c now id vram ram cores gpu port r v)
  execute-IsValid config c now (some (Protocol.ping id vram ram)) r v =
      heartbeat-IsValid c now id vram ram r v
  execute-IsValid config c now (some (Protocol.infer name)) r v = v

  leave-IsValid : (c : Connection) (r : WorkerRegistry File) → IsValid r → IsValid (leave c r)
  unfolding leave
  leave-IsValid c r v = elim (Option-cases c.this_worker_id) [
    | inl e ↦ rw (e, leave) v
    | inr (id, e) ↦ rw (e, leave) (unregister-IsValid id r v)
  ]

  relay_command-IsValid :
      (c : Connection) (cmd : Text) (error resp : Option Text) (r : WorkerRegistry File)
      → IsValid r
      → IsValid (relay_command c cmd error resp r).registry
  unfolding relay_command
  relay_command-IsValid c cmd (some e) resp r v = leave-IsValid c r v
  relay_command-IsValid c cmd none none r v = leave-IsValid c r v
  relay_command-IsValid c cmd none (some resp) r v = v

  -- Whatever a connection reads, its turn keeps the registry valid: each worker stands under its
  -- own id, once; a super node is the worker that the registry names; the next port is one of the
  -- tunnel ports; there is a channel for commands only while a super node is named.
  pub turn-IsValid :
      (config : MasterConfig) (c : Connection) (now : ℕ) (e : Event) (r : WorkerRegistry File)
      → IsValid r
      → IsValid (turn config c now e r).registry
  unfolding turn
  turn-IsValid config c now eof r v = leave-IsValid c r v
  turn-IsValid config c now read_error r v = leave-IsValid c r v
  turn-IsValid config c now (line text) r v =
      execute-IsValid config c now (parse_line (trim text)) r v
  turn-IsValid config c now (command cmd error resp) r v =
      relay_command-IsValid c cmd error resp r v
