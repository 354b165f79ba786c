-- ===== src/Connection/Roles.antt =====
-- Which role and port a worker gets when it registers.
use enjambre_worker.Prelude.{
  ℕ, ◌≡◌, ◌≢◌, Bool, ◌&&◌, Option, some, arith, is_some, if◌then◌else◌, leb, ◌∙◌, ap,
}
use enjambre_worker.Prelude.Text.{Text}
use enjambre_worker.Prelude.Maps.{get, get-insert_self, get-insert_ne}
use enjambre_worker.Registry.{
  Role, consumer, super_node, gpu_provider, is_super, WorkerNode, WorkerRegistry, register,
  set_super_node, set_super_node_cmd_tx, allocate_tunnel_port,
}
use enjambre_worker.Connection.{
  Connection, assign_role, assign_port, add_worker, enroll, super_node_vram_threshold,
}

-- The role by what the worker has and whether the registry names a super node.
abbrev pub role_of : ℕ → Bool → Option Text → Role
role_of vram_mb has_gpu sn =
    if has_gpu && leb super_node_vram_threshold vram_mb
    then (if is_some sn then gpu_provider else super_node)
    else consumer

module _ {File : Type 0} where
  enroll_lem :
      (c : Connection) (node : WorkerNode) (r : WorkerRegistry File)
      → let r' = enroll c node r in
        (get node.id r'.workers ≡ some node)
        × ((j : Text) → node.id ≢ j → get j r'.workers ≡ get j r.workers)
        × (r'.super_node_id ≡ r.super_node_id)
        × (r'.super_node_cmd_tx
            ≡ (if is_super node.role then some c.cmd_tx else r.super_node_cmd_tx))
  unfolding enroll register set_super_node_cmd_tx
  enroll_lem c node r = (
    ground (arith, get-insert_self node.id node r.workers),
    λ j n. ground (arith, get-insert_ne node.id j node r.workers n),
    ground arith,
    ground arith,
  )

  assign_role_lem :
      (id : Text) (vram : ℕ) (gpu : Bool) (r : WorkerRegistry File)
      → let (r', role) = assign_role id vram gpu r in
        (role ≡ role_of vram gpu r.super_node_id)
        × (r'.super_node_id ≡ (if is_super role then some id else r.super_node_id))
        × (r'.super_node_cmd_tx ≡ r.super_node_cmd_tx)
        × (r'.workers ≡ r.workers)
        × (r'.tunnel_port_allocator ≡ r.tunnel_port_allocator)
  unfolding assign_role set_super_node
  assign_role_lem id vram gpu r = ground arith

  assign_port_lem :
      (role : Role) (r : WorkerRegistry File)
      → let (r', port) = assign_port role r in
        (port ≡ (if is_super role then 0 else r.tunnel_port_allocator))
        × (r'.super_node_id ≡ r.super_node_id)
        × (r'.super_node_cmd_tx ≡ r.super_node_cmd_tx)
        × (r'.workers ≡ r.workers)
  unfolding assign_port allocate_tunnel_port
  assign_port_lem role r = ground arith

  -- A worker that registers is found under its id afterwards and every other worker stays as it
  -- was. It is a super node exactly if it has a GPU with 6144 MB or more and no super node is
  -- named, and then it becomes the one named, its connection gets the commands, and it takes no
  -- tunnel port; a GPU provider if one is named; a consumer without such a GPU. In those two cases
  -- the super node and the commands stay, and the port is the next one of the registry.
  pub add_worker_lem :
      (c : Connection) (now : ℕ) (id : Text) (vram ram cores : ℕ) (gpu : Bool) (port : ℕ)
      (r : WorkerRegistry File)
      → let (r', node) = add_worker c now id vram ram cores gpu port r in
        (get id r'.workers ≡ some node)
        × ((j : Text) → id ≢ j → get j r'.workers ≡ get j r.workers)
        × (node.role ≡ role_of vram gpu r.super_node_id)
        × (r'.super_node_id ≡ (if is_super node.role then some id else r.super_node_id))
        × (r'.super_node_cmd_tx
            ≡ (if is_super node.role then some c.cmd_tx else r.super_node_cmd_tx))
        × (node.tunnel_port ≡ (if is_super node.role then 0 else r.tunnel_port_allocator))
  add_worker_lem c now id vram ram cores gpu port r =
      let (r1, role) = assign_role id vram gpu r in
      let (r2, tunnel) = assign_port role r1 in
      let a = assign_role_lem id vram gpu r in
      let b = assign_port_lem role r1 in
      let e = enroll_lem c (add_worker c now id vram ram cores gpu port r).1 r2 in
      unfold add_worker in
      (
        e.0,
        λ j n. e.1 j n ∙ ap (get j) (b.3 ∙ a.3),
        a.0,
        e.2 ∙ b.1 ∙ a.1,
        ground (arith, e.3, b.2, a.2),
        ground (arith, b.0, a.4),
      )
