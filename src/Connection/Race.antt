-- ===== src/Connection/Race.antt =====
-- The registration of a worker as the calls of the registry that it is made of, each of which takes
-- the lock for itself, and what two registrations at once can do.
pub mod Turns
use enjambre_worker.Prelude.{
  ℕ, zero, suc, ◌≡◌, ◌≢◌, refl, sym, ◌∙◌, Bool, true, false, not, ◌&&◌, List, [], ◌∷◌, none, some,
  is_some, leb, if◌then◌else◌, arith, Bool-cases, inl, inr,
}
use enjambre_worker.Prelude.Text.{Text}
use enjambre_worker.Prelude.Decimal.{to_decimal}
use enjambre_worker.Prelude.Maps.{get, get-insert_self, get-insert_ne}
use enjambre_worker.Registry.{
  Role, consumer, super_node, gpu_provider, is_super, WorkerNode, WorkerRegistry, get_super_node_id,
  register, set_super_node, set_super_node_cmd_tx, allocate_tunnel_port, get_saved_worker_credit,
}
use enjambre_worker.Registry.Invariant.{IsValid, one_super_node}
use enjambre_worker.Connection.{
  Connection, assign_role, assign_port, add_worker, enroll, super_node_vram_threshold, colon,
}

-- What a REGISTER line brings, with its connection and the time.
pub record Registration : Type 0 where
  pub connection : Connection
  pub now : ℕ
  pub id : Text
  pub vram_mb : ℕ
  pub ram_mb : ℕ
  pub cpu_cores : ℕ
  pub has_gpu : Bool
  pub rpc_port : ℕ

-- Between the calls: what the registry has answered so far.
pub data Progress : Type 0 where
  begun : Progress
  asked : (is_none : Bool) → Progress
  with_role : Role → Progress
  with_port : Role → ℕ → Progress
  registered : WorkerNode → Progress
  finished : WorkerNode → Progress

abbrev pub is_fit : Registration → Bool
is_fit x = x.has_gpu && leb super_node_vram_threshold x.vram_mb

abbrev pub node_of : Registration → Role → ℕ → ℕ → WorkerNode
node_of x role tunnel_port saved_credits = record {
  id = x.id;
  role = role;
  addr = colon x.connection.peer (to_decimal x.rpc_port);
  rpc_port = x.rpc_port;
  tunnel_port = tunnel_port;
  vram_mb = x.vram_mb;
  vram_free_mb = x.vram_mb;
  ram_mb = x.ram_mb;
  ram_free_mb = x.ram_mb;
  cpu_cores = x.cpu_cores;
  has_gpu = x.has_gpu;
  last_ping = x.now;
  credits = saved_credits;
}

-- Two registrations at once.
pub record Both (File : Type 0) : Type 0 where
  pub registry : WorkerRegistry File
  pub first : Progress
  pub second : Progress

module _ {File : Type 0} where
  -- The next call.
  unfoldable pub call :
      Registration → Progress → WorkerRegistry File → Progress × WorkerRegistry File
  call x begun r =
      if is_fit x then (asked (not (is_some (get_super_node_id r))), r) else (with_role consumer, r)
  call x (asked true) r = (with_role super_node, set_super_node x.id r)
  call x (asked false) r = (with_role gpu_provider, r)
  call x (with_role role) r = let (r', port) = assign_port role r in (with_port role port, r')
  call x (with_port role port) r =
      let node = node_of x role port (get_saved_worker_credit x.id r) in
      (registered node, register node r)
  call x (registered node) r =
      (finished node, if is_super node.role then set_super_node_cmd_tx x.connection.cmd_tx r else r)
  call x (finished node) r = (finished node, r)

  -- A number of calls of one registration.
  unfoldable pub calls :
      ℕ → Registration → Progress × WorkerRegistry File → Progress × WorkerRegistry File
  unfolding call
  calls zero x (p, r) = (p, r)
  calls (suc n) x (p, r) = calls n x (call x p r)

  -- Without another registration between its calls, a registration does what `add_worker` does.
  calls-add_worker :
      (x : Registration) (r : WorkerRegistry File)
      → let (r', node) =
          add_worker x.connection x.now x.id x.vram_mb x.ram_mb x.cpu_cores x.has_gpu x.rpc_port
            r in
        calls 5 x (begun, r) ≡ (finished node, r')
  unfolding calls call add_worker assign_role assign_port enroll
  calls-add_worker x r = elim (Bool-cases (is_fit x)) [
    | inl y ↦ elim (Bool-cases (is_some (get_super_node_id r))) [
      | inl n ↦ rw (y, n) refl
      | inr n ↦ rw (y, n) refl
    ]
    | inr y ↦ rw y refl
  ]

  -- The turns tell which of two registrations makes the next call.
  unfoldable pub run : Registration → Registration → List Bool → Both File → Both File
  unfolding call
  run x y [] s = s
  run x y (true ∷ turns) s =
      let (p, r) = call x s.first s.registry in run x y turns (record s { first = p; registry = r })
  run x y (false ∷ turns) s =
      let (p, r) = call y s.second s.registry in
      run x y turns (record s { second = p; registry = r })

  -- The worker is on its way to be a super node, or is one in the table.
  abbrev Rises : Registration → Progress → WorkerRegistry File → Type 0
  Rises x begun r = ⊥
  Rises x (asked free) r = free ≡ true
  Rises x (with_role role) r = is_super role ≡ true
  Rises x (with_port role port) r = is_super role ≡ true
  Rises x (registered node) r = (is_super node.role ≡ true) × (get x.id r.workers ≡ some node)
  Rises x (finished node) r = (is_super node.role ≡ true) × (get x.id r.workers ≡ some node)

  call-Rises :
      (x : Registration) (p : Progress) (r : WorkerRegistry File)
      → Rises x p r
      → Rises x (call x p r).0 (call x p r).1
  unfolding call set_super_node assign_port register set_super_node_cmd_tx
  call-Rises x begun r h = absurd h
  call-Rises x (asked true) r h = refl
  call-Rises x (asked false) r h = cc
  call-Rises x (with_role role) r h = h
  call-Rises x (with_port role port) r h = (h, get-insert_self x.id _ r.workers)
  call-Rises x (registered node) r (h, g) = (h, ground (arith, g))
  call-Rises x (finished node) r h = h

  other-get :
      (x y : Registration) (q : Progress) (r : WorkerRegistry File)
      → x.id ≢ y.id
      → get x.id (call y q r).1.workers ≡ get x.id r.workers
  unfolding call set_super_node assign_port allocate_tunnel_port register set_super_node_cmd_tx
  other-get x y begun r n = ground arith
  other-get x y (asked true) r n = refl
  other-get x y (asked false) r n = refl
  other-get x y (with_role role) r n = ground arith
  other-get x y (with_port role port) r n = get-insert_ne y.id x.id _ r.workers λ e. n (sym e)
  other-get x y (registered node) r n = ground arith
  other-get x y (finished node) r n = refl

  -- A call of another worker does not touch it.
  other-Rises :
      (x y : Registration) (p q : Progress) (r : WorkerRegistry File)
      → x.id ≢ y.id
      → Rises x p r
      → Rises x p (call y q r).1
  unfolding call set_super_node assign_port allocate_tunnel_port register set_super_node_cmd_tx
  other-Rises x y begun q r n h = absurd h
  other-Rises x y (asked free) q r n h = h
  other-Rises x y (with_role role) q r n h = h
  other-Rises x y (with_port role port) q r n h = h
  other-Rises x y (registered node) q r n (h, g) = (h, other-get x y q r n ∙ g)
  other-Rises x y (finished node) q r n (h, g) = (h, other-get x y q r n ∙ g)

  -- Both rise, whatever comes first.
  run-Rises :
      (x y : Registration) (turns : List Bool) (s : Both File)
      → x.id ≢ y.id
      → Rises x s.first s.registry
      → Rises y s.second s.registry
      → Rises x (run x y turns s).first (run x y turns s).registry
        × Rises y (run x y turns s).second (run x y turns s).registry
  unfolding run
  run-Rises x y [] s n h k = (h, k)
  run-Rises x y (true ∷ turns) s n h k =
      run-Rises x y turns _ n (call-Rises x s.first s.registry h)
        (other-Rises y x s.second s.first s.registry (λ e. n (sym e)) k)
  run-Rises x y (false ∷ turns) s n h k =
      run-Rises x y turns _ n (other-Rises x y s.first s.second s.registry n h)
        (call-Rises y s.second s.registry k)

  both_asked :
      (x y : Registration) (turns : List Bool) (r : WorkerRegistry File)
      → is_fit x ≡ true
      → is_fit y ≡ true
      → r.super_node_id ≡ none
      → run x y (true ∷ false ∷ turns) (record { registry = r; first = begun; second = begun })
        ≡ run x y turns (record { registry = r; first = asked true; second = asked true })
  unfolding run call
  both_asked x y turns r fx fy none_named = rw (fx, fy, none_named) refl

  -- Two workers that are fit to be a super node, and that register at once while none is named, both
  -- become one if both ask for it before one of them is named, whatever the order of their further
  -- calls. The registry is not valid then.
  pub run-two_super_nodes :
      (x y : Registration) (turns : List Bool) (r : WorkerRegistry File) (s : Both File)
      (v w : WorkerNode)
      → x.id ≢ y.id
      → is_fit x ≡ true
      → is_fit y ≡ true
      → r.super_node_id ≡ none
      → run x y (true ∷ false ∷ turns) (record { registry = r; first = begun; second = begun }) ≡ s
      → s.first ≡ finished v
      → s.second ≡ finished w
      → (get x.id s.registry.workers ≡ some v)
        × (get y.id s.registry.workers ≡ some w)
        × (is_super v.role ≡ true)
        × (is_super w.role ≡ true)
        × (¬ IsValid s.registry)
  run-two_super_nodes x y turns r s v w n fx fy none_named e ev ew =
      let start : Both File = record { registry = r; first = asked true; second = asked true } in
      let ends : run x y turns start ≡ s = sym (both_asked x y turns r fx fy none_named) ∙ e in
      let (rx, ry) = run-Rises x y turns start n refl refl in
      let (sx, gx) : Rises x (finished v) s.registry = rw (ends, ev) at rx in
      let (sy, gy) : Rises y (finished w) s.registry = rw (ends, ew) at ry in
      (gx, gy, sx, sy, λ valid. n (one_super_node s.registry x.id y.id v w valid gx gy sx sy))
