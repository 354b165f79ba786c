-- ===== src/Connection/Race/Turns.antt =====
-- Two registrations at once of which one is named before the other one asks for the super node.
use enjambre_worker.Prelude.{
  ◌≡◌, refl, ◌∙◌, Bool, true, false, List, [], ◌∷◌, none, some, is_some, arith, Bool-cases, inl,
  inr,
}
use enjambre_worker.Registry.{
  is_super, WorkerRegistry, get_super_node_id, register, set_super_node, set_super_node_cmd_tx,
  allocate_tunnel_port, get_saved_worker_credit,
}
use enjambre_worker.Registry.Invariant.{
  IsValid, register-IsValid, set_super_node-IsValid, allocate_tunnel_port-IsValid,
  set_super_node_cmd_tx-IsValid,
}
use enjambre_worker.Connection.{assign_port}
use enjambre_worker.Connection.Race.{
  Registration, Progress, begun, asked, with_role, with_port, registered, finished, node_of, is_fit,
  Both, call, run,
}

-- A registration that has the role of the super node.
abbrev rising : Progress → Bool
rising begun = false
rising (asked free) = false
rising (with_role role) = is_super role
rising (with_port role port) = is_super role
rising (registered node) = is_super node.role
rising (finished node) = is_super node.role

-- A registration that has its role.
abbrev past : Progress → Bool
past begun = false
past (asked free) = false
past _ = true

abbrev is_free : Progress → Bool
is_free (asked free) = free
is_free _ = false

past_not_free : (p : Progress) → past p ≡ true → is_free p ≡ false
past_not_free begun e = cc
past_not_free (asked free) e = cc
past_not_free (with_role role) e = refl
past_not_free (with_port role port) e = refl
past_not_free (registered node) e = refl
past_not_free (finished node) e = refl

module _ {File : Type 0} where
  -- What a registration has of the registry while nobody else is named: it is named if it has the
  -- role, and nobody is if it has been told so.
  record Holds (x : Registration) (p : Progress) (r : WorkerRegistry File) : Type 0 where
    role : rising p ≡ true → r.super_node_id ≡ some x.id
    free : is_free p ≡ true → r.super_node_id ≡ none

  call-IsValid :
      (x : Registration) (p : Progress) (r : WorkerRegistry File)
      → Holds x p r
      → IsValid r
      → IsValid (call x p r).1
  unfolding call
  call-IsValid x begun r h v = ground (arith, v)
  call-IsValid x (asked true) r h v = set_super_node-IsValid x.id r (h.free refl) v
  call-IsValid x (asked false) r h v = v
  call-IsValid x (with_role role) r h v =
      unfold assign_port in ground (arith, v, allocate_tunnel_port-IsValid r v)
  call-IsValid x (with_port role port) r h v =
      register-IsValid (node_of x role port (get_saved_worker_credit x.id r)) r h.role v
  call-IsValid x (registered node) r h v = elim (Bool-cases (is_super node.role)) [
    | inl y ↦
        rw y (set_super_node_cmd_tx-IsValid x.connection.cmd_tx r (ground (arith, h.role, y)) v)
    | inr n ↦ rw n v
  ]
  call-IsValid x (finished node) r h v = v

  call-Holds :
      (x : Registration) (p : Progress) (r : WorkerRegistry File)
      → Holds x p r
      → Holds x (call x p r).0 (call x p r).1
  unfolding call set_super_node assign_port allocate_tunnel_port register set_super_node_cmd_tx
  call-Holds x begun r h = record { role = ground arith; free = ground arith }
  call-Holds x (asked true) r h = record { role = λ e. refl; free = λ e. cc }
  call-Holds x (asked false) r h = record { role = λ e. cc; free = λ e. cc }
  call-Holds x (with_role role) r h = record {
    role = λ e. ground (arith, h.role, e);
    free = λ e. cc;
  }
  call-Holds x (with_port role port) r h = record { role = h.role; free = λ e. cc }
  call-Holds x (registered node) r h = record {
    role = λ e. ground (arith, h.role, e);
    free = λ e. cc;
  }
  call-Holds x (finished node) r h = h

  -- A call changes the name only where it has been told that there is none.
  call-named :
      (y : Registration) (q : Progress) (r : WorkerRegistry File)
      → is_free q ≡ false
      → (call y q r).1.super_node_id ≡ r.super_node_id
  unfolding call set_super_node assign_port allocate_tunnel_port register set_super_node_cmd_tx
  call-named y begun r n = ground arith
  call-named y (asked true) r n = cc
  call-named y (asked false) r n = refl
  call-named y (with_role role) r n = ground arith
  call-named y (with_port role port) r n = refl
  call-named y (registered node) r n = ground arith
  call-named y (finished node) r n = refl

  call-past :
      (x : Registration) (p : Progress) (r : WorkerRegistry File)
      → past p ≡ true
      → past (call x p r).0 ≡ true
  unfolding call
  call-past x begun r e = cc
  call-past x (asked free) r e = cc
  call-past x (with_role role) r e = refl
  call-past x (with_port role port) r e = refl
  call-past x (registered node) r e = refl
  call-past x (finished node) r e = refl

  -- What a registration has stays where another one that changes no name makes a call,
  same-Holds :
      (x y : Registration) (p q : Progress) (r : WorkerRegistry File)
      → is_free q ≡ false
      → Holds x p r
      → Holds x p (call y q r).1
  same-Holds x y p q r n h = record {
    role = λ e. call-named y q r n ∙ h.role e;
    free = λ e. call-named y q r n ∙ h.free e;
  }

  -- and where it is past its question, whatever the other one does.
  other-Holds :
      (x y : Registration) (p q : Progress) (r : WorkerRegistry File)
      → past p ≡ true
      → Holds x p r
      → Holds y q r
      → Holds x p (call y q r).1
  other-Holds x y p q r e h k = elim (Bool-cases (is_free q)) [
    | inl free ↦ record {
      role = λ rises. let some_one = h.role rises in let none_one = k.free free in cc;
      free = λ f. let n = past_not_free p e in cc;
    }
    | inr taken ↦ same-Holds x y p q r taken h
  ]

  turns-IsValid :
      (x y : Registration) (turns : List Bool) (s : Both File)
      → past s.first ≡ true
      → Holds x s.first s.registry
      → Holds y s.second s.registry
      → IsValid s.registry
      → IsValid (run x y turns s).registry
  unfolding run
  turns-IsValid x y [] s e h k v = v
  turns-IsValid x y (true ∷ turns) s e h k v =
      turns-IsValid x y turns _ (call-past x s.first s.registry e)
        (call-Holds x s.first s.registry h)
        (same-Holds y x s.second s.first s.registry (past_not_free s.first e) k)
        (call-IsValid x s.first s.registry h v)
  turns-IsValid x y (false ∷ turns) s e h k v =
      turns-IsValid x y turns _ e (other-Holds x y s.first s.second s.registry e h k)
        (call-Holds y s.second s.registry k) (call-IsValid y s.second s.registry k v)

  begun-Holds : (x : Registration) (r : WorkerRegistry File) → Holds x begun r
  begun-Holds x r = record { role = λ e. cc; free = λ e. cc }

  twice-past :
      (x : Registration) (r : WorkerRegistry File)
      → past (call x (call x begun r).0 (call x begun r).1).0 ≡ true
  unfolding call
  twice-past x r = elim (Bool-cases (is_fit x)) [
    | inl y ↦ elim (Bool-cases (is_some (get_super_node_id r))) [
      | inl n ↦ rw (y, n) refl
      | inr n ↦ rw (y, n) refl
    ]
    | inr n ↦ rw n refl
  ]

  -- Two registrations at once keep the registry valid if the first one has asked for the super node
  -- and got its role before the second one begins, whatever the order of their further calls.
  pub run_named_first-IsValid :
      (x y : Registration) (turns : List Bool) (r : WorkerRegistry File)
      → IsValid r
      → let s : Both File = record { registry = r; first = begun; second = begun } in
        IsValid (run x y (true ∷ true ∷ turns) s).registry
  unfolding run
  run_named_first-IsValid x y turns r v =
      let (p, r1) = call x begun r in
      let h = call-Holds x begun r (begun-Holds x r) in
      let v1 = call-IsValid x begun r (begun-Holds x r) v in
      turns-IsValid x y turns _ (twice-past x r) (call-Holds x p r1 h)
        (begun-Holds y (call x p r1).1) (call-IsValid x p r1 h v1)
