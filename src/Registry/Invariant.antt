-- ===== src/Registry/Invariant.antt =====
-- What the operations of the registry keep.
use enjambre_worker.Prelude.{
  ℕ, ◌≡◌, refl, true, Option, none, some, arith, is_some, if◌then◌else◌, Option-cases, inl, inr,
}
use enjambre_worker.Prelude.Text.{Text, same_text_iff}
use enjambre_worker.Prelude.Maps.{
  HashMap, get, insert, remove, modify, Unique, insert-Unique, remove-Unique, modify-Unique,
  get-insert, get-remove, get-modify,
}
use enjambre_worker.Registry.{
  is_super, WorkerNode, WorkerRegistry, is_id, set_super_node, set_super_node_cmd_tx,
  allocate_tunnel_port, register, unregister, update_heartbeat, refresh, check_slave_change,
}
use enjambre_worker.Registry.Ports.{IsPort}

-- A worker stands under its own id, once, and a super node is the one that the registry names.
pub record IsTable (sn : Option Text) (ws : HashMap WorkerNode) : Type 0 where
  pub unique : Unique ws
  pub own : (k : Text) (w : WorkerNode) → get k ws ≡ some w → w.id ≡ k
  pub named : (k : Text) (w : WorkerNode) → get k ws ≡ some w → is_super w.role ≡ true → sn ≡ some k

pub insert-IsTable :
    (sn : Option Text) (ws : HashMap WorkerNode) (node : WorkerNode)
    → (is_super node.role ≡ true → sn ≡ some node.id)
    → IsTable sn ws
    → IsTable sn (insert node.id node ws)
insert-IsTable sn ws node h t = record {
  unique = insert-Unique node.id node ws t.unique;
  own = λ k w e. ground (arith, get-insert node.id k node ws, same_text_iff node.id k, t.own k w);
  named =
      λ k w e p. ground (arith, get-insert node.id k node ws, same_text_iff node.id k, t.named k w);
}

remove-IsTable :
    (sn : Option Text) (ws : HashMap WorkerNode) (id : Text)
    → IsTable sn ws
    → IsTable (if is_id sn id then none else sn) (remove id ws)
remove-IsTable sn ws id t = record {
  unique = remove-Unique id ws t.unique;
  own = λ k w e. ground (arith, get-remove id k ws, same_text_iff id k, t.own k w);
  named = λ k w e p. named' sn k w t.named e p;
}
  where
    named' :
        (sn : Option Text) (k : Text) (w : WorkerNode)
        → ((k : Text) (w : WorkerNode) → get k ws ≡ some w → is_super w.role ≡ true → sn ≡ some k)
        → get k (remove id ws) ≡ some w
        → is_super w.role ≡ true
        → (if is_id sn id then none else sn) ≡ some k
    named' none k w n e p = ground (arith, get-remove id k ws, n k w)
    named' (some j) k w n e p =
        ground (arith, get-remove id k ws, n k w, same_text_iff id k, same_text_iff j id)

-- A write that leaves the id and the role alone.
pub modify-IsTable :
    (sn : Option Text) (ws : HashMap WorkerNode) (id : Text) (f : WorkerNode → WorkerNode)
    → ((w : WorkerNode) → ((f w).id ≡ w.id) × ((f w).role ≡ w.role))
    → IsTable sn ws
    → IsTable sn (modify id f ws)
modify-IsTable sn ws id f same t = record {
  unique = modify-Unique id f ws t.unique;
  own = λ k w e. elim (Option-cases (get k ws)) [
    | inl g ↦ ground (arith, get-modify id k f ws)
    | inr (v, g) ↦ ground (arith, get-modify id k f ws, same v, t.own k v g)
  ];
  named = λ k w e p. elim (Option-cases (get k ws)) [
    | inl g ↦ ground (arith, get-modify id k f ws)
    | inr (v, g) ↦ ground (arith, get-modify id k f ws, same v, t.named k v g)
  ];
}

-- The first super node leaves room for no other: a table without one may name any worker.
name-IsTable : (id : Text) (ws : HashMap WorkerNode) → IsTable none ws → IsTable (some id) ws
name-IsTable id ws t = record {
  unique = t.unique;
  own = t.own;
  named = λ k w e p. let x = t.named k w e p in cc;
}

module _ {File : Type 0} where
  pub record IsValid (r : WorkerRegistry File) : Type 0 where
    pub table : IsTable r.super_node_id r.workers
    pub port : IsPort r.tunnel_port_allocator
    pub linked : is_some r.super_node_cmd_tx ≡ true → is_some r.super_node_id ≡ true

  -- At most one worker is a super node.
  pub one_super_node :
      (r : WorkerRegistry File) (j k : Text) (v w : WorkerNode)
      → IsValid r
      → get j r.workers ≡ some v
      → get k r.workers ≡ some w
      → is_super v.role ≡ true
      → is_super w.role ≡ true
      → j ≡ k
  one_super_node r j k v w h ev ew sv sw = cc (h.table.named j v ev sv, h.table.named k w ew sw)

  pub register-IsValid :
      (node : WorkerNode) (r : WorkerRegistry File)
      → (is_super node.role ≡ true → r.super_node_id ≡ some node.id)
      → IsValid r
      → IsValid (register node r)
  unfolding register
  register-IsValid node r h v = record {
    table = insert-IsTable r.super_node_id r.workers node h v.table;
    port = v.port;
    linked = v.linked;
  }

  pub unregister-IsValid :
      (id : Text) (r : WorkerRegistry File) → IsValid r → IsValid (unregister id r)
  unfolding unregister
  unregister-IsValid id r v = record {
    table = remove-IsTable r.super_node_id r.workers id v.table;
    port = v.port;
    linked = λ h. ground (arith, v.linked);
  }

  pub set_super_node-IsValid :
      (id : Text) (r : WorkerRegistry File)
      → r.super_node_id ≡ none
      → IsValid r
      → IsValid (set_super_node id r)
  unfolding set_super_node
  set_super_node-IsValid id r e v = record {
    table = name-IsTable id r.workers (rw e at v.table);
    port = v.port;
    linked = λ h. refl;
  }

  pub allocate_tunnel_port-IsValid :
      (r : WorkerRegistry File) → IsValid r → IsValid (allocate_tunnel_port r).0
  unfolding allocate_tunnel_port
  allocate_tunnel_port-IsValid r v = record {
    table = v.table;
    port = let p = v.port in ground arith;
    linked = v.linked;
  }

  pub set_super_node_cmd_tx-IsValid :
      (tx : ℕ) (r : WorkerRegistry File)
      → is_some r.super_node_id ≡ true
      → IsValid r
      → IsValid (set_super_node_cmd_tx tx r)
  unfolding set_super_node_cmd_tx
  set_super_node_cmd_tx-IsValid tx r e v = record {
    table = v.table;
    port = v.port;
    linked = λ h. e;
  }

  pub update_heartbeat-IsValid :
      (id : Text) (vram ram now : ℕ) (r : WorkerRegistry File)
      → IsValid r
      → IsValid (update_heartbeat id vram ram now r).0
  unfolding update_heartbeat
  update_heartbeat-IsValid id vram ram now r v = elim (Option-cases (get id r.workers)) [
    | inl e ↦ rw (e, update_heartbeat) v
    | inr (w, e) ↦
        rw (e, update_heartbeat)
          (record {
            table =
                modify-IsTable r.super_node_id r.workers id (refresh vram ram now)
                  (λ w. (refl, refl)) v.table;
            port = v.port;
            linked = v.linked;
          })
  ]

  pub check_slave_change-IsValid :
      (r : WorkerRegistry File) → IsValid r → IsValid (check_slave_change r).0
  unfolding check_slave_change
  check_slave_change-IsValid r v = ground (arith, v)
