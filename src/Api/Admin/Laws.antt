-- ===== src/Api/Admin/Laws.antt =====
-- What the administrator's handlers of src/api.rs do behind their guard.
use enjambre_worker.Prelude.{
  ℕ, ◌+◌, ◌%◌, ◌<◌, ◌≡◌, refl, ◌≢◌, true, List, [], ◌∷◌, Option, none, some, map, length, any,
  is_some, arith, sum, u64_mod, length-map, sym,
}
use enjambre_worker.Prelude.Text.{Text, codes, same_text_refl}
use enjambre_worker.Prelude.Maps.{HashMap, get, values, Unique, any-values}
use enjambre_worker.Storage.{Storage, IsDurable}
use enjambre_worker.Json.{Value, number, string}
use enjambre_worker.Registry.{is_super, WorkerNode, get_active_workers, get_worker_credits}
use enjambre_worker.Registry.Files.{load_credits}
use enjambre_worker.Registry.Credits.{load_credits-save_credits}
use enjambre_worker.Registry.Invariant.{IsTable, IsValid}
use enjambre_worker.Keys.{ApiKey, KeyManager, recharge}
use enjambre_worker.Keys.Spending.{add_credits_lem}
use enjambre_worker.Keys
use enjambre_worker.Api.{status_of_result}
use enjambre_worker.Api.{ApiState, ok, json, require_admin}
use enjambre_worker.Api.Status.{add_up, detail, network_status}
use enjambre_worker.Api.Admin.{
  amount_of, admin_only, add_credits-at, add_credits, add_key_credits, add_key_credits-at,
}

add_up_lem :
    (f : WorkerNode → ℕ) (ws : List WorkerNode) (n : ℕ)
    → n < u64_mod
    → add_up f ws n ≡ (n + sum (map f ws)) % u64_mod
unfolding add_up
add_up_lem f [] n h = omega arith
add_up_lem f (w ∷ ws) n h = omega (arith, add_up_lem f ws ((n + f w) % u64_mod) (omega arith))

any_super :
    (sn : Option Text) (ws : HashMap WorkerNode)
    → IsTable sn ws
    → any (λ w. is_super w.role) (values ws) ≡ true
    → is_some sn ≡ true
any_super sn ws t h =
    let (k, w, g, q) = any-values (λ w. is_super w.role) ws t.unique h in
    ground (arith, t.named k w g q)

module _ (to_str : Text → Option Text) (from_slice : Text → Option Value)
    (ks : Storage (HashMap ApiKey)) (rs : Storage Value) where
  -- The totals of the network's status are those of the workers at 64 bits, the count is theirs,
  -- the pool is the state's, and in a valid registry there is an active super node exactly if one
  -- of the workers is a super node.
  network_status_lem :
      (now : ℕ) (state : ApiState ks.File rs.File)
      → IsValid state.registry
      → let (st, details) = network_status now state in
        let workers = get_active_workers state.registry in
        (st.total_vram_mb ≡ sum (map (λ w. w.vram_free_mb) workers) % u64_mod)
        × (st.total_ram_mb ≡ sum (map (λ w. w.ram_free_mb) workers) % u64_mod)
        × (st.active_workers_count ≡ length details)
        × (st.has_active_super_node ≡ any (λ w. is_super w.role) workers)
        × (st.credit_pool ≡ state.credit_pool)
  unfolding network_status get_active_workers
  network_status_lem now state v = (
    omega (arith, add_up_lem (λ w. w.vram_free_mb) (values state.registry.workers) 0 (omega arith)),
    omega (arith, add_up_lem (λ w. w.ram_free_mb) (values state.registry.workers) 0 (omega arith)),
    sym (length-map (detail now) (values state.registry.workers)),
    ground (arith, any_super state.registry.super_node_id state.registry.workers v.table),
    refl,
  )

  -- Where files keep what is written and the request passes the guard with an amount, the pool
  -- grows by it at 64 bits, and a restart finds the new pool and each worker's credits in the file.
  add_credits-load_credits :
      (d : IsDurable rs) (headers : HashMap Text) (body p : Text) (req : Value) (id : Text)
      (state : ApiState ks.File rs.File)
      → require_admin to_str state headers ≡ none
      → from_slice body ≡ some req
      → amount_of req ≢ 0
      → state.registry.credits_file ≡ some p
      → Unique state.registry.workers
      → let (state', result) = add_credits to_str from_slice ks rs headers body state in
        let (pool, saved) = load_credits rs state'.registry.disk in
        (state'.credit_pool ≡ (state.credit_pool + amount_of req) % u64_mod)
        × (pool ≡ state'.credit_pool)
        × (get id saved ≡ get_worker_credits id state.registry)
  unfolding add_credits add_credits-at
  add_credits-load_credits d headers body p req id state g b n c u =
      let sv =
        load_credits-save_credits rs d p ((state.credit_pool + amount_of req) % u64_mod) id
          state.registry c u in
      rw (admin_only, g, b) (ground (arith, n, sv))

  -- A recharge with an amount of a key that exists, by a request that passes the guard, answers with
  -- the credits that the key has behind it, at 64 bits; of a key that does not exist, with 404. The
  -- pool and the workers stay.
  add_key_credits_lem :
      (headers : HashMap Text) (key body : Text) (req : Value) (state : ApiState ks.File rs.File)
      → require_admin to_str state headers ≡ none
      → from_slice body ≡ some req
      → amount_of req ≢ 0
      → let (state', result) = add_key_credits to_str from_slice ks rs headers key body state in
        (state'.credit_pool ≡ state.credit_pool)
        × (state'.registry ≡ state.registry)
        × ((Keys.get_key ks key state.key_manager ≡ none → status_of_result result ≡ 404)
            × ((e : ApiKey)
                → Keys.get_key ks key state.key_manager ≡ some e
                → (result
                    ≡ ok (
                        json (
                          (codes "status", string (codes "ok"))
                          ∷ (codes "credits", number ((e.credits + amount_of req) % u64_mod))
                          ∷ [])))
                  × (Keys.get_key ks key state'.key_manager ≡ some (recharge (amount_of req) e))))
  unfolding add_key_credits add_key_credits-at
  add_key_credits_lem headers key body req state g b n =
      let k = add_credits_lem ks key key (amount_of req) state.key_manager in
      rw (admin_only, g, b) (ground (arith, n, k, same_text_refl key))
