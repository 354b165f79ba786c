-- ===== src/Registry/Earnings.antt =====
-- What `add_credits_to_super_node` and `save_credits` of src/master.rs do to the workers.
use enjambre_worker.Prelude.{
  ℕ, ◌+◌, ◌%◌, ◌<◌, ◌≡◌, refl, ap, ◌≢◌, Option, none, some, arith, Option-cases, inl, inr, ◌⊎◌,
  u64_mod,
}
use enjambre_worker.Prelude.Text.{Text}
use enjambre_worker.Prelude.Maps.{get, modify, total, total-modify, get-modify_self, get-modify_ne}
use enjambre_worker.Storage.{Storage}
use enjambre_worker.Json.{Value}
use enjambre_worker.Registry.{WorkerNode, WorkerRegistry, bump_version, get_worker_credits}
use enjambre_worker.Registry.Files.{
  save_at, save_credits, earn, credit, credits_json, add_credits_to_super_node,
}
use enjambre_worker.Registry.Invariant.{IsValid, modify-IsTable}

module _ (s : Storage Value) where
  -- Nothing but the file differs.
  abbrev SameButDisk : WorkerRegistry s.File → WorkerRegistry s.File → Type 0
  SameButDisk r r' = r' ≡ record r { disk = r'.disk }

  save_at_lem :
      (p : Option Text) (pool : ℕ) (r : WorkerRegistry s.File) → SameButDisk r (save_at s p pool r)
  unfolding save_at
  save_at_lem none pool r = refl
  save_at_lem (some p) pool r =
      elim (Option-cases (s.to_string_pretty (credits_json pool r.workers))) [
        | inl e ↦ rw (e, save_at) refl
        | inr (t, e) ↦ rw (e, save_at) refl
      ]

  -- `save_credits` changes the file alone.
  save_credits_lem : (pool : ℕ) (r : WorkerRegistry s.File) → SameButDisk r (save_credits s pool r)
  unfolding save_credits
  save_credits_lem pool r = save_at_lem r.credits_file pool r

  save_credits-workers :
      (pool : ℕ) (r : WorkerRegistry s.File) → (save_credits s pool r).workers ≡ r.workers
  save_credits-workers pool r = ap (λ x. x.workers) (save_credits_lem pool r)

  pub save_credits-IsValid :
      (pool : ℕ) (r : WorkerRegistry s.File) → IsValid r → IsValid (save_credits s pool r)
  save_credits-IsValid pool r v =
      rw (save_credits_lem pool r) (record { table = v.table; port = v.port; linked = v.linked })

  abbrev credits_of : WorkerNode → ℕ
  credits_of w = w.credits

  -- The state behind a credit that finds its worker.
  abbrev paid_to : Text → ℕ → ℕ → WorkerRegistry s.File → WorkerRegistry s.File
  paid_to sid amount pool r =
      save_credits s pool
        (bump_version (record r { workers = modify sid (earn s amount) r.workers }))

  add_credits_paid :
      (amount pool : ℕ) (sid : Text) (w : WorkerNode) (r : WorkerRegistry s.File)
      → r.super_node_id ≡ some sid
      → get sid r.workers ≡ some w
      → add_credits_to_super_node s amount pool r
        ≡ (paid_to sid amount pool r, (w.credits + amount) % u64_mod)
  unfolding add_credits_to_super_node credit
  add_credits_paid amount pool sid w r e g = ground (arith, e, g)

  add_credits_cases :
      (amount pool : ℕ) (r : WorkerRegistry s.File)
      → (add_credits_to_super_node s amount pool r ≡ (r, 0))
        ⊎ ((sid : Text) × (w : WorkerNode) × (r.super_node_id ≡ some sid)
            × (get sid r.workers ≡ some w)
            × (add_credits_to_super_node s amount pool r
                ≡ (paid_to sid amount pool r, (w.credits + amount) % u64_mod)))
  unfolding add_credits_to_super_node credit
  add_credits_cases amount pool r = elim (Option-cases r.super_node_id) [
    | inl e ↦ inl (ground (arith, e))
    | inr (sid, e) ↦ elim (Option-cases (get sid r.workers)) [
      | inl g ↦ inl (ground (arith, e, g))
      | inr (w, g) ↦ inr (sid, w, e, g, ground (arith, e, g))
    ]
  ]

  pub add_credits_to_super_node-IsValid :
      (amount pool : ℕ) (r : WorkerRegistry s.File)
      → IsValid r
      → IsValid (add_credits_to_super_node s amount pool r).0
  add_credits_to_super_node-IsValid amount pool r v = elim (add_credits_cases amount pool r) [
    | inl e ↦ rw e v
    | inr (sid, w, e, g, p) ↦ rw p (
        save_credits-IsValid pool _ (
          unfold bump_version in
          record {
            table =
                modify-IsTable r.super_node_id r.workers sid (earn s amount) (λ x. (refl, refl))
                  v.table;
            port = v.port;
            linked = v.linked;
          }))
  ]

  -- Where the registry names a super node that is in the table and whose credits have room for the
  -- amount, it and no other worker gets them: the sum of all workers' credits grows by the amount,
  -- and each other worker is as before.
  pub add_credits_to_super_node_lem :
      (amount pool : ℕ) (sid : Text) (w : WorkerNode) (r : WorkerRegistry s.File)
      → r.super_node_id ≡ some sid
      → get sid r.workers ≡ some w
      → w.credits + amount < u64_mod
      → let r' = (add_credits_to_super_node s amount pool r).0 in
        (get_worker_credits sid r' ≡ some (w.credits + amount))
        × (total credits_of r'.workers ≡ total credits_of r.workers + amount)
        × ((j : Text) → sid ≢ j → get j r'.workers ≡ get j r.workers)
  unfolding get_worker_credits
  add_credits_to_super_node_lem amount pool sid w r e g h =
      let p = add_credits_paid amount pool sid w r e g in
      let ws =
        save_credits-workers pool
          (bump_version (record r { workers = modify sid (earn s amount) r.workers })) in
      rw (p, ws)
        (unfold bump_version in
          (
            ground (arith, e, g, get-modify_self sid (earn s amount) r.workers),
            ground (arith, total-modify (λ x. x.credits) sid (earn s amount) r.workers {v = w} g),
            λ j n. get-modify_ne sid j (earn s amount) r.workers n,
          ))
