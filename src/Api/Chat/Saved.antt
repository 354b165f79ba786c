-- ===== src/Api/Chat/Saved.antt =====
-- What the credits file knows of the charge of a chat request.
use enjambre_worker.Prelude.{
  ℕ, ◌+◌, ◌-◌, ◌%◌, ◌<◌, ◌≡◌, Option, some, ◌>>=◌, is_some, if◌then◌else◌, arith, u64_mod,
  Option-cases, inl, inr,
}
use enjambre_worker.Prelude.Text.{Text}
use enjambre_worker.Prelude.Maps.{HashMap, get, modify, Unique, modify-Unique}
use enjambre_worker.Storage.{Storage, IsDurable}
use enjambre_worker.Json.{Value}
use enjambre_worker.Registry.{WorkerNode, WorkerRegistry, bump_version}
use enjambre_worker.Registry.Files.{load_credits, add_credits_to_super_node, credit, earn}
use enjambre_worker.Registry.Credits.{load_credits-save_credits}
use enjambre_worker.Keys.{ApiKey}
use enjambre_worker.Api.{ApiState}
use enjambre_worker.Api.Chat.{charge}

module _ (rs : Storage Value) (d : IsDurable rs) where
  -- The worker that earns the credit.
  abbrev pub earner : WorkerRegistry rs.File → Option WorkerNode
  earner r = r.super_node_id >>= λ sid. get sid r.workers

  credit-load_credits :
      (p sid : Text) (pool : ℕ) (r : WorkerRegistry rs.File)
      → r.credits_file ≡ some p
      → Unique r.workers
      → (load_credits rs (credit rs sid 1 pool r).0.disk).0
        ≡ (if is_some (get sid r.workers) then pool else (load_credits rs r.disk).0)
  unfolding credit
  credit-load_credits p sid pool r e u =
      let after = bump_version (record r { workers = modify sid (earn rs 1) r.workers }) in
      let saved =
        load_credits-save_credits rs d p pool sid after (unfold bump_version in e)
          (unfold bump_version in modify-Unique sid (earn rs 1) r.workers u) in
      ground (arith, saved)

  earned-load_credits :
      (p : Text) (pool : ℕ) (r : WorkerRegistry rs.File)
      → r.credits_file ≡ some p
      → Unique r.workers
      → (load_credits rs (add_credits_to_super_node rs 1 pool r).0.disk).0
        ≡ (if is_some (earner r) then pool else (load_credits rs r.disk).0)
  unfolding add_credits_to_super_node
  earned-load_credits p pool r e u = elim (Option-cases r.super_node_id) [
    | inl n ↦ ground (arith, n)
    | inr (sid, y) ↦ ground (arith, y, credit-load_credits p sid pool r e u)
  ]

module _ (to_str : Text → Option Text) (from_slice : Text → Option Value)
    (header_value : Text → Option Text) (ks : Storage (HashMap ApiKey)) (rs : Storage Value) where
  -- Where files keep what is written and the file has the pool, a charge takes one credit of the pool,
  -- and a restart behind it finds that pool if the named super node is in the table, to whom the
  -- credit goes; otherwise the charge is not saved, and a restart gives the credit back.
  pub charge-load_credits :
      (d : IsDurable rs) (p : Text) (key : ApiKey) (state : ApiState ks.File rs.File)
      → state.registry.credits_file ≡ some p
      → Unique state.registry.workers
      → 0 < state.credit_pool
      → state.credit_pool < u64_mod
      → (load_credits rs state.registry.disk).0 ≡ state.credit_pool
      → let state' = charge to_str from_slice header_value ks rs key state in
        (state'.credit_pool + 1 ≡ state.credit_pool)
        × ((load_credits rs state'.registry.disk).0 ≡ (
            if is_some (earner rs d state.registry)
            then state'.credit_pool
            else state'.credit_pool + 1))
  unfolding charge
  charge-load_credits d p key state e u pos fits saved =
      let pool = (state.credit_pool + (u64_mod - 1)) % u64_mod in
      let less : pool + 1 ≡ state.credit_pool = omega arith in
      (less, ground (arith, less, saved, earned-load_credits rs d p pool state.registry e u))
