-- ===== src/Server/Restart.antt =====
-- What a restart of the server finds of the keys: every step changes them by one call of the key
-- manager, and every such call saves them.
use enjambre_worker.Prelude.{
  ℕ, ◌≡◌, refl, ◌⊎◌, inl, inr, Option, none, some, ◌>>=◌, unwrap_or, ◌==◌, Bool-cases,
}
use enjambre_worker.Prelude.Text.{Text, codes}
use enjambre_worker.Prelude.Maps.{HashMap}
use enjambre_worker.Storage.{Storage, IsDurable}
use enjambre_worker.Json.{Value, get_field, as_u64, as_str}
use enjambre_worker.Registry.{MasterConfig}
use enjambre_worker.Keys.{ApiKey, KeyManager}
use enjambre_worker.Keys.Invariant.{
  Call, creates, deducts, deletes, adds, toggles, apply, Restarts, apply-Restarts,
}
use enjambre_worker.Keys
use enjambre_worker.Api.{ApiState, HandlerResult, err, require_admin}
use enjambre_worker.Api.Admin.{
  add_credits, add_credits-at, get_network_status, list_keys, create_key, create_key-at, delete_key,
  add_key_credits, add_key_credits-at, toggle_key, amount_of,
}
use enjambre_worker.Api.Router.{
  AdminCall, post_credits, get_status, get_keys, post_key, remove_key, post_key_credits,
  post_toggle, serve,
}
use enjambre_worker.Api.Chat.{Exchange, answer, charge}
use enjambre_worker.Api.Chat.Cost.{answer_lem}
use enjambre_worker.Server.{Server, Step, serves, admits, answers, turns, checks, Steps, done, more}

module _ (to_str : Text → Option Text) (from_slice : Text → Option Value)
    (header_value : Text → Option Text) (ks : Storage (HashMap ApiKey)) (rs : Storage Value)
    (config : MasterConfig) where
  abbrev Api : Type 0
  Api = ApiState ks.File rs.File

  -- The keys are left alone or changed by one call.
  abbrev pub Moves : Api → Api → Type 0
  Moves s t =
      (t.key_manager ≡ s.key_manager) ⊎ ((c : Call) × (t.key_manager ≡ apply ks c s.key_manager))

  guarded-Moves :
      {A : Type 0} (g : Option (ℕ × Value)) (state : Api) (after : Api × HandlerResult A)
      → Moves state after.0
      → Moves state
          (elim g as (λ x. Api × HandlerResult A) [
            | some (status, v) ↦ (state, err status v)
            | none ↦ after
          ]).0
  guarded-Moves none state after h = h
  guarded-Moves (some sv) state after h = inl refl

  add_credits-at-Moves :
      (b : Option Value) (state : Api)
      → Moves state (add_credits-at to_str from_slice ks rs b state).0
  unfolding add_credits-at
  add_credits-at-Moves none state = inl refl
  add_credits-at-Moves (some req) state = elim (Bool-cases (amount_of req == 0)) [
    | inl e ↦ rw e (inl refl)
    | inr e ↦ rw e (inl refl)
  ]

  create_key-at-Moves :
      (nanos secs : ℕ) (b : Option Value) (state : Api)
      → Moves state (create_key-at to_str from_slice ks rs nanos secs b state).0
  unfolding create_key-at apply
  create_key-at-Moves nanos secs none state = inl refl
  create_key-at-Moves nanos secs (some req) state =
      let name = unwrap_or (get_field (codes "name") req >>= as_str) (codes "Sin nombre") in
      let credits = unwrap_or (get_field (codes "credits") req >>= as_u64) 100 in
      inr (creates nanos secs name credits, refl)

  add_key_credits-at-Moves :
      (key : Text) (b : Option Value) (state : Api)
      → Moves state (add_key_credits-at to_str from_slice ks rs key b state).0
  unfolding add_key_credits-at apply
  add_key_credits-at-Moves key none state = inl refl
  add_key_credits-at-Moves key (some req) state =
      let amount = amount_of req in
      let moved : Moves state
          (record state { key_manager = apply ks (adds key amount) state.key_manager }) =
        inr (adds key amount, refl) in
      elim (Bool-cases (amount == 0)) [
        | inl z ↦ rw z (inl refl)
        | inr z ↦ elim (Bool-cases (Keys.add_credits ks key amount state.key_manager).1) [
          | inl y ↦ rw (z, y) moved
          | inr y ↦ rw (z, y) moved
        ]
      ]

  serve-Moves :
      (c : AdminCall) (headers : HashMap Text) (state : Api)
      → Moves state (serve to_str from_slice ks rs c headers state).0
  unfolding serve add_credits get_network_status list_keys create_key delete_key add_key_credits
      apply toggle_key
  serve-Moves (post_credits body) headers state =
      guarded-Moves (require_admin to_str state headers) state
        (add_credits-at to_str from_slice ks rs (from_slice body) state)
        (add_credits-at-Moves (from_slice body) state)
  serve-Moves (get_status now) headers state =
      guarded-Moves (require_admin to_str state headers) state _ (inl refl)
  serve-Moves get_keys headers state =
      guarded-Moves (require_admin to_str state headers) state _ (inl refl)
  serve-Moves (post_key nanos secs body) headers state =
      guarded-Moves (require_admin to_str state headers) state
        (create_key-at to_str from_slice ks rs nanos secs (from_slice body) state)
        (create_key-at-Moves nanos secs (from_slice body) state)
  serve-Moves (remove_key key) headers state =
      guarded-Moves (require_admin to_str state headers) state _ (inr (deletes key, refl))
  serve-Moves (post_key_credits key body) headers state =
      guarded-Moves (require_admin to_str state headers) state
        (add_key_credits-at to_str from_slice ks rs key (from_slice body) state)
        (add_key_credits-at-Moves key (from_slice body) state)
  serve-Moves (post_toggle key) headers state =
      guarded-Moves (require_admin to_str state headers) state _ (inr (toggles key, refl))

  answer-Moves :
      (key : ApiKey) (x : Exchange) (state : Api)
      → Moves state (answer to_str from_slice header_value ks rs key x state).0
  unfolding charge apply
  answer-Moves key x state = elim (answer_lem to_str from_slice header_value ks rs key x state) [
    | inl (e, p) ↦ rw e (inr (deducts key.key, refl))
    | inr (e, p) ↦ rw e (inl refl)
  ]

  Step-Moves :
      {s t : Server ks.File rs.File}
      → Step to_str from_slice header_value ks rs config s t
      → Moves s.api t.api
  Step-Moves (serves c headers s) = serve-Moves c headers s.api
  Step-Moves (admits headers body key s e) = inl refl
  Step-Moves (answers key x before behind s e) = answer-Moves key x s.api
  Step-Moves (turns c now e s) = inl refl
  Step-Moves (checks now s) = inl refl

  module _ (d : IsDurable ks) (p : Text) where
    -- A restart on the file of the keys finds the keys.
    pub Steps-Restarts :
        {s t : Server ks.File rs.File}
        → Steps to_str from_slice header_value ks rs config s t
        → Restarts ks d p s.api.key_manager
        → Restarts ks d p t.api.key_manager
    Steps-Restarts (done s) r = r
    Steps-Restarts (more {s} {t} q qs) r = elim (Step-Moves q) [
      | inl e ↦ Steps-Restarts qs (rw e r)
      | inr (c, e) ↦ Steps-Restarts qs (rw e (apply-Restarts ks d p c s.api.key_manager r))
    ]
