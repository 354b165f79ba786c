-- ===== src/Server/Invariant.antt =====
-- What every step of the server keeps.
use enjambre_worker.Prelude.{
  ℕ, ◌+◌, ◌%◌, ◌<◌, ◌≡◌, Option, none, some, arith, ◌>>=◌, unwrap_or, u64_mod, Option-cases, inl,
  inr, ◌-◌, ◌==◌, Bool-cases,
}
use enjambre_worker.Prelude.Text.{Text, codes}
use enjambre_worker.Prelude.Maps.{HashMap}
use enjambre_worker.Storage.{Storage}
use enjambre_worker.Json.{Value, get_field, as_u64, as_str}
use enjambre_worker.Registry.{MasterConfig}
use enjambre_worker.Registry.Earnings.{save_credits-IsValid, add_credits_to_super_node-IsValid}
use enjambre_worker.Keys.{ApiKey, KeyManager}
use enjambre_worker.Keys.Invariant.{creates, deducts, deletes, adds, toggles, apply-IsValid, apply}
use enjambre_worker.Keys
use enjambre_worker.Connection.Invariant.{turn-IsValid}
use enjambre_worker.Heartbeat.{check_heartbeats-IsValid}
use enjambre_worker.Api.{ApiState, HandlerResult, err, require_admin}
use enjambre_worker.Api.Admin.{
  add_credits, add_credits-at, get_network_status, list_keys, create_key, create_key-at, delete_key,
  add_key_credits, add_key_credits-at, toggle_key, amount_of,
}
use enjambre_worker.Api.Router.{
  AdminCall, post_credits, get_status, get_keys, post_key, remove_key, post_key_credits,
  post_toggle, serve,
}
use enjambre_worker.Api.Chat.{Exchange, answer, charge}
use enjambre_worker.Api.Chat.Cost.{answer_lem}
use enjambre_worker.Server.{
  Server, Sized, Step, serves, admits, answers, turns, checks, Steps, done, more, IsValid,
}

module _ (to_str : Text → Option Text) (from_slice : Text → Option Value)
    (header_value : Text → Option Text) (ks : Storage (HashMap ApiKey)) (rs : Storage Value)
    (config : MasterConfig) where
  abbrev Api : Type 0
  Api = ApiState ks.File rs.File

  -- New keys by one of the calls that change them, the rest as it is.
  with_keys-IsValid :
      (c : Keys.Invariant.Call) (state : Api)
      → Keys.Invariant.Fits c
      → IsValid state
      → IsValid (record state { key_manager = apply ks c state.key_manager })
  with_keys-IsValid c state h v = record {
    registry_IsValid = v.registry_IsValid;
    keys_IsValid = apply-IsValid ks c state.key_manager h v.keys_IsValid;
    pool_fits = v.pool_fits;
  }

  charge-IsValid :
      (key : ApiKey) (state : Api)
      → IsValid state
      → IsValid (charge to_str from_slice header_value ks rs key state)
  unfolding charge apply
  charge-IsValid key state v = record {
    registry_IsValid =
        add_credits_to_super_node-IsValid rs 1 ((state.credit_pool + (u64_mod - 1)) % u64_mod)
          state.registry v.registry_IsValid;
    keys_IsValid = apply-IsValid ks (deducts key.key) state.key_manager tt v.keys_IsValid;
    pool_fits = omega arith;
  }

  answer-IsValid :
      (key : ApiKey) (x : Exchange) (state : Api)
      → IsValid state
      → IsValid (answer to_str from_slice header_value ks rs key x state).0
  answer-IsValid key x state v =
      elim (answer_lem to_str from_slice header_value ks rs key x state) [
        | inl (e, p) ↦ rw e (charge-IsValid key state v)
        | inr (e, p) ↦ rw e v
      ]

  -- A handler's result behind the guard.
  guarded-IsValid :
      {A : Type 0} (g : Option (ℕ × Value)) (state : Api) (after : Api × HandlerResult A)
      → IsValid after.0
      → IsValid state
      → IsValid
          (elim g as (λ x. Api × HandlerResult A) [
            | some (status, v) ↦ (state, err status v)
            | none ↦ after
          ]).0
  guarded-IsValid none state after h v = h
  guarded-IsValid (some sv) state after h v = v

  add_credits-at-IsValid :
      (b : Option Value) (state : Api)
      → IsValid state
      → IsValid (add_credits-at to_str from_slice ks rs b state).0
  unfolding add_credits-at
  add_credits-at-IsValid none state v = v
  add_credits-at-IsValid (some req) state v = elim (Bool-cases (amount_of req == 0)) [
    | inl e ↦ rw e v
    | inr e ↦ rw e (record {
      registry_IsValid =
          save_credits-IsValid rs ((state.credit_pool + amount_of req) % u64_mod) state.registry
            v.registry_IsValid;
      keys_IsValid = v.keys_IsValid;
      pool_fits = omega arith;
    })
  ]

  module _ (sized : Sized from_slice) where
    sized_or :
        (body k : Text) (req : Value) (d : ℕ)
        → from_slice body ≡ some req
        → d < u64_mod
        → unwrap_or (get_field k req >>= as_u64) d < u64_mod
    sized_or body k req d e h = elim (Option-cases (get_field k req >>= as_u64)) [
      | inl n ↦ rw n h
      | inr (c, n) ↦ rw n (sized body k req c e n)
    ]

    add_key_credits-req :
        (key body : Text) (req : Value) (state : Api)
        → from_slice body ≡ some req
        → IsValid state
        → IsValid (add_key_credits-at to_str from_slice ks rs key (some req) state).0
    unfolding add_key_credits-at apply
    add_key_credits-req key body req state e v =
        let w =
          with_keys-IsValid (adds key (amount_of req)) state
            (sized_or body (codes "amount") req 0 e (omega arith)) v in
        elim (Bool-cases (amount_of req == 0)) [
          | inl z ↦ rw z v
          | inr z ↦
              elim (Bool-cases (Keys.add_credits ks key (amount_of req) state.key_manager).1) [
                | inl y ↦ rw (z, y) w
                | inr y ↦ rw (z, y) w
              ]
        ]

    create_key-at-IsValid :
        (nanos secs : ℕ) (body : Text) (state : Api)
        → IsValid state
        → IsValid (create_key-at to_str from_slice ks rs nanos secs (from_slice body) state).0
    unfolding create_key-at apply
    create_key-at-IsValid nanos secs body state v = elim (Option-cases (from_slice body)) [
      | inl e ↦ rw e v
      | inr (req, e) ↦ rw e (
          with_keys-IsValid
            (creates nanos secs
              (unwrap_or (get_field (codes "name") req >>= as_str) (codes "Sin nombre"))
              (unwrap_or (get_field (codes "credits") req >>= as_u64) 100))
            state (sized_or body (codes "credits") req 100 e (omega arith)) v)
    ]

    add_key_credits-at-IsValid :
        (key body : Text) (state : Api)
        → IsValid state
        → IsValid (add_key_credits-at to_str from_slice ks rs key (from_slice body) state).0
    unfolding add_key_credits-at apply
    add_key_credits-at-IsValid key body state v = elim (Option-cases (from_slice body)) [
      | inl e ↦ rw e v
      | inr (req, e) ↦ rw e (add_key_credits-req key body req state e v)
    ]

    serve-IsValid :
        (c : AdminCall) (headers : HashMap Text) (state : Api)
        → IsValid state
        → IsValid (serve to_str from_slice ks rs c headers state).0
    unfolding serve add_credits get_network_status list_keys create_key delete_key add_key_credits
        apply toggle_key
    serve-IsValid (post_credits body) headers state v =
        guarded-IsValid (require_admin to_str state headers) state
          (add_credits-at to_str from_slice ks rs (from_slice body) state)
          (add_credits-at-IsValid (from_slice body) state v) v
    serve-IsValid (get_status now) headers state v =
        guarded-IsValid (require_admin to_str state headers) state _ v v
    serve-IsValid get_keys headers state v =
        guarded-IsValid (require_admin to_str state headers) state _ v v
    serve-IsValid (post_key nanos secs body) headers state v =
        guarded-IsValid (require_admin to_str state headers) state
          (create_key-at to_str from_slice ks rs nanos secs (from_slice body) state)
          (create_key-at-IsValid nanos secs body state v) v
    serve-IsValid (remove_key key) headers state v =
        guarded-IsValid (require_admin to_str state headers) state _
          (with_keys-IsValid (deletes key) state tt v) v
    serve-IsValid (post_key_credits key body) headers state v =
        guarded-IsValid (require_admin to_str state headers) state
          (add_key_credits-at to_str from_slice ks rs key (from_slice body) state)
          (add_key_credits-at-IsValid key body state v) v
    serve-IsValid (post_toggle key) headers state v =
        guarded-IsValid (require_admin to_str state headers) state _
          (with_keys-IsValid (toggles key) state tt v) v

    Step-IsValid :
        {s t : Server ks.File rs.File}
        → Step to_str from_slice header_value ks rs config s t
        → IsValid s.api
        → IsValid t.api
    Step-IsValid (serves c headers s) v = serve-IsValid c headers s.api v
    Step-IsValid (admits headers body key s e) v = v
    Step-IsValid (answers key x before behind s e) v = answer-IsValid key x s.api v
    Step-IsValid (turns c now e s) v = record {
      registry_IsValid = turn-IsValid config c now e s.api.registry v.registry_IsValid;
      keys_IsValid = v.keys_IsValid;
      pool_fits = v.pool_fits;
    }
    Step-IsValid (checks now s) v = record {
      registry_IsValid = check_heartbeats-IsValid now s.api.registry v.registry_IsValid;
      keys_IsValid = v.keys_IsValid;
      pool_fits = v.pool_fits;
    }

    -- After any steps of the server, in any order, from a valid state, where the numbers of a body
    -- fit 64 bits: each worker stands in the table under its own id, once, and no other worker than
    -- the one that the registry names is a super node; the next tunnel port is one of the range;
    -- each key stands under its own name, once; and the pool and the keys' credits fit 64 bits.
    pub Steps-IsValid :
        {s t : Server ks.File rs.File}
        → Steps to_str from_slice header_value ks rs config s t
        → IsValid s.api
        → IsValid t.api
    Steps-IsValid (done s) v = v
    Steps-IsValid (more p q) v = Steps-IsValid q (Step-IsValid p v)
