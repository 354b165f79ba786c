-- ===== src/Server.antt =====
-- The whole server of src/master.rs and src/api.rs as a relation of steps: the administrator's
-- requests, the admission and the answer of chat requests, the turns of the workers' connections
-- and the rounds of the heartbeat check, in any order.
pub mod Invariant
pub mod Restart
use enjambre_worker.Prelude.{
  ℕ, ◌+◌, ◌%◌, ◌<◌, ◌≡◌, refl, List, [], ◌∷◌, ◌++◌, Option, none, some, arith, ◌>>=◌, unwrap_or,
  u64_mod, if◌then◌else◌, Option-cases, inl, inr, ◌⊎◌, ◌-◌, ◌==◌, Bool-cases,
}
use enjambre_worker.Prelude.Text.{Text, codes}
use enjambre_worker.Prelude.Maps.{HashMap, get}
use enjambre_worker.Storage.{Storage}
use enjambre_worker.Json.{Value, number, get_field, as_u64, as_str}
use enjambre_worker.Registry.{MasterConfig, WorkerRegistry}
use enjambre_worker.Registry.Earnings.{save_credits-IsValid, add_credits_to_super_node-IsValid}
use enjambre_worker.Registry
use enjambre_worker.Keys.{ApiKey, KeyManager}
use enjambre_worker.Keys.Invariant.{creates, deducts, deletes, adds, toggles, apply-IsValid, apply}
use enjambre_worker.Keys
use enjambre_worker.Connection.{Connection, Event, turn}
use enjambre_worker.Connection.Invariant.{turn-IsValid}
use enjambre_worker.Heartbeat.{check_heartbeats, check_heartbeats-IsValid}
use enjambre_worker.Api.{ApiState, HandlerResult, ok, err, require_admin}
use enjambre_worker.Api.Admin.{
  admin_only, add_credits, add_credits-at, get_network_status, list_keys, create_key, create_key-at,
  delete_key, add_key_credits, add_key_credits-at, toggle_key, amount_of,
}
use enjambre_worker.Api.Router.{
  AdminCall, post_credits, get_status, get_keys, post_key, remove_key, post_key_credits,
  post_toggle, serve,
}
use enjambre_worker.Api.Chat.{Exchange, admit, answer, charge}
use enjambre_worker.Api.Chat.Cost.{answer_lem}

-- The shared state, and the keys of the chat requests that wait for the relay.
pub record Server (KeyFile CreditsFile : Type 0) : Type 0 where
  pub api : ApiState KeyFile CreditsFile
  pub waiting : List ApiKey

-- The registry is valid, the keys are, and the pool fits 64 bits.
pub record IsValid {KeyFile CreditsFile : Type 0} (state : ApiState KeyFile CreditsFile)
    : Type 0 where
  pub registry_IsValid : Registry.Invariant.IsValid state.registry
  pub keys_IsValid : Keys.Invariant.IsValid state.key_manager.keys
  pub pool_fits : state.credit_pool < u64_mod

-- The numbers that `as_u64` gives fit 64 bits.
abbrev pub Sized : (Text → Option Value) → Type 0
Sized from_slice =
    (body k : Text) (v : Value) (n : ℕ)
    → from_slice body ≡ some v
    → get_field k v >>= as_u64 ≡ some n
    → n < u64_mod

module _ (to_str : Text → Option Text) (from_slice : Text → Option Value)
    (header_value : Text → Option Text) (ks : Storage (HashMap ApiKey)) (rs : Storage Value)
    (config : MasterConfig) where
  pub data Step : Server ks.File rs.File → Server ks.File rs.File → Type 0 where
    serves :
        (c : AdminCall) (headers : HashMap Text) (s : Server ks.File rs.File)
        → Step s (record s { api = (serve to_str from_slice ks rs c headers s.api).0 })
    admits :
        (headers : HashMap Text) (body : Text) (key : ApiKey) (s : Server ks.File rs.File)
        → admit to_str from_slice header_value ks rs headers body s.api ≡ ok key
        → Step s (record s { waiting = key ∷ s.waiting })
    answers :
        (key : ApiKey) (x : Exchange) (before behind : List ApiKey) (s : Server ks.File rs.File)
        → s.waiting ≡ before ++ key ∷ behind
        → Step s (record s {
          api = (answer to_str from_slice header_value ks rs key x s.api).0;
          waiting = before ++ behind;
        })
    turns :
        (c : Connection) (now : ℕ) (e : Event) (s : Server ks.File rs.File)
        → Step s (record s {
          api = record s.api { registry = (turn config c now e s.api.registry).registry };
        })
    checks :
        (now : ℕ) (s : Server ks.File rs.File)
        → Step s
            (record s { api = record s.api { registry = check_heartbeats now s.api.registry } })

  -- Any number of steps.
  pub data Steps : Server ks.File rs.File → Server ks.File rs.File → Type 0 where
    done : (s : Server ks.File rs.File) → Steps s s
    more : {s t u : Server ks.File rs.File} → Step s t → Steps t u → Steps s u
