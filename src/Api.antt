-- ===== src/Api.antt =====
-- The server's HTTP interface, src/api.rs: its state, the results of its handlers, and the handlers
-- that read only the state. The handlers for the administrator are in Admin, the relayed chat in
-- Chat.
pub mod Admin
pub mod Chat
pub mod Router
pub mod Status
use enjambre_worker.Prelude.{
  ℕ, ◌+◌, ◌%◌, Bool, true, false, List, [], ◌∷◌, ◌++◌, ◌&&◌, not, Option, none, some, map, is_empty,
  if◌then◌else◌, ◌>>=◌, unwrap_or,
}
use enjambre_worker.Prelude.Text.{Text, codes, same_text}
use enjambre_worker.Prelude.Maps.{HashMap, get}
use enjambre_worker.Json.{
  Value, Items, Fields, nil, item, end, field, string, number, array, object,
}
use enjambre_worker.Registry.{WorkerRegistry}
use enjambre_worker.Keys.{KeyManager}

-- `KeyFile` and `CreditsFile` are what the files of the keys and of the credits hold.
pub record ApiState (KeyFile CreditsFile : Type 0) : Type 0 where
  pub model_name : Text
  pub models : List Text
  pub relay_addr : Text
  pub registry : WorkerRegistry CreditsFile
  pub credit_pool : ℕ
  pub key_manager : KeyManager KeyFile
  pub worker_bin_path : Option Text
  pub admin_password : Text

-- `Result<A, (StatusCode, Json<Value>)>`
pub data HandlerResult (A : Type 0) : Type 0 where
  ok : A → HandlerResult A
  err : (status : ℕ) → Value → HandlerResult A

abbrev pub status_of_result : {A : Type 0} → HandlerResult A → ℕ
status_of_result (ok a) = 200
status_of_result (err status v) = status

-- `json!({ ... })` and `json!([ ... ])`
abbrev json_fields : List (Text × Value) → Fields
json_fields [] = end
json_fields ((k, v) ∷ fs) = field k v (json_fields fs)

abbrev pub json : List (Text × Value) → Value
json fs = object (json_fields fs)

abbrev pub json_items : List Value → Items
json_items [] = nil
json_items (v ∷ vs) = item v (json_items vs)

abbrev pub json_array : List Value → Value
json_array vs = array (json_items vs)

-- The body of most errors.
abbrev pub error_json : Text → Text → List (Text × Value) → Value
error_json message kind more = json (
    (codes "error", json ((codes "message", string message) ∷ (codes "type", string kind) ∷ more))
    ∷ [])

abbrev pub invalid_json : Value
invalid_json = json ((codes "error", string (codes "JSON inválido")) ∷ [])

abbrev pub admin_key_header : Text
admin_key_header = codes "x-admin-key"

abbrev pub unauthorized : Value
unauthorized =
    error_json (codes "Se requiere X-Admin-Key válida para acceder al panel de administración.")
      (codes "unauthorized") []

-- `to_str` gives the text of a header's value that is one.
module _ {KeyFile CreditsFile : Type 0} (to_str : Text → Option Text) where
  -- None where the request may go on.
  unfoldable pub require_admin : ApiState KeyFile CreditsFile → HashMap Text → Option (ℕ × Value)
  require_admin state headers =
      let provided = unwrap_or (do v ← get admin_key_header headers; to_str v) [] in
      if is_empty state.admin_password
      then none
      else if same_text provided state.admin_password
      then none
      else some (401, unauthorized)

module _ {KeyFile CreditsFile : Type 0} where
  unfoldable pub list_models : ApiState KeyFile CreditsFile → Value
  list_models state =
      let entries =
        map
          (λ name. json (
            (codes "id", string name)
            ∷ (codes "object", string (codes "model"))
            ∷ (codes "created", number 0)
            ∷ (codes "owned_by", string (codes "enjambre"))
            ∷ (
              codes "permission",
              json_array (json ((codes "object", string (codes "model-permission")) ∷ []) ∷ []),
            )
            ∷ []))
          state.models in
      json ((codes "object", string (codes "list")) ∷ (codes "data", json_array entries) ∷ [])

  -- `read` is `tokio::fs::read`.
  unfoldable pub download_worker : (Text → Option Text) → ApiState KeyFile CreditsFile → ℕ × Text
  download_worker read state = elim state.worker_bin_path [
    | none ↦ (404, codes "worker-node.exe no disponible")
    | some path ↦ elim (read path) [
      | none ↦ (404, codes "worker-node.exe no encontrado en el servidor")
      | some bytes ↦ (200, bytes)
    ]
  ]
