-- ===== src/Api/Admin.antt =====
-- The handlers of src/api.rs that ask for the administrator's password.
pub mod Laws
use enjambre_worker.Prelude.{
  ℕ, ◌+◌, ◌-◌, ◌/◌, ◌%◌, Bool, true, false, List, [], ◌∷◌, ◌&&◌, Option, none, some, map, length,
  any, is_some, if◌then◌else◌, ◌>>=◌, unwrap_or, map_option, ◌==◌, u64_mod,
}
use enjambre_worker.Prelude.Text.{Text, codes}
use enjambre_worker.Prelude.Maps.{HashMap}
use enjambre_worker.Storage.{Storage}
use enjambre_worker.Json.{Value, string, number, boolean, get_field, as_u64, as_str}
use enjambre_worker.Registry.{
  Role, consumer, super_node, gpu_provider, is_super, WorkerNode, get_active_workers,
  get_super_node_id,
}
use enjambre_worker.Registry.Files.{save_credits}
use enjambre_worker.Keys.{ApiKey}
use enjambre_worker.Keys
use enjambre_worker.Api.Status.{NetworkStatus, WorkerDetail, network_status}
use enjambre_worker.Api.{
  ApiState, HandlerResult, ok, err, json, json_array, invalid_json, require_admin,
}

abbrev pub key_json : ApiKey → Value
key_json e = json (
    (codes "key", string e.key)
    ∷ (codes "name", string e.name)
    ∷ (codes "credits", number e.credits)
    ∷ (codes "enabled", boolean e.enabled)
    ∷ (codes "created_at", string e.created_at)
    ∷ [])

-- The amount that a body asks for.
abbrev pub amount_of : Value → ℕ
amount_of req = unwrap_or (get_field (codes "amount") req >>= as_u64) 0

module _ (to_str : Text → Option Text) (from_slice : Text → Option Value)
    (ks : Storage (HashMap ApiKey)) (rs : Storage Value) where
  -- A handler behind `require_admin`.
  abbrev pub admin_only :
      {A : Type 0}
      → HashMap Text
      → (ApiState ks.File rs.File → ApiState ks.File rs.File × HandlerResult A)
      → ApiState ks.File rs.File
      → ApiState ks.File rs.File × HandlerResult A
  admin_only headers handler state = elim (require_admin to_str state headers) [
    | some (status, v) ↦ (state, err status v)
    | none ↦ handler state
  ]

  -- The state after `credit_pool.fetch_add(amount)` and `save_credits`.
  abbrev pub recharge_pool : ℕ → ApiState ks.File rs.File → ApiState ks.File rs.File
  recharge_pool amount state =
      let pool = (state.credit_pool + amount) % u64_mod in
      record state { credit_pool = pool; registry = save_credits rs pool state.registry }

  unfoldable pub add_credits-at :
      Option Value → ApiState ks.File rs.File → ApiState ks.File rs.File × HandlerResult Value
  add_credits-at none state = (state, err 400 invalid_json)
  add_credits-at (some req) state =
      let amount = amount_of req in
      let state' = recharge_pool amount state in
      if amount == 0
      then (state, err 400 (json ((codes "error", string (codes "amount debe ser > 0")) ∷ [])))
      else (
        state',
        ok (
            json (
              (codes "status", string (codes "ok"))
              ∷ (codes "added", number amount)
              ∷ (codes "credit_pool", number state'.credit_pool)
              ∷ [])),
      )

  unfoldable pub add_credits :
      HashMap Text
      → Text
      → ApiState ks.File rs.File
      → ApiState ks.File rs.File × HandlerResult Value
  unfolding add_credits-at
  add_credits headers body = admin_only headers (add_credits-at (from_slice body))

  unfoldable pub get_network_status :
      ℕ
      → HashMap Text
      → ApiState ks.File rs.File
      → ApiState ks.File rs.File × HandlerResult (NetworkStatus × List WorkerDetail)
  get_network_status now headers =
      admin_only headers λ state. (state, ok (network_status now state))

  unfoldable pub list_keys :
      HashMap Text → ApiState ks.File rs.File → ApiState ks.File rs.File × HandlerResult Value
  list_keys headers = admin_only headers λ state. (
    state,
    ok (
        json
          ((codes "keys", json_array (map key_json (Keys.list_keys ks state.key_manager))) ∷ [])),
  )

  unfoldable pub create_key-at :
      ℕ
      → ℕ
      → Option Value
      → ApiState ks.File rs.File
      → ApiState ks.File rs.File × HandlerResult Value
  create_key-at nanos secs none state = (state, err 400 invalid_json)
  create_key-at nanos secs (some req) state =
      let name = unwrap_or (get_field (codes "name") req >>= as_str) (codes "Sin nombre") in
      let credits = unwrap_or (get_field (codes "credits") req >>= as_u64) 100 in
      let (m, key) = Keys.create_key ks nanos secs name credits state.key_manager in
      (
        record state { key_manager = m },
        ok (json ((codes "status", string (codes "ok")) ∷ (codes "key", string key) ∷ [])),
      )

  unfoldable pub create_key :
      ℕ
      → ℕ
      → HashMap Text
      → Text
      → ApiState ks.File rs.File
      → ApiState ks.File rs.File × HandlerResult Value
  unfolding create_key-at
  create_key nanos secs headers body =
      admin_only headers (create_key-at nanos secs (from_slice body))

  unfoldable pub delete_key :
      HashMap Text
      → Text
      → ApiState ks.File rs.File
      → ApiState ks.File rs.File × HandlerResult Value
  delete_key headers key = admin_only headers λ state.
      let (m, deleted) = Keys.delete_key ks key state.key_manager in
      (
        record state { key_manager = m },
        ok (
            json
              ((codes "status", string (if deleted then codes "ok" else codes "not_found")) ∷ [])),
      )

  unfoldable pub add_key_credits-at :
      Text
      → Option Value
      → ApiState ks.File rs.File
      → ApiState ks.File rs.File × HandlerResult Value
  add_key_credits-at key none state = (state, err 400 invalid_json)
  add_key_credits-at key (some req) state =
      let amount = amount_of req in
      let (m, added) = Keys.add_credits ks key amount state.key_manager in
      let credits = unwrap_or (map_option (λ e. e.credits) (Keys.get_key ks key m)) 0 in
      if amount == 0
      then (state, err 400 (json ((codes "error", string (codes "amount debe ser > 0")) ∷ [])))
      else if added
      then (
        record state { key_manager = m },
        ok (json ((codes "status", string (codes "ok")) ∷ (codes "credits", number credits) ∷ [])),
      )
      else (
        record state { key_manager = m },
        err 404 (json ((codes "error", string (codes "Key no encontrada")) ∷ [])),
      )

  unfoldable pub add_key_credits :
      HashMap Text
      → Text
      → Text
      → ApiState ks.File rs.File
      → ApiState ks.File rs.File × HandlerResult Value
  unfolding add_key_credits-at
  add_key_credits headers key body = admin_only headers (add_key_credits-at key (from_slice body))

  unfoldable pub toggle_key :
      HashMap Text
      → Text
      → ApiState ks.File rs.File
      → ApiState ks.File rs.File × HandlerResult Value
  toggle_key headers key = admin_only headers λ state.
      let (m, toggled) = Keys.toggle_key ks key state.key_manager in
      let enabled = unwrap_or (map_option (λ e. e.enabled) (Keys.get_key ks key m)) false in
      (
        record state { key_manager = m },
        ok (
            if toggled
            then json
                ((codes "status", string (codes "ok")) ∷ (codes "enabled", boolean enabled) ∷ [])
            else json ((codes "status", string (codes "not_found")) ∷ [])),
      )
