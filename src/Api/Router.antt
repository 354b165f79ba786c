-- ===== src/Api/Router.antt =====
-- The routes of `build_router` of src/api.rs that ask for the administrator's password, and what
-- the guard in front of them does.
use enjambre_worker.Prelude.{
  ℕ, [], Option, none, some, ◌≡◌, refl, ◌≢◌, ◌↔◌, ◌⊎◌, arith, ◌>>=◌, unwrap_or,
}
use enjambre_worker.Prelude.Text.{Text, same_text_iff}
use enjambre_worker.Prelude.Maps.{HashMap, get}
use enjambre_worker.Storage.{Storage}
use enjambre_worker.Json.{Value}
use enjambre_worker.Keys.{ApiKey}
use enjambre_worker.Api.{
  ApiState, HandlerResult, require_admin, admin_key_header, unauthorized, status_of_result,
}
use enjambre_worker.Api.Admin.{
  admin_only, add_credits, get_network_status, list_keys, create_key, delete_key, add_key_credits,
  toggle_key,
}

-- A request, with its body or the key of its path; times for the handlers that read a clock.
pub data AdminCall : Type 0 where
  post_credits : (body : Text) → AdminCall
  get_status : (now : ℕ) → AdminCall
  get_keys : AdminCall
  post_key : (nanos secs : ℕ) (body : Text) → AdminCall
  remove_key : (key : Text) → AdminCall
  post_key_credits : (key body : Text) → AdminCall
  post_toggle : (key : Text) → AdminCall

abbrev pub with_status : {S A : Type 0} → S × HandlerResult A → S × ℕ
with_status (s, r) = (s, status_of_result r)

module _ (to_str : Text → Option Text) (from_slice : Text → Option Value)
    (ks : Storage (HashMap ApiKey)) (rs : Storage Value) where
  -- The state behind a request and the status of its response.
  unfoldable pub serve :
      AdminCall → HashMap Text → ApiState ks.File rs.File → ApiState ks.File rs.File × ℕ
  serve (post_credits body) headers state =
      with_status (add_credits to_str from_slice ks rs headers body state)
  serve (get_status now) headers state =
      with_status (get_network_status to_str from_slice ks rs now headers state)
  serve get_keys headers state = with_status (list_keys to_str from_slice ks rs headers state)
  serve (post_key nanos secs body) headers state =
      with_status (create_key to_str from_slice ks rs nanos secs headers body state)
  serve (remove_key key) headers state =
      with_status (delete_key to_str from_slice ks rs headers key state)
  serve (post_key_credits key body) headers state =
      with_status (add_key_credits to_str from_slice ks rs headers key body state)
  serve (post_toggle key) headers state =
      with_status (toggle_key to_str from_slice ks rs headers key state)

  -- The password that a request carries; the empty one where it has no header that is text.
  abbrev pub provided : HashMap Text → Text
  provided headers = unwrap_or (get admin_key_header headers >>= to_str) []

  -- The guard lets a request pass exactly where there is no password or it carries it.
  require_admin_iff :
      (headers : HashMap Text) (state : ApiState ks.File rs.File)
      → (require_admin to_str state headers ≡ none)
        ↔ ((state.admin_password ≡ []) ⊎ (provided headers ≡ state.admin_password))
  unfolding require_admin
  require_admin_iff headers state =
      ground (arith, same_text_iff (provided headers) state.admin_password)

  require_admin_refused :
      (headers : HashMap Text) (state : ApiState ks.File rs.File)
      → state.admin_password ≢ []
      → provided headers ≢ state.admin_password
      → require_admin to_str state headers ≡ some (401, unauthorized)
  unfolding require_admin
  require_admin_refused headers state p n =
      ground (arith, same_text_iff (provided headers) state.admin_password)

  -- Without the password, where there is one, every request of the administrator's is answered with
  -- 401 and changes nothing: no pool, key, worker or file.
  pub serve_unauthorized :
      (c : AdminCall) (headers : HashMap Text) (state : ApiState ks.File rs.File)
      → state.admin_password ≢ []
      → provided headers ≢ state.admin_password
      → serve c headers state ≡ (state, 401)
  unfolding serve add_credits get_network_status list_keys create_key delete_key add_key_credits
      toggle_key
  serve_unauthorized c headers state p n =
      let e = require_admin_refused headers state p n in by_call c (401, unauthorized) e
    where
      by_call :
          (c : AdminCall) (sv : ℕ × Value)
          → require_admin to_str state headers ≡ some sv
          → serve c headers state ≡ (state, sv.0)
      by_call (post_credits body) sv e = rw (admin_only, with_status, e) refl
      by_call (get_status now) sv e = rw (admin_only, with_status, e) refl
      by_call get_keys sv e = rw (admin_only, with_status, e) refl
      by_call (post_key nanos secs body) sv e = rw (admin_only, with_status, e) refl
      by_call (remove_key key) sv e = rw (admin_only, with_status, e) refl
      by_call (post_key_credits key body) sv e = rw (admin_only, with_status, e) refl
      by_call (post_toggle key) sv e = rw (admin_only, with_status, e) refl
