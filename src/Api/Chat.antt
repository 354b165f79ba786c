-- ===== src/Api/Chat.antt =====
-- `chat_completions` of src/api.rs: who may ask, the exchange with the relay, and what a success
-- costs. Requests run at once: what admits one and what answers it are two steps.
pub mod Cost
pub mod Saved
pub mod Stream
pub mod Request
use enjambre_worker.Prelude.{
  ℕ, ◌+◌, ◌-◌, ◌%◌, Bool, true, false, List, [], ◌∷◌, ◌++◌, ◌&&◌, Option, none, some, length,
  is_empty, if◌then◌else◌, ◌>>=◌, map_option, map, leb, ltb, ◌==◌, u64_mod,
}
use enjambre_worker.Prelude.Text.{Text, codes, trim, strip_prefix, same_text}
use enjambre_worker.Prelude.Decimal.{to_decimal}
use enjambre_worker.Prelude.Maps.{HashMap, get}
use enjambre_worker.Storage.{Storage}
use enjambre_worker.Json.{Value, string, number, get_field, as_str}
use enjambre_worker.Registry.Files.{add_credits_to_super_node}
use enjambre_worker.Keys.{ApiKey, validate_key, deduct_credit}
use enjambre_worker.Http.{
  Read, chunk, read_failed, Buffer, filled, failed, read_headers, cut_headers, Head, parse_head,
  to_status,
}
use enjambre_worker.Api.{
  ApiState, HandlerResult, ok, err, json, json_array, error_json, invalid_json,
}

-- What becomes of the connection to the relay within 300 seconds.
pub data Connect : Type 0 where
  timed_out : Connect
  refused : Text → Connect
  connected : Connect

-- The relay's part: the connection, an error of the write, and what the reads bring.
pub record Exchange : Type 0 where
  pub connect : Connect
  pub write_error : Option Text
  pub reads : List Read

-- `body` is the stream that the client gets.
pub record Response : Type 0 where
  pub status : ℕ
  pub content_type : Text
  pub body : List Read

-- `HeaderValue::from_str(..).unwrap()` panics on a text that is no header value.
pub data Outcome : Type 0 where
  response : Response → Outcome
  rejected : (status : ℕ) → Value → Outcome
  panicked : Outcome

-- The request as it is written to the relay.
unfoldable pub full_request : Text → Text → Text
full_request relay_addr body =
    codes "POST /v1/chat/completions HTTP/1.1\r\nHost: "
    ++ (relay_addr
        ++ (codes "\r\nContent-Type: application/json\r\nContent-Length: "
            ++ (to_decimal (length body) ++ (codes "\r\nConnection: close\r\n\r\n" ++ body))))

abbrev pub upstream_error : Text → Value
upstream_error message = error_json message (codes "upstream_error") []

-- The task that forwards the reads up to the end of the stream or its first error.
unfoldable pub forward : List Read → List Read
forward [] = []
forward (read_failed e ∷ reads) = read_failed e ∷ []
forward (chunk bytes ∷ reads) =
    let rest = forward reads in if is_empty bytes then [] else chunk bytes ∷ rest

-- The body: what was read behind the headers, if anything, and what is still to come.
unfoldable pub body_stream : Text → List Read → List Read
body_stream leftover reads =
    let later = forward reads in if is_empty leftover then later else chunk leftover ∷ later

-- `status_code >= 200 && status_code < 300`
abbrev pub is_success : ℕ → Bool
is_success code = leb 200 code && ltb code 300

module _ (to_str : Text → Option Text) (from_slice : Text → Option Value)
    (header_value : Text → Option Text) (ks : Storage (HashMap ApiKey)) (rs : Storage Value) where
  -- The key behind `Authorization: Bearer`.
  unfoldable pub api_key : HashMap Text → Option Text
  api_key headers = do
    v ← get (codes "authorization") headers
    t ← to_str v
    s ← strip_prefix (codes "Bearer ") t
    some (trim s)

  check_pool : ApiKey → ApiState ks.File rs.File → HandlerResult ApiKey
  check_pool key state =
      if state.credit_pool == 0
      then err 402 (
          error_json (codes "Créditos insuficientes. Contacta al administrador para recargar.")
            (codes "insufficient_credits") ((codes "credits_remaining", number 0) ∷ []))
      else ok key

  abbrev wrong_model : Text → ApiState ks.File rs.File → Value
  wrong_model requested state =
      error_json
        (codes "Modelo '"
          ++ (requested
              ++ (codes "' no disponible. Modelo activo: "
                  ++ (state.model_name ++ codes ". Cambia el modelo desde el admin panel."))))
        (codes "model_not_available")
        ((codes "available_models", json_array (map (λ t. string t) state.models)) ∷ [])

  check_model : Option Text → ApiKey → ApiState ks.File rs.File → HandlerResult ApiKey
  unfolding check_pool
  check_model none key state = check_pool key state
  check_model (some requested) key state =
      if same_text requested state.model_name
      then check_pool key state
      else err 404 (wrong_model requested state)

  check_body : Option Value → ApiKey → ApiState ks.File rs.File → HandlerResult ApiKey
  unfolding check_model
  check_body none key state = err 400 invalid_json
  check_body (some body_value) key state =
      check_model (get_field (codes "model") body_value >>= as_str) key state

  -- What a request must pass before the relay is asked: it gives the key's entry.
  unfoldable pub admit : HashMap Text → Text → ApiState ks.File rs.File → HandlerResult ApiKey
  unfolding check_body
  admit headers body state = elim (do k ← api_key headers; validate_key ks k state.key_manager) [
    | none ↦ err 401 (
        error_json
          (codes "API key inválida o sin créditos. Usa header: Authorization: Bearer sk-enj-...")
          (codes "invalid_api_key") [])
    | some key ↦ check_body (from_slice body) key state
  ]

  -- What a success costs: one credit of the pool (`fetch_sub`, which wraps), for the super node,
  -- and one of the key, as they are now.
  unfoldable pub charge : ApiKey → ApiState ks.File rs.File → ApiState ks.File rs.File
  charge key state =
      let pool = (state.credit_pool + (u64_mod - 1)) % u64_mod in
      record state {
        credit_pool = pool;
        registry = (add_credits_to_super_node rs 1 pool state.registry).0;
        key_manager = (deduct_credit ks key.key state.key_manager).0;
      }

  -- The response, with the content type that the relay gave.
  abbrev pub respond : Head → Text → List Read → Outcome
  respond head leftover reads = elim (header_value head.content_type) [
    | none ↦ panicked
    | some v ↦ response (record {
      status = to_status head.status_code;
      content_type = v;
      body = body_stream leftover reads;
    })
  ]

  settle :
      ApiKey
      → Head
      → Text
      → List Read
      → ApiState ks.File rs.File
      → ApiState ks.File rs.File × Outcome
  settle key head leftover reads state =
      let paid = charge key state in
      (if is_success head.status_code then paid else state, respond head leftover reads)

  answer_head :
      ApiKey
      → Option (Text × Text)
      → List Read
      → ApiState ks.File rs.File
      → ApiState ks.File rs.File × Outcome
  unfolding settle
  answer_head key none reads state =
      (state, rejected 502 (upstream_error (codes "Respuesta del relay sin fin de headers")))
  answer_head key (some (header_block, leftover)) reads state =
      settle key (parse_head header_block) leftover reads state

  answer_buffer : ApiKey → Buffer → ApiState ks.File rs.File → ApiState ks.File rs.File × Outcome
  unfolding answer_head
  answer_buffer key (failed e) state =
      (state, rejected 502 (upstream_error (codes "Error leyendo respuesta del relay: " ++ e)))
  answer_buffer key (filled relay_buf reads) state =
      answer_head key (cut_headers relay_buf) reads state

  answer_written :
      ApiKey
      → Option Text
      → List Read
      → ApiState ks.File rs.File
      → ApiState ks.File rs.File × Outcome
  unfolding answer_buffer
  answer_written key (some e) reads state =
      (state, rejected 502 (upstream_error (codes "Error enviando petición al relay: " ++ e)))
  answer_written key none reads state = answer_buffer key (read_headers reads []) state

  answer_connected :
      ApiKey → Connect → Exchange → ApiState ks.File rs.File → ApiState ks.File rs.File × Outcome
  unfolding answer_written
  answer_connected key timed_out x state = (
    state,
    rejected 504 (upstream_error (codes "Timeout conectando al relay " ++ state.relay_addr)),
  )
  answer_connected key (refused e) x state = (
    state,
    rejected 502 (
        upstream_error
          (codes "Error conectando al relay " ++ (state.relay_addr ++ (codes ": " ++ e)))),
  )
  answer_connected key connected x state = answer_written key x.write_error x.reads state

  -- From the connection to the relay on.
  unfoldable pub answer :
      ApiKey → Exchange → ApiState ks.File rs.File → ApiState ks.File rs.File × Outcome
  unfolding answer_connected
  answer key x state = answer_connected key x.connect x state

  answer_admitted :
      HandlerResult ApiKey
      → Exchange
      → ApiState ks.File rs.File
      → ApiState ks.File rs.File × Outcome
  answer_admitted (err status v) x state = (state, rejected status v)
  answer_admitted (ok key) x state = answer key x state

  -- A request that no other one interrupts.
  unfoldable pub chat_completions :
      HashMap Text → Text → Exchange → ApiState ks.File rs.File → ApiState ks.File rs.File × Outcome
  unfolding answer_admitted
  chat_completions headers body x state = answer_admitted (admit headers body state) x state
