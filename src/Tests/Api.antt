-- ===== src/Tests/Api.antt =====
-- The theorems on the interface, at the small network.
use enjambre_worker.Prelude.{
  ◌+◌, ◌-◌, ◌≤◌, ◌≡◌, refl, ◌≢◌, ◌↔◌, ◌⊎◌, suc, [], ◌∷◌, List, none, some, arith, map, u64_mod,
}
use enjambre_worker.Prelude.Text.{Text, codes, same_text}
use enjambre_worker.Prelude.Maps.{HashMap, get, total}
use enjambre_worker.Json.{Value}
use enjambre_worker.Keys.{ApiKey, spend, get_key, validate_key}
use enjambre_worker.Http.{Read, chunk, cut_headers, parse_head, to_status}
use enjambre_worker.Http.Chunks.{whole}
use enjambre_worker.Api.{ApiState, ok}
use enjambre_worker.Api.Router.{remove_key, serve, serve_unauthorized, provided}
use enjambre_worker.Api.Chat.{
  Exchange, connected, response, api_key, admit, answer, charge, chat_completions,
}
use enjambre_worker.Api.Chat.Cost.{
  Succeeds, Fails, AsksFor, admit_iff, chat_completions_lem, charge_lem, charge_all, charge_all_lem,
}
use enjambre_worker.Api.Chat.Stream.{bytes_of, answer-whole}
use enjambre_worker.Tests.{
  key_files, credit_files, alice, two_keys, big, two_workers, server, any_text, any_body,
  alice_headers,
}

alice_valid : validate_key key_files (codes "alice") two_keys ≡ some alice
unfolding validate_key get same_text
alice_valid = refl

big_there : get (codes "big") two_workers.workers ≡ some big
unfolding get same_text
big_there = refl

charge_lem_example :
    let state' = charge any_text any_body any_text key_files credit_files alice server in
    (get_key key_files (codes "alice") state'.key_manager ≡ some (spend alice))
    × (state'.credit_pool + 1 ≡ 10)
    × (state'.credit_pool + total (λ w. w.credits) state'.registry.workers
        ≡ 10 + total (λ w. w.credits) two_workers.workers)
charge_lem_example =
    charge_lem any_text any_body any_text key_files credit_files alice (codes "big") big server
      alice_valid (omega arith) (omega arith) refl big_there (omega arith)

admit_iff_example :
    (admit any_text any_body any_text key_files credit_files alice_headers [] server ≡ ok alice) ↔ (
      (k : Text) × (api_key any_text any_body any_text key_files credit_files alice_headers
        ≡ some k)
      × (validate_key key_files k two_keys ≡ some alice)
      × AsksFor any_text any_body any_text key_files credit_files (codes "llama") []
      × (server.credit_pool ≢ 0))
admit_iff_example =
    admit_iff any_text any_body any_text key_files credit_files alice_headers [] alice server

-- What the relay answers, in two reads.
abbrev reads : List Text
reads = codes "HTTP/1.1 200 OK\r" ∷ codes "\n\r\nhello" ∷ []

abbrev exchange : Exchange
exchange = record { connect = connected; write_error = none; reads = map (λ c. chunk c) reads }

chat_completions_lem_example :
    let (state', out) =
      chat_completions any_text any_body any_text key_files credit_files alice_headers [] exchange
        server in
    ((e : ApiKey) × (admit any_text any_body any_text key_files credit_files alice_headers [] server
        ≡ ok e)
      × (state' ≡ charge any_text any_body any_text key_files credit_files e server)
      × Succeeds out)
    ⊎ ((state' ≡ server) × Fails out)
chat_completions_lem_example =
    chat_completions_lem any_text any_body any_text key_files credit_files alice_headers [] exchange
      server

cut : cut_headers (whole reads) ≡ some (codes "HTTP/1.1 200 OK", codes "hello")
unfolding cut_headers
cut = refl

answer-whole_example :
    (body : List Read) × ((answer any_text any_body any_text key_files credit_files alice exchange
        server).1
      ≡ response (record {
        status = to_status (parse_head (codes "HTTP/1.1 200 OK")).status_code;
        content_type = (parse_head (codes "HTTP/1.1 200 OK")).content_type;
        body = body;
      }))
    × (bytes_of body ≡ codes "hello")
answer-whole_example =
    answer-whole any_text any_body any_text key_files credit_files alice reads
      (codes "HTTP/1.1 200 OK") (codes "hello") (parse_head (codes "HTTP/1.1 200 OK")).content_type
      server (refl, (refl, tt)) cut refl

-- Two requests at a pool of one credit.
abbrev last_credit : ApiState (HashMap ApiKey) Value
last_credit = record server { credit_pool = 1 }

charge_all_lem_example :
    let pool' =
      (charge_all any_text any_body any_text key_files credit_files
        (alice ∷ alice ∷ [])
        last_credit).credit_pool in
    (2 ≤ 1 → pool' + 2 ≡ 1) × (2 ≡ suc 1 → pool' ≡ u64_mod - 1)
charge_all_lem_example =
    charge_all_lem any_text any_body any_text key_files credit_files (alice ∷ alice ∷ [])
      last_credit (omega arith) (omega arith)

no_password : provided any_text any_body key_files credit_files [] ≢ server.admin_password
unfolding get
no_password = ground arith

not_empty : server.admin_password ≢ []
not_empty = ground arith

serve_unauthorized_example :
    serve any_text any_body key_files credit_files (remove_key (codes "alice")) [] server
    ≡ (server, 401)
serve_unauthorized_example =
    serve_unauthorized any_text any_body key_files credit_files (remove_key (codes "alice")) []
      server not_empty no_password
