-- ===== src/Tests/Server.antt =====
-- The theorem on the steps of the whole server, at the small network.
use enjambre_worker.Heartbeat.{check_heartbeats}
use enjambre_worker.Prelude.{ℕ, ◌<◌, ◌≡◌, refl, [], ◌∷◌, some, arith, u64_mod, ◌>>=◌}
use enjambre_worker.Prelude.Text.{Text, codes, same_text, same_text_iff}
use enjambre_worker.Prelude.Maps.{HashMap, get}
use enjambre_worker.Json.{Value, number, string, find_field, get_field, as_u64}
use enjambre_worker.Keys.{ApiKey, spend, recharge, get_key, validate_key}
use enjambre_worker.Api.{json}
use enjambre_worker.Api.Router.{post_credits, serve}
use enjambre_worker.Keys
use enjambre_worker.Server.{Server, IsValid, Sized, serves, checks, Steps, done, more}
use enjambre_worker.Server.Invariant.{Steps-IsValid}
use enjambre_worker.Tests.Registry.{two_workers-IsValid}
use enjambre_worker.Tests.{
  key_files, credit_files, two_keys, one_config, server, any_text, any_body, admin_headers,
}

two_keys-entries :
    (k : Text) (e : ApiKey) → get k two_keys.keys ≡ some e → Keys.Invariant.IsValidEntry k e
unfolding get
two_keys-entries k e g =
    ground (arith, g, same_text_iff (codes "alice") k, same_text_iff (codes "bob") k)

two_keys-IsValid : Keys.Invariant.IsValid two_keys.keys
unfolding get same_text
two_keys-IsValid = ((refl, (refl, tt)), two_keys-entries)

server-IsValid : IsValid server
server-IsValid = record {
  registry_IsValid = two_workers-IsValid;
  keys_IsValid = two_keys-IsValid;
  pool_fits = omega arith;
}

abbrev three : Value
three = json ((codes "amount", number 3) ∷ (codes "model", string (codes "llama")) ∷ [])

three-Sized : (k : Text) (n : ℕ) → get_field k three >>= as_u64 ≡ some n → n < u64_mod
unfolding find_field
three-Sized k n g = ground (arith, g)

pub any_body-Sized : Sized any_body
any_body-Sized body k v n e g = ground (arith, e, three-Sized k n, g)

abbrev calm : Server (HashMap ApiKey) Value
calm = record { api = server; waiting = [] }

-- A recharge of the pool and a round of the heartbeat check.
abbrev recharged : Server (HashMap ApiKey) Value
recharged = record calm {
  api = (serve any_text any_body key_files credit_files (post_credits []) admin_headers server).0;
}

abbrev checked : Server (HashMap ApiKey) Value
checked = record recharged {
  api = record recharged.api { registry = check_heartbeats 9 recharged.api.registry };
}

two-Steps : Steps any_text any_body any_text key_files credit_files one_config calm checked
two-Steps =
    more (serves (post_credits []) admin_headers calm) (more (checks 9 recharged) (done checked))

Steps-IsValid_example : IsValid checked.api
Steps-IsValid_example =
    Steps-IsValid any_text any_body any_text key_files credit_files one_config any_body-Sized
      two-Steps server-IsValid
