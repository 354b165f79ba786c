-- ===== src/Tests/Master.antt =====
-- The master's start at a small configuration.
use enjambre_worker.Prelude.{◌<◌, ◌≡◌, refl, [], ◌∷◌, none, some, arith, u64_mod}
use enjambre_worker.Prelude.Text.{Text, codes}
use enjambre_worker.Prelude.Maps.{HashMap, get, values}
use enjambre_worker.Storage.{plain_storage-IsDurable}
use enjambre_worker.Json.{Value}
use enjambre_worker.Registry.{select_model, get_active_workers}
use enjambre_worker.Registry.Files
use enjambre_worker.Registry.Files.{load_credits}
use enjambre_worker.Heartbeat.{check_heartbeats}
use enjambre_worker.Keys.{ApiKey}
use enjambre_worker.Keys
use enjambre_worker.Server.{Server, IsValid, checks, Steps, done, more}
use enjambre_worker.Master.{Environment, Master, main, start, keys_path}
use enjambre_worker.Master.Boot.{main-Steps}
use enjambre_worker.Tests.Server.{any_body-Sized}
use enjambre_worker.Tests.{key_files, credit_files, one_config, one_model, any_text, any_body}

abbrev environment : Environment
environment = record {
  args = codes "master" ∷ codes "7500" ∷ [];
  master_http_port = none;
  master_tunnel_port = some (codes "7100");
}

abbrev home : Text
home = codes "/home/ubuntu"

abbrev booted : Master (HashMap ApiKey) Value
booted = start key_files credit_files environment home one_config none none one_model

booted-main : main key_files credit_files environment home one_config none none ≡ some booted
unfolding main select_model get_active_workers Files.new values
booted-main = refl

abbrev fresh : Server (HashMap ApiKey) Value
fresh = record { api = booted.api_state; waiting = [] }

abbrev checked : Server (HashMap ApiKey) Value
checked = record fresh {
  api = record fresh.api { registry = check_heartbeats 9 fresh.api.registry };
}

one_Step : Steps any_text any_body any_text key_files credit_files one_config fresh checked
one_Step = more (checks 9 fresh) (done checked)

no_keys-IsValid : Keys.Invariant.IsValid (Keys.new key_files (some (keys_path home)) none).keys
unfolding Keys.new get
no_keys-IsValid = (tt, λ k e g. cc)

pool_fits : (load_credits credit_files none).0 < u64_mod
unfolding load_credits
pool_fits = omega arith

main-Steps_example :
    (again : Master (HashMap ApiKey) Value) × IsValid checked.api
    × (main key_files credit_files environment home one_config checked.api.key_manager.disk
          checked.api.registry.disk
        ≡ some again)
    × (again.api_state.key_manager ≡ checked.api.key_manager)
    × (again.api_state.model_name ≡ booted.api_state.model_name)
    × (again.api_state.credit_pool ≡ (load_credits credit_files checked.api.registry.disk).0)
main-Steps_example =
    main-Steps key_files credit_files any_text any_body any_text environment home one_config none
      none booted booted-main no_keys-IsValid pool_fits any_body-Sized
      (plain_storage-IsDurable (HashMap ApiKey)) one_Step
