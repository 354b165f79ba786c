-- ===== src/Master.antt =====
-- The master's binary, src/bin/master.rs: its configuration, its addresses and the state with which
-- it starts. What the process is given, the files and the TOML parser are arguments.
pub mod Boot
use enjambre_worker.Prelude.{
  ℕ, Bool, true, false, List, [], ◌∷◌, ◌++◌, Option, none, some, map, ◌>>=◌, unwrap_or, ◌-◌,
  u16_mod,
}
use enjambre_worker.Prelude.Text.{Text, codes}
use enjambre_worker.Prelude.Decimal.{to_decimal, parse_uint}
use enjambre_worker.Prelude.Maps.{HashMap}
use enjambre_worker.Storage.{Storage}
use enjambre_worker.Json.{Value}
use enjambre_worker.Registry.{ModelEntry, MasterConfig, WorkerRegistry, select_model}
use enjambre_worker.Registry.Files
use enjambre_worker.Registry.Files.{load_credits}
use enjambre_worker.Keys.{ApiKey}
use enjambre_worker.Keys
use enjambre_worker.Api.{ApiState}

-- `exe_dir.join(name)`, on the system of the master.
abbrev in_dir : Text → Text → Text
in_dir dir name = dir ++ b'/' ∷ name

abbrev default_public_ip : Text
default_public_ip = codes "0.0.0.0"

-- The configuration where no file gives one.
abbrev pub default_config : MasterConfig
default_config = record { models = []; public_ip = default_public_ip; admin_password = [] }

abbrev pub config_paths : Text → List Text
config_paths exe_dir =
    in_dir exe_dir (codes "config.toml")
    ∷ in_dir exe_dir (codes "master-config.toml")
    ∷ codes "config.toml"
    ∷ []

module _ (read_to_string : Text → Option Text) (from_str : Text → Option MasterConfig) where
  -- The loop over the paths: a file that cannot be read or parsed is passed over.
  unfoldable pub first_config : List Text → MasterConfig
  first_config [] = default_config
  first_config (p ∷ ps) = elim (do content ← read_to_string p; from_str content) [
    | some cfg ↦ cfg
    | none ↦ first_config ps
  ]

  unfoldable pub load_config : Text → MasterConfig
  unfolding first_config
  load_config exe_dir = first_config (config_paths exe_dir)

-- The arguments of the process, and the two variables of its environment that are read.
pub record Environment : Type 0 where
  pub args : List Text
  pub master_http_port : Option Text
  pub master_tunnel_port : Option Text

abbrev pub second : List Text → Option Text
second (a ∷ b ∷ rest) = some b
second _ = none

unfoldable pub port : Environment → ℕ
port env = unwrap_or (second env.args >>= parse_uint (u16_mod - 1)) 7001

unfoldable pub tunnel_port : Environment → ℕ
tunnel_port env = unwrap_or (env.master_tunnel_port >>= parse_uint (u16_mod - 1)) 7000

unfoldable pub worker_addr : Environment → Text
worker_addr env = codes "0.0.0.0:" ++ to_decimal (port env)

unfoldable pub http_addr : Environment → Text
http_addr env = codes "0.0.0.0:" ++ unwrap_or env.master_http_port (codes "8081")

unfoldable pub relay_addr : MasterConfig → Environment → Text
relay_addr config env = config.public_ip ++ b':' ∷ to_decimal (tunnel_port env)

-- What the two listeners are bound to, and the state that they share.
pub record Master (KeyFile CreditsFile : Type 0) : Type 0 where
  pub tcp_listener : Text
  pub http_listener : Text
  pub api_state : ApiState KeyFile CreditsFile

unfoldable pub credits_path : Text → Text
credits_path exe_dir = in_dir exe_dir (codes "credits.json")

unfoldable pub keys_path : Text → Text
keys_path exe_dir = in_dir exe_dir (codes "keys.json")

module _ (ks : Storage (HashMap ApiKey)) (rs : Storage Value) where
  -- The state of the API with its active model, from what the files of the keys and of the credits
  -- hold.
  unfoldable pub start :
      Environment
      → Text
      → MasterConfig
      → Option ks.File
      → Option rs.File
      → ModelEntry
      → Master ks.File rs.File
  unfolding worker_addr http_addr relay_addr
  start env exe_dir config keys_disk credits_disk active_model = record {
    tcp_listener = worker_addr env;
    http_listener = http_addr env;
    api_state = record {
      model_name = active_model.name;
      models = map (λ m. m.name) config.models;
      relay_addr = relay_addr config env;
      registry = Files.new rs (some (credits_path exe_dir)) credits_disk;
      credit_pool = (load_credits rs credits_disk).0;
      key_manager = Keys.new ks (some (keys_path exe_dir)) keys_disk;
      worker_bin_path = some (codes "/home/ubuntu/worker-node.exe");
      admin_password = config.admin_password;
    };
  }

  -- `main` up to the listeners; none where it panics for want of a model.
  unfoldable pub main :
      Environment
      → Text
      → MasterConfig
      → Option ks.File
      → Option rs.File
      → Option (Master ks.File rs.File)
  unfolding start
  main env exe_dir config keys_disk credits_disk = do
    active_model ← select_model config (Files.new rs (some (credits_path exe_dir)) credits_disk)
    some (start env exe_dir config keys_disk credits_disk active_model)
