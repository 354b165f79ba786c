-- ===== src/Client.antt =====
-- The worker's side of the connection with the master: `start_master_connection` of src/client.rs.
-- The network, the download and the channels enter as what came of each attempt.
pub mod Lines
pub mod RoundTrip
pub mod Greeting
pub mod Pong
pub mod Rounds
pub mod Heartbeats
pub mod Identity
pub mod Registration
pub mod Memory
use enjambre_worker.Prelude.{
  ℕ, ◌-◌, Bool, true, false, not, List, [], ◌∷◌, ◌++◌, Option, none, some, length, ltb, is_empty,
  if◌then◌else◌, ◌>>=◌, unwrap_or, map_option, u16_mod, u32_mod, u64_mod, ◌==◌,
}
use enjambre_worker.Prelude.Text.{Text, codes, trim, split, join, strip_prefix, starts_with}
use enjambre_worker.Prelude.Decimal.{parse_uint}
use enjambre_worker.Reader.{read_line}

pub data WorkerRole : Type 0 where
  consumer super_node gpu_provider : WorkerRole

pub record ModelConfig : Type 0 where
  pub role : WorkerRole
  pub name : Text
  pub url : Text
  pub total_layers : ℕ
  pub tunnel_port : ℕ
  pub worker_id : Text

-- The text behind a prefix that it starts with.
abbrev pub after : Text → Text → Text
after p s = unwrap_or (strip_prefix p s) []

-- `parts[0]`, `parts.last()` and, behind the first part, all but the last.
abbrev pub first : List Text → Text
first [] = []
first (p ∷ ps) = p

unfoldable pub last : List Text → Option Text
last [] = none
last (p ∷ []) = some p
last (p ∷ q ∷ ps) = last (q ∷ ps)

unfoldable pub but_last : List Text → List Text
but_last [] = []
but_last (p ∷ []) = []
but_last (p ∷ q ∷ ps) = p ∷ but_last (q ∷ ps)

abbrev pub middle : List Text → List Text
middle [] = []
middle (p ∷ ps) = but_last ps

-- The name is the first part, the layers are the last one, and the URL is what stands between.
unfoldable pub super_node_config : Text → List Text → Option ModelConfig
unfolding last but_last
super_node_config worker_id parts =
    if ltb (length parts) 3
    then none
    else some (record {
      role = super_node;
      name = first parts;
      url = join b':' (middle parts);
      total_layers = unwrap_or (last parts >>= parse_uint (u32_mod - 1)) 28;
      tunnel_port = 0;
      worker_id = worker_id;
    })

unfoldable pub parse_super_node : Text → Text → Option ModelConfig
unfolding super_node_config
parse_super_node worker_id rest = super_node_config worker_id (split b':' rest)

abbrev pub plain_config : Text → WorkerRole → ℕ → ModelConfig
plain_config worker_id role port = record {
  role = role;
  name = [];
  url = [];
  total_layers = 0;
  tunnel_port = port;
  worker_id = worker_id;
}

unfoldable pub parse_gpu_provider : Text → Text → ModelConfig
parse_gpu_provider worker_id trimmed =
    let port_str = trim (after (codes "INIT_MODEL:GPU_PROVIDER:") (trim trimmed)) in
    plain_config worker_id gpu_provider (unwrap_or (parse_uint (u16_mod - 1) port_str) 0)

-- The answer to the registration; none where the worker tries again.
unfoldable pub parse_init : Text → Text → Option ModelConfig
unfolding parse_super_node parse_gpu_provider
parse_init worker_id response =
    let trimmed = trim response in
    if not (starts_with (codes "INIT_MODEL:") trimmed)
    then none
    else if starts_with (codes "INIT_MODEL:SUPER_NODE:") trimmed
    then parse_super_node worker_id (after (codes "INIT_MODEL:SUPER_NODE:") trimmed)
    else if starts_with (codes "INIT_MODEL:CONSUMER") trimmed
    then some (plain_config worker_id consumer 0)
    else if starts_with (codes "INIT_MODEL:GPU_PROVIDER:") trimmed
    then some (parse_gpu_provider worker_id trimmed)
    else none

-- What came of one round of the outer loop up to the configuration: no connection, no registration,
-- no answer, or an answer, with whether the model could be downloaded.
pub data Attempt : Type 0 where
  connect_error register_error no_answer : Attempt
  answered : Text → (downloaded : Bool) → Attempt

abbrev pub download_needed : WorkerRole → Bool
download_needed super_node = true
download_needed _ = false

unfoldable pub handshake : Text → Attempt → Option ModelConfig
unfolding parse_init
handshake worker_id (answered response downloaded) = do
  config ← parse_init worker_id response
  if download_needed config.role then (if downloaded then some config else none) else some config
handshake worker_id _ = none

-- Whether the sender to `main` is still there, and what has been sent on it.
pub record Signal : Type 0 where
  pub ready_tx : Bool
  pub sent : List ModelConfig

unfoldable pub signal : ModelConfig → Signal → Signal
signal config s =
    if s.ready_tx then record { ready_tx = false; sent = s.sent ++ config ∷ [] } else s

-- The rounds of the outer loop, one after the other.
unfoldable pub attempts : Text → List Attempt → Signal → Signal
attempts worker_id [] s = s
attempts worker_id (a ∷ as') s =
    attempts worker_id as'
      (elim (handshake worker_id a) [ none ↦ s | some config ↦ signal config s ])

-- What a heartbeat's answer brings: credits to store and slaves to pass on.
pub record News : Type 0 where
  pub credits : Option ℕ
  pub slaves : Option Text

abbrev pub slaves_of : Option Text → Option Text
slaves_of none = none
slaves_of (some extra) = strip_prefix (codes "UPDATE_SLAVES:") (trim extra)

-- `extra` is the line that follows within 100 ms, if there is one.
abbrev pub news_of : Text → Option Text → News
news_of first extra =
    if starts_with (codes "PONG") first
    then record {
      credits = strip_prefix (codes "PONG:CREDITS=") first >>= parse_uint (u64_mod - 1);
      slaves = slaves_of extra;
    }
    else elim (strip_prefix (codes "PONG:UPDATE_SLAVES:") first) [
      | some slaves ↦ record { credits = none; slaves = some slaves }
      | none ↦ record { credits = none; slaves = strip_prefix (codes "UPDATE_SLAVES:") first }
    ]

unfoldable pub read_news : Text → Option Text → News
read_news response extra = news_of (trim response) extra

-- The two reads behind a `PING`, from what the master has written by then.
unfoldable pub read_answer : Text → News
read_answer written =
    let (response, rest) = read_line written in
    let (extra, more) = read_line rest in
    read_news response (if is_empty extra then none else some extra)
