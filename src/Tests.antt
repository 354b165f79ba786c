-- ===== src/Tests.antt =====
-- A small network for the tests: two workers, two keys, and the server that knows them.
mod Keys
mod Registry
mod Connection
mod Stream
mod Client
mod Heartbeats
mod Worker
mod Api
mod Server
mod Process
mod Console
mod Files
mod Master
mod Run
mod Network
use enjambre_worker.Prelude.{ℕ, Bool, true, false, List, [], ◌∷◌, ◌++◌, Option, none, some}
use enjambre_worker.Prelude.Text.{Text, codes}
use enjambre_worker.Prelude.Maps.{HashMap}
use enjambre_worker.Storage.{Storage, plain_storage}
use enjambre_worker.Json.{Value, number, string}
use enjambre_worker.Keys.{ApiKey, KeyManager}
use enjambre_worker.Registry.{
  super_node, gpu_provider, Role, WorkerNode, WorkerRegistry, ModelEntry, MasterConfig,
}
use enjambre_worker.Api.{ApiState, json}

abbrev pub key_files : Storage (HashMap ApiKey)
key_files = plain_storage (HashMap ApiKey)

abbrev pub credit_files : Storage Value
credit_files = plain_storage Value

abbrev pub alice : ApiKey
alice = record {
  key = codes "alice";
  name = codes "Alice";
  credits = 2;
  enabled = true;
  created_at = codes "10";
}

abbrev pub bob : ApiKey
bob = record {
  key = codes "bob";
  name = codes "Bob";
  credits = 5;
  enabled = false;
  created_at = codes "20";
}

abbrev pub two_keys : KeyManager (HashMap ApiKey)
two_keys = record {
  keys = (codes "alice", alice) ∷ (codes "bob", bob) ∷ [];
  path = some (codes "keys.json");
  disk = none;
}

abbrev pub worker : Text → Role → ℕ → ℕ → WorkerNode
worker id role port last_ping = record {
  id = id;
  role = role;
  addr = id ++ codes ":8090";
  rpc_port = 8090;
  tunnel_port = port;
  vram_mb = 8192;
  vram_free_mb = 8192;
  ram_mb = 16384;
  ram_free_mb = 16384;
  cpu_cores = 8;
  has_gpu = true;
  last_ping = last_ping;
  credits = 7;
}

abbrev pub big : WorkerNode
big = worker (codes "big") super_node 0 0

abbrev pub small : WorkerNode
small = worker (codes "small") gpu_provider 18000 200000000000

abbrev pub two_workers : WorkerRegistry Value
two_workers = record {
  workers = (codes "big", big) ∷ (codes "small", small) ∷ [];
  version = 3;
  super_node_id = some (codes "big");
  last_slave_list = [];
  tunnel_port_allocator = 18001;
  credits_file = some (codes "credits.json");
  saved_worker_credits = [];
  super_node_cmd_tx = some 0;
  disk = none;
}

abbrev pub one_model : ModelEntry
one_model = record {
  name = codes "llama";
  url = codes "https://host/llama.gguf";
  total_layers = 28;
}

abbrev pub one_config : MasterConfig
one_config = record {
  models = one_model ∷ [];
  public_ip = codes "0.0.0.0";
  admin_password = codes "secret";
}

abbrev pub server : ApiState (HashMap ApiKey) Value
server = record {
  model_name = codes "llama";
  models = codes "llama" ∷ [];
  relay_addr = codes "relay:9000";
  registry = two_workers;
  credit_pool = 10;
  key_manager = two_keys;
  worker_bin_path = none;
  admin_password = codes "secret";
}

-- Every header is text, every body is the same request, every text a header's value.
abbrev pub any_text : Text → Option Text
any_text t = some t

abbrev pub any_body : Text → Option Value
any_body t = some (json ((codes "amount", number 3) ∷ (codes "model", string (codes "llama")) ∷ []))

abbrev pub alice_headers : HashMap Text
alice_headers = (codes "authorization", codes "Bearer alice") ∷ []

abbrev pub admin_headers : HashMap Text
admin_headers = (codes "x-admin-key", codes "secret") ∷ []
