-- ===== src/Master/Boot.antt =====
-- With what the master starts, and what it finds when it starts again.
use enjambre_worker.Prelude.{
  ◌<◌, ◌≡◌, refl, ◌∙◌, ap, not, ◌&&◌, Option, none, some, List, [], ◌∷◌, All, any, is_empty, arith,
  ◌>>=◌, u64_mod, Bool-cases, Option-cases, inl, inr, map_option,
}
use enjambre_worker.Prelude.Text.{Text}
use enjambre_worker.Prelude.Maps.{HashMap, get}
use enjambre_worker.Storage.{Storage, IsDurable}
use enjambre_worker.Json.{Value}
use enjambre_worker.Registry.{
  ModelEntry, MasterConfig, WorkerRegistry, WorkerNode, first_model, select_model, is_super,
  get_active_workers, first_tunnel_port,
}
use enjambre_worker.Registry
use enjambre_worker.Registry.Files
use enjambre_worker.Registry.Files.{load_credits}
use enjambre_worker.Registry.Invariant.{IsTable}
use enjambre_worker.Keys.{ApiKey, load}
use enjambre_worker.Keys
use enjambre_worker.Keys.Invariant.{Restarts}
use enjambre_worker.Server.{Server, Steps, Sized, IsValid}
use enjambre_worker.Server.Invariant.{Steps-IsValid}
use enjambre_worker.Server.Restart.{Steps-Restarts}
use enjambre_worker.Master.{
  first_config, load_config, start, credits_path, keys_path, config_paths, default_config,
  Environment, Master, main,
}

select_model-first_model :
    {File : Type 0} (config : MasterConfig) (r : WorkerRegistry File)
    → select_model config r ≡ first_model config.models
unfolding select_model
select_model-first_model config r =
    elim (Bool-cases
      (any (λ w. is_super w.role) (get_active_workers r) && not (is_empty config.models))) [
        | inl y ↦ rw y refl
        | inr n ↦ rw n refl
      ]

first_config-default :
    (read_to_string : Text → Option Text) (from_str : Text → Option MasterConfig) (ps : List Text)
    → All (λ p. read_to_string p >>= from_str ≡ none) ps
    → first_config read_to_string from_str ps ≡ default_config
unfolding first_config
first_config-default read_to_string from_str [] h = refl
first_config-default read_to_string from_str (p ∷ ps) (h, hs) =
    rw (h, first_config) (first_config-default read_to_string from_str ps hs)

module _ (ks : Storage (HashMap ApiKey)) (rs : Storage Value) where
  main-first_model :
      (env : Environment) (exe_dir : Text) (config : MasterConfig) (keys_disk : Option ks.File)
      (credits_disk : Option rs.File)
      → main ks rs env exe_dir config keys_disk credits_disk
        ≡ map_option
            (start ks rs env exe_dir config keys_disk credits_disk)
            (first_model config.models)
  unfolding main
  main-first_model env exe_dir config keys_disk credits_disk =
      rw (select_model-first_model config (Files.new rs (some (credits_path exe_dir)) credits_disk))
        (by_model (first_model config.models))
    where
      by_model :
          (m : Option ModelEntry)
          → (m >>= λ a. some (start ks rs env exe_dir config keys_disk credits_disk a))
            ≡ map_option (start ks rs env exe_dir config keys_disk credits_disk) m
      by_model none = refl
      by_model (some m) = refl

  -- Where none of the three paths has a file that can be read and parsed, the master does not come
  -- to its listeners, although it falls back to a configuration of its own.
  main-load_config :
      (read_to_string : Text → Option Text) (from_str : Text → Option MasterConfig)
      (env : Environment) (exe_dir : Text) (keys_disk : Option ks.File)
      (credits_disk : Option rs.File)
      → All (λ p. read_to_string p >>= from_str ≡ none) (config_paths exe_dir)
      → main ks rs env exe_dir (load_config read_to_string from_str exe_dir) keys_disk credits_disk
        ≡ none
  unfolding load_config
  main-load_config read_to_string from_str env exe_dir keys_disk credits_disk h =
      rw (first_config-default read_to_string from_str (config_paths exe_dir) h)
        (main-first_model env exe_dir default_config keys_disk credits_disk)

  new-IsValid :
      (p : Option Text) (disk : Option rs.File) → Registry.Invariant.IsValid (Files.new rs p disk)
  unfolding Files.new get
  new-IsValid p disk = record {
    table = record { unique = tt; own = λ k w e. cc; named = λ k w e s. cc };
    port = omega arith;
    linked = λ h. cc;
  }

  start-IsValid :
      (env : Environment) (exe_dir : Text) (config : MasterConfig) (keys_disk : Option ks.File)
      (credits_disk : Option rs.File) (m : ModelEntry)
      → Keys.Invariant.IsValid (Keys.new ks (some (keys_path exe_dir)) keys_disk).keys
      → (load_credits rs credits_disk).0 < u64_mod
      → IsValid (start ks rs env exe_dir config keys_disk credits_disk m).api_state
  unfolding start
  start-IsValid env exe_dir config keys_disk credits_disk m keys pool = record {
    registry_IsValid = new-IsValid (some (credits_path exe_dir)) credits_disk;
    keys_IsValid = keys;
    pool_fits = pool;
  }

  start-Restarts :
      (d : IsDurable ks) (env : Environment) (exe_dir : Text) (config : MasterConfig)
      (keys_disk : Option ks.File) (credits_disk : Option rs.File) (m : ModelEntry)
      → Restarts ks d
          (keys_path exe_dir)
          (start ks rs env exe_dir config keys_disk credits_disk m).api_state.key_manager
  unfolding start Keys.new
  start-Restarts d env exe_dir config keys_disk credits_disk m = (refl, refl)

  -- A master that has come up, with valid keys in its file, if any, and a pool that fits 64 bits, is
  -- in a valid state after any steps of its server, where the numbers of a body fit 64 bits. And
  -- where the file of the keys keeps what is written, a master that is started then on the two files
  -- comes up with the same keys and the same active model, and with the pool of the file.
  pub main-Steps :
      (to_str : Text → Option Text) (from_slice : Text → Option Value)
      (header_value : Text → Option Text) (env : Environment) (exe_dir : Text)
      (config : MasterConfig) (keys_disk : Option ks.File) (credits_disk : Option rs.File)
      (b : Master ks.File rs.File) {t : Server ks.File rs.File}
      → main ks rs env exe_dir config keys_disk credits_disk ≡ some b
      → Keys.Invariant.IsValid (Keys.new ks (some (keys_path exe_dir)) keys_disk).keys
      → (load_credits rs credits_disk).0 < u64_mod
      → Sized from_slice
      → IsDurable ks
      → Steps to_str from_slice header_value ks rs config
          (record { api = b.api_state; waiting = [] })
          t
      → (again : Master ks.File rs.File) × IsValid t.api
        × (main ks rs env exe_dir config t.api.key_manager.disk t.api.registry.disk ≡ some again)
        × (again.api_state.key_manager ≡ t.api.key_manager)
        × (again.api_state.model_name ≡ b.api_state.model_name)
        × (again.api_state.credit_pool ≡ (load_credits rs t.api.registry.disk).0)
  main-Steps to_str from_slice header_value env exe_dir config keys_disk credits_disk b {t} e keys
        pool sized d steps =
      elim (Option-cases (first_model config.models)) [
        | inl n ↦
            let stuck : none ≡ some b =
              rw (main-first_model env exe_dir config keys_disk credits_disk, n) at e in
            cc
        | inr (m, y) ↦
            let first = start ks rs env exe_dir config keys_disk credits_disk m in
            let same : some first ≡ some b =
              rw (main-first_model env exe_dir config keys_disk credits_disk, y) at e in
            let came_up : first ≡ b = cc in
            let found : Restarts ks d (keys_path exe_dir) b.api_state.key_manager =
              rw came_up at (start-Restarts d env exe_dir config keys_disk credits_disk m) in
            let again =
              start ks rs env exe_dir config t.api.key_manager.disk t.api.registry.disk m in
            (
              again,
              Steps-IsValid to_str from_slice header_value ks rs config sized steps (
                  rw came_up at
                    (start-IsValid env exe_dir config keys_disk credits_disk m keys pool)),
              main-first_model env exe_dir config t.api.key_manager.disk t.api.registry.disk
                  ∙ ap
                      (map_option
                        (start ks rs env exe_dir config t.api.key_manager.disk t.api.registry.disk))
                      y,
              unfold start in
                  (Steps-Restarts to_str from_slice header_value ks rs config d (keys_path exe_dir)
                    steps found).1,
              unfold start in ap (λ (x : Master ks.File rs.File). x.api_state.model_name) came_up,
              unfold start in refl,
            )
      ]
