-- ===== src/Hardware.antt =====
-- src/hardware.rs: what the worker knows of its machine, from the output of nvidia-smi and the
-- registry of Windows, and the arguments of the programs that it runs.
use enjambre_worker.Prelude.{
  ℕ, ◌-◌, ◌/◌, ◌≤◌, ◌*◌, ◌≡◌, refl, sym, ◌∙◌, ◌⊎◌, inl, inr, Bool, true, false, List, [], ◌∷◌, ◌++◌,
  Option, none, some, map, ltb, if◌then◌else◌, ◌>>=◌, Bool-cases, unwrap_or, arith, u64_mod,
}
use enjambre_worker.Prelude.Text.{Text, codes, trim, split}
use enjambre_worker.Prelude.Decimal.{parse_uint, to_decimal}
use enjambre_worker.Http.{words_from}
use enjambre_worker.Http.Utf8.{from_utf8_lossy}

pub record HardwareInfo : Type 0 where
  pub has_nvidia_gpu : Bool
  pub nvidia_gpu_name : Option Text
  pub vram_mib : Option ℕ
  pub cpu_cores : ℕ
  pub used_threads : ℕ

abbrev max_with_one : ℕ → ℕ
max_with_one n = if ltb n 1 then 1 else n

-- `parallelism` is what `available_parallelism` gives.
unfoldable pub default_info : Option ℕ → HardwareInfo
default_info parallelism =
    let total = unwrap_or parallelism 4 in
    record {
      has_nvidia_gpu = false;
      nvidia_gpu_name = none;
      vram_mib = none;
      cpu_cores = total;
      used_threads = max_with_one (total / 2);
    }

-- `stdout.lines().next()`: an empty output has no line. What follows trims the line end.
abbrev pub first_line : Text → Option Text
first_line [] = none
first_line (c ∷ s) = elim (split b'\n' (c ∷ s)) [ [] ↦ none | l ∷ ls ↦ some l ]

abbrev pub first_word : Text → Option Text
first_word s = elim (words_from [] s) [ [] ↦ none | w ∷ ws ↦ some w ]

-- What the parts of a line bring.
unfoldable pub read_gpu : List Text → HardwareInfo → HardwareInfo
read_gpu (name ∷ memory ∷ more) info = record info {
  has_nvidia_gpu = true;
  nvidia_gpu_name = some name;
  vram_mib = first_word memory >>= parse_uint (u64_mod - 1);
}
read_gpu parts info = info

unfoldable pub read_output : Text → HardwareInfo → HardwareInfo
unfolding read_gpu
read_output stdout info = elim (first_line (from_utf8_lossy stdout)) [
  | none ↦ info
  | some line ↦ read_gpu (map trim (split b',' line)) info
]

after_smi : Option Text → HardwareInfo → HardwareInfo
unfolding read_output
after_smi none info = info
after_smi (some stdout) info = read_output stdout info

-- A key of the registry of Windows: the names that are listed, where that succeeds, and what
-- opening one gives: nothing, or whether its value `Name` is a text and which.
pub record RegistryKey : Type 0 where
  pub enum_keys : List (Option Text)
  pub open_subkey : Text → Option (Option Text)

-- The body of the loop.
unfoldable pub has_name : Option (Option Text) → Bool
has_name (some (some (c ∷ name))) = true
has_name subkey = false

unfoldable pub any_gpu : RegistryKey → List (Option Text) → Bool
unfolding has_name
any_gpu key [] = false
any_gpu key (none ∷ names) = any_gpu key names
any_gpu key (some subkey_name ∷ names) =
    let rest = any_gpu key names in if has_name (key.open_subkey subkey_name) then true else rest

unfoldable pub detect_nvidia_via_registry : Option RegistryKey → Bool
unfolding any_gpu
detect_nvidia_via_registry none = false
detect_nvidia_via_registry (some nvidia_key) = any_gpu nvidia_key nvidia_key.enum_keys

-- `output` is what nvidia-smi printed, if it ran with success; `registry` is the key of the GPUs
-- in the registry, if it can be opened.
unfoldable pub detect : Option ℕ → Option Text → Option RegistryKey → HardwareInfo
unfolding default_info after_smi
detect parallelism output registry =
    let info = after_smi output (default_info parallelism) in
    if info.has_nvidia_gpu
    then info
    else record info { has_nvidia_gpu = detect_nvidia_via_registry registry }

-- A subkey that is listed has a name that is not empty.
abbrev GpuIn : RegistryKey → List (Option Text) → Type 0
GpuIn key [] = ⊥
GpuIn key (none ∷ names) = GpuIn key names
GpuIn key (some n ∷ names) =
    ((c : ℕ) × (name : Text) × (key.open_subkey n ≡ some (some (c ∷ name)))) ⊎ GpuIn key names

has_name_inv :
    (subkey : Option (Option Text))
    → has_name subkey ≡ true
    → (c : ℕ) × (name : Text) × (subkey ≡ some (some (c ∷ name)))
unfolding has_name
has_name_inv none h = ground arith
has_name_inv (some none) h = ground arith
has_name_inv (some (some [])) h = ground arith
has_name_inv (some (some (c ∷ name))) h = (c, name, refl)

any_gpu-GpuIn :
    (key : RegistryKey) (names : List (Option Text)) → any_gpu key names ≡ true → GpuIn key names
unfolding any_gpu
any_gpu-GpuIn key [] h = ground arith
any_gpu-GpuIn key (none ∷ names) h = any_gpu-GpuIn key names h
any_gpu-GpuIn key (some n ∷ names) h = elim (Bool-cases (has_name (key.open_subkey n))) [
  | inl y ↦ inl (has_name_inv (key.open_subkey n) y)
  | inr e ↦ inr (any_gpu-GpuIn key names (ground (arith, h, e)))
]

unfoldable pub build_rpc_args : HardwareInfo → ℕ → List Text
build_rpc_args info port =
    codes "--host"
    ∷ codes "0.0.0.0"
    ∷ codes "--port"
    ∷ to_decimal port
    ∷ codes "--threads"
    ∷ to_decimal info.used_threads
    ∷ []

unfoldable pub build_llama_server_args : HardwareInfo → ℕ → ℕ → Text → List Text
build_llama_server_args info rpc_port http_port model_path =
    codes "--rpc"
    ∷ (codes "127.0.0.1:" ++ to_decimal rpc_port)
    ∷ codes "-m"
    ∷ model_path
    ∷ codes "--host"
    ∷ codes "0.0.0.0"
    ∷ codes "--port"
    ∷ to_decimal http_port
    ∷ codes "--threads"
    ∷ to_decimal info.used_threads
    ∷ codes "-ngl"
    ∷ codes "999"
    ∷ codes "--parallel"
    ∷ codes "2"
    ∷ codes "--cont-batching"
    ∷ codes "--no-kv-offload"
    ∷ []

-- Nothing that the tools say changes the threads, and a memory means a GPU.
abbrev Keeps : HardwareInfo → HardwareInfo → Type 0
Keeps info info' =
    (info'.used_threads ≡ info.used_threads)
    × (info'.cpu_cores ≡ info.cpu_cores)
    × ((v : ℕ) → info'.vram_mib ≡ some v → (info'.has_nvidia_gpu ≡ true) ⊎ (info.vram_mib ≡ some v))

read_gpu-Keeps : (parts : List Text) (info : HardwareInfo) → Keeps info (read_gpu parts info)
unfolding read_gpu
read_gpu-Keeps [] info = (refl, refl, λ v e. inr e)
read_gpu-Keeps (name ∷ []) info = (refl, refl, λ v e. inr e)
read_gpu-Keeps (name ∷ memory ∷ more) info = (refl, refl, λ v e. inl refl)

after_smi-Keeps : (output : Option Text) (info : HardwareInfo) → Keeps info (after_smi output info)
unfolding after_smi read_output
after_smi-Keeps none info = (refl, refl, λ v e. inr e)
after_smi-Keeps (some stdout) info = by_line (first_line (from_utf8_lossy stdout))
  where
    by_line :
        (l : Option Text)
        → Keeps info (elim l as (λ x. HardwareInfo) [
          | none ↦ info
          | some line ↦ read_gpu (map trim (split b',' line)) info
        ])
    by_line none = (refl, refl, λ v e. inr e)
    by_line (some line) = read_gpu-Keeps (map trim (split b',' line)) info

registry-GpuIn :
    (registry : Option RegistryKey)
    → detect_nvidia_via_registry registry ≡ true
    → (key : RegistryKey) × (registry ≡ some key) × GpuIn key key.enum_keys
unfolding detect_nvidia_via_registry
registry-GpuIn none h = ground arith
registry-GpuIn (some key) h = (key, refl, any_gpu-GpuIn key key.enum_keys h)

detect_unread :
    (parallelism : Option ℕ) (output : Option Text) (registry : Option RegistryKey)
    → output ≡ none
    → (detect parallelism output registry).has_nvidia_gpu ≡ detect_nvidia_via_registry registry
unfolding detect default_info after_smi
detect_unread parallelism output registry e = rw e refl

-- Whatever the tools say: at least one thread is used, and no more than half of the cores where
-- there are two or more; the machine has a GPU where a memory is known; and without the output of
-- nvidia-smi it has one only if a subkey of the registry has a name.
detect_lem :
    (parallelism : Option ℕ) (output : Option Text) (registry : Option RegistryKey)
    → let info = detect parallelism output registry in
      (1 ≤ info.used_threads)
      × (2 ≤ info.cpu_cores → info.used_threads * 2 ≤ info.cpu_cores)
      × ((v : ℕ) → info.vram_mib ≡ some v → info.has_nvidia_gpu ≡ true)
      × (output ≡ none
          → info.has_nvidia_gpu ≡ true
          → (key : RegistryKey) × (registry ≡ some key) × GpuIn key key.enum_keys)
unfolding detect default_info after_smi
detect_lem parallelism output registry =
    let (t, c, m) = after_smi-Keeps output (default_info parallelism) in
    (
      ground (arith, t),
      ground (arith, t, c),
      λ v e. ground (arith, m v),
      λ e g. registry-GpuIn registry (sym (detect_unread parallelism output registry e) ∙ g),
    )
