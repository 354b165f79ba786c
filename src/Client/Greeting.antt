-- ===== src/Client/Greeting.antt =====
-- What the worker makes of the master's `INIT_MODEL` lines.
use enjambre_worker.Prelude.{
  ℕ, ◌-◌, ◌<◌, ◌≡◌, refl, ap, ◌≢◌, List, [], ◌∷◌, ◌++◌, append_assoc, some, length, length-append,
  arith, u16_mod, u32_mod,
}
use enjambre_worker.Prelude.Text.{
  Text, codes, is_whitespace, trim, trim_start, trim_end, split, strip_prefix, starts_with, Lacks,
}
use enjambre_worker.Prelude.Text.Laws.{
  split-append, split_whole, join-split, split-split, trim_line, split-ne-nil, trim_bare,
  trim-Solid,
}
use enjambre_worker.Prelude.Decimal.{
  to_decimal, parse_uint-to_decimal, to_decimal-Lacks, to_decimal-Solid, to_decimal-ne-nil,
}
use enjambre_worker.Registry.{
  MasterConfig, ModelEntry, WorkerNode, WorkerRegistry, Role, select_model,
}
use enjambre_worker.Connection.{init_line}
use enjambre_worker.Client.{
  ModelConfig, super_node, consumer, gpu_provider, last, but_last, parse_super_node, parse_init,
  plain_config, super_node_config, parse_gpu_provider,
}

last-append : (ps : List Text) (t : Text) → last (ps ++ t ∷ []) ≡ some t
unfolding last
last-append [] t = refl
last-append (p ∷ []) t = refl
last-append (p ∷ q ∷ ps) t = last-append (q ∷ ps) t

but_last-append : (ps : List Text) (t : Text) → but_last (ps ++ t ∷ []) ≡ ps
unfolding but_last
but_last-append [] t = refl
but_last-append (p ∷ []) t = refl
but_last-append (p ∷ q ∷ ps) t = ap (◌∷◌ p) (but_last-append (q ∷ ps) t)

length-pos : (ps : List Text) → ps ≢ [] → 0 < length ps
length-pos [] n = absurd (n refl)
length-pos (p ∷ ps) n = omega arith

-- The parts of what the master writes behind the role.
super_node_parts :
    (name url : Text) (layers : ℕ)
    → Lacks b':' name
    → split b':' (name ++ b':' ∷ (url ++ b':' ∷ to_decimal layers))
      ≡ name ∷ (split b':' url ++ to_decimal layers ∷ [])
super_node_parts name url layers h =
    rw (split-append b':' name _ h, split-split b':' url (to_decimal layers))
      (rw (split_whole b':' (to_decimal layers) (to_decimal-Lacks layers)))

super_node_config_lem :
    (id name url : Text) (layers : ℕ)
    → layers < u32_mod
    → super_node_config id (name ∷ (split b':' url ++ to_decimal layers ∷ []))
      ≡ some (record {
        role = super_node;
        name = name;
        url = url;
        total_layers = layers;
        tunnel_port = 0;
        worker_id = id;
      })
super_node_config_lem id name url layers h =
    unfold super_node_config in
    ground (
      arith,
      last-append (name ∷ split b':' url) (to_decimal layers),
      but_last-append (split b':' url) (to_decimal layers),
      length-append (split b':' url) (to_decimal layers ∷ []),
      length-pos (split b':' url) (split-ne-nil b':' url),
      join-split b':' url,
      parse_uint-to_decimal (u32_mod - 1) layers (omega arith),
    )

-- The line that `init_line` gives a super node, with its parts behind the prefix.
super_line : Text → Text → ℕ → Text
super_line name url layers =
    codes "INIT_MODEL:SUPER_NODE:"
    ++ (name ++ b':' ∷ (url ++ b':' ∷ (to_decimal layers ++ b'\n' ∷ [])))

trim-super_line :
    (name url : Text) (layers : ℕ)
    → trim (super_line name url layers)
      ≡ codes "INIT_MODEL:SUPER_NODE:" ++ (name ++ b':' ∷ (url ++ b':' ∷ to_decimal layers))
trim-super_line name url layers =
    let s : Text = codes "NIT_MODEL:SUPER_NODE:" ++ (name ++ b':' ∷ (url ++ b':' ∷ [])) in
    let t = to_decimal layers in
    let shape : super_line name url layers ≡ b'I' ∷ ((s ++ t) ++ b'\n' ∷ []) =
      unfold super_line in simp append_assoc in
    let back : b'I' ∷ (s ++ t)
        ≡ codes "INIT_MODEL:SUPER_NODE:" ++ (name ++ b':' ∷ (url ++ b':' ∷ t)) =
      simp append_assoc in
    rw
      (
        shape,
        trim_line b'I' s t (b'\n' ∷ []) (unfold is_whitespace in refl) (to_decimal-ne-nil layers)
            (to_decimal-Solid layers) (unfold is_whitespace in (refl, tt)),
      )
      back

parse_init-super_line :
    (id name url : Text) (layers : ℕ)
    → Lacks b':' name
    → layers < u32_mod
    → parse_init id (super_line name url layers)
      ≡ some (record {
        role = super_node;
        name = name;
        url = url;
        total_layers = layers;
        tunnel_port = 0;
        worker_id = id;
      })
parse_init-super_line id name url layers h hl =
    let rest : Text = name ++ b':' ∷ (url ++ b':' ∷ to_decimal layers) in
    unfold parse_init starts_with strip_prefix parse_super_node in
    rw (trim-super_line name url layers, super_node_parts name url layers h)
      (super_node_config_lem id name url layers hl)

gpu_line : ℕ → Text
gpu_line port = codes "INIT_MODEL:GPU_PROVIDER:" ++ (to_decimal port ++ b'\n' ∷ [])

trim-gpu_line :
    (port : ℕ) → trim (gpu_line port) ≡ codes "INIT_MODEL:GPU_PROVIDER:" ++ to_decimal port
unfolding gpu_line
trim-gpu_line port =
    trim_line b'I' (codes "NIT_MODEL:GPU_PROVIDER:") (to_decimal port) (b'\n' ∷ [])
      (unfold is_whitespace in refl) (to_decimal-ne-nil port) (to_decimal-Solid port)
      (unfold is_whitespace in (refl, tt))

parse_init-gpu_line :
    (id : Text) (port : ℕ)
    → port < u16_mod
    → parse_init id (gpu_line port) ≡ some (plain_config id gpu_provider port)
parse_init-gpu_line id port h =
    unfold parse_init starts_with strip_prefix parse_gpu_provider in
    rw (trim-gpu_line port) (
      rw (
        trim_bare b'I' (codes "NIT_MODEL:GPU_PROVIDER:") (to_decimal port)
            (unfold is_whitespace in refl) (to_decimal-ne-nil port) (to_decimal-Solid port),
        trim-Solid (to_decimal port) (to_decimal-Solid port),
        parse_uint-to_decimal (u16_mod - 1) port (omega arith),
      ))

-- What a worker is to make of its greeting.
abbrev pub config_of : Text → Role → ℕ → ModelEntry → ModelConfig
config_of id Role.consumer port m = plain_config id consumer 0
config_of id Role.gpu_provider port m = plain_config id gpu_provider port
config_of id Role.super_node port m = record {
  role = super_node;
  name = m.name;
  url = m.url;
  total_layers = m.total_layers;
  tunnel_port = 0;
  worker_id = id;
}

parse_init-consumer_line :
    (id : Text) → parse_init id (codes "INIT_MODEL:CONSUMER\n") ≡ some (plain_config id consumer 0)
unfolding parse_init trim trim_start trim_end is_whitespace starts_with strip_prefix
parse_init-consumer_line id = refl

-- Whatever role the master gives a worker, its greeting is read by the worker as that role: with the
-- tunnel port for a GPU provider, and with the name, the URL and the layers of the model for a super
-- node, also where the URL holds colons. Provided that there is a model, that its name has no
-- colon, and that the layers and the port fit their types.
pub parse_init-init_line :
    {File : Type 0} (id : Text) (config : MasterConfig) (node : WorkerNode)
    (r : WorkerRegistry File) (m : ModelEntry)
    → select_model config r ≡ some m
    → Lacks b':' m.name
    → m.total_layers < u32_mod
    → node.tunnel_port < u16_mod
    → (l : Text) × (init_line config node r ≡ some l)
      × (parse_init id l ≡ some (config_of id node.role node.tunnel_port m))
unfolding init_line super_line gpu_line
parse_init-init_line id config node r m e h hl hp = go node.role refl
  where
    go :
        (role : Role)
        → node.role ≡ role
        → (l : Text) × (init_line config node r ≡ some l)
          × (parse_init id l ≡ some (config_of id node.role node.tunnel_port m))
    go Role.consumer q =
        (codes "INIT_MODEL:CONSUMER\n", ground arith, ground (arith, parse_init-consumer_line id))
    go Role.gpu_provider q = (
      gpu_line node.tunnel_port,
      ground arith,
      ground (arith, parse_init-gpu_line id node.tunnel_port hp),
    )
    go Role.super_node q = (
      super_line m.name m.url m.total_layers,
      ground (arith, e),
      ground (arith, parse_init-super_line id m.name m.url m.total_layers h hl),
    )
