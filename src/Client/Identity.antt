-- ===== src/Client/Identity.antt =====
-- The worker's id: `generate_worker_id`, `hostname_get` and `random_suffix` of src/client.rs.
use enjambre_worker.Prelude.{
  ℕ, zero, suc, ◌/◌, ◌%◌, ◌<◌, ◌≡◌, ◌≢◌, Option, none, some, [], ◌∷◌, ◌++◌, Bool, All-append, arith,
  unwrap_or, u16_mod, u64_mod,
}
use enjambre_worker.Prelude.Text.{Text, codes, Lacks}
use enjambre_worker.Keys.{hex, hex_digit}
use enjambre_worker.Protocol.{register, parse_line}
use enjambre_worker.Client.Lines.{register_line}
use enjambre_worker.Client.RoundTrip.{parse_line-register_line}

-- The environment's COMPUTERNAME and HOSTNAME, where they are set.
unfoldable pub hostname_get : Option Text → Option Text → Text
hostname_get computer_name hostname = elim computer_name [
  | some n ↦ n
  | none ↦ unwrap_or hostname (codes "unknown")
]

-- `{:04x}` of the low 16 bits.
unfoldable pub random_suffix : ℕ → Text
random_suffix nanos = hex 4 (nanos % u16_mod)

unfoldable pub generate_worker_id : Option Text → Option Text → ℕ → Text
generate_worker_id computer_name hostname nanos =
    hostname_get computer_name hostname ++ b'-' ∷ random_suffix nanos

hex-Lacks : (w n : ℕ) → Lacks b':' (hex w n)
unfolding hex hex_digit
hex-Lacks zero n = tt
hex-Lacks (suc w) n =
    All-append (λ c. c ≢ b':') (hex w (n / 16)) (hex_digit (n % 16) ∷ []) (hex-Lacks w (n / 16))
      (ground arith, tt)

generate_worker_id-Lacks :
    (computer_name hostname : Option Text) (nanos : ℕ)
    → Lacks b':' (hostname_get computer_name hostname)
    → Lacks b':' (generate_worker_id computer_name hostname nanos)
unfolding generate_worker_id random_suffix
generate_worker_id-Lacks computer_name hostname nanos h =
    All-append (λ c. c ≢ b':') (hostname_get computer_name hostname)
      (b'-' ∷ hex 4 (nanos % u16_mod)) h (omega arith, hex-Lacks 4 (nanos % u16_mod))

-- On a host whose name has no colon, the master reads the registration of a worker with the id that
-- it made, and with its hardware and port, if they fit their types.
parse_line-generate_worker_id :
    (computer_name hostname : Option Text) (nanos vram ram cores : ℕ) (gpu : Bool) (port : ℕ)
    → Lacks b':' (hostname_get computer_name hostname)
    → vram < u64_mod
    → ram < u64_mod
    → cores < u64_mod
    → port < u16_mod
    → let id = generate_worker_id computer_name hostname nanos in
      parse_line (register_line id vram ram cores gpu port)
      ≡ some (register id vram ram cores gpu port)
parse_line-generate_worker_id computer_name hostname nanos vram ram cores gpu port h =
    parse_line-register_line (generate_worker_id computer_name hostname nanos) vram ram cores gpu
      port (generate_worker_id-Lacks computer_name hostname nanos h)
