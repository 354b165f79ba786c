-- ===== src/Client/RoundTrip.antt =====
-- What a worker writes is what the master reads.
use enjambre_worker.Prelude.{
  ℕ, ◌-◌, ◌<◌, ◌≡◌, refl, Bool, true, false, [], ◌∷◌, ◌++◌, append_assoc, some, arith,
  if◌then◌else◌, u16_mod, u64_mod,
}
use enjambre_worker.Prelude.Text.{Text, codes, same_text, is_whitespace, Lacks}
use enjambre_worker.Prelude.Text.Laws.{terminated, split-trim_line}
use enjambre_worker.Prelude.Decimal.{
  to_decimal, parse_uint-to_decimal, to_decimal-Lacks, to_decimal-Solid, to_decimal-ne-nil,
}
use enjambre_worker.Protocol.{register, ping, parse_parts, parse_line}
use enjambre_worker.Client.Lines.{register_line, ping_line}

ping_line-terminated :
    (id : Text) (vram ram : ℕ)
    → ping_line id vram ram
      ≡ terminated b':' (codes "PING" ∷ id ∷ to_decimal vram ∷ []) ++ (to_decimal ram ++ b'\n' ∷ [])
unfolding ping_line terminated
ping_line-terminated id vram ram = simp append_assoc

parse_ping_lem :
    (id : Text) (vram ram : ℕ)
    → vram < u64_mod
    → ram < u64_mod
    → parse_parts (codes "PING" ∷ id ∷ to_decimal vram ∷ to_decimal ram ∷ [])
      ≡ some (ping id vram ram)
unfolding parse_parts same_text
parse_ping_lem id vram ram hv hr = rw (
  parse_uint-to_decimal (u64_mod - 1) vram (omega arith),
  parse_uint-to_decimal (u64_mod - 1) ram (omega arith),
)

-- A `PING` line of a worker whose id has no colon is read by the master with the id and both
-- numbers, if they fit 64 bits.
pub parse_line-ping_line :
    (id : Text) (vram ram : ℕ)
    → Lacks b':' id
    → vram < u64_mod
    → ram < u64_mod
    → parse_line (ping_line id vram ram) ≡ some (ping id vram ram)
unfolding parse_line
parse_line-ping_line id vram ram h hv hr =
    rw
      (
        ping_line-terminated id vram ram,
        split-trim_line b':' b'P' (codes "ING") (id ∷ to_decimal vram ∷ []) (to_decimal ram)
            (b'\n' ∷ []) (unfold is_whitespace in refl)
            (omega arith, (h, (to_decimal-Lacks vram, tt))) (to_decimal-Lacks ram)
            (to_decimal-ne-nil ram) (to_decimal-Solid ram) (unfold is_whitespace in (refl, tt)),
      )
      (parse_ping_lem id vram ram hv hr)

flag : Bool → Text
flag gpu = if gpu then codes "1" else codes "0"

flag-Lacks : (gpu : Bool) → Lacks b':' (flag gpu)
unfolding flag
flag-Lacks true = omega arith
flag-Lacks false = omega arith

register_line-terminated :
    (id : Text) (vram ram cores : ℕ) (gpu : Bool) (port : ℕ)
    → register_line id vram ram cores gpu port
      ≡ terminated b':' (
          codes "REGISTER"
          ∷ id
          ∷ to_decimal vram
          ∷ to_decimal ram
          ∷ to_decimal cores
          ∷ flag gpu
          ∷ [])
        ++ (to_decimal port ++ b'\n' ∷ [])
unfolding register_line terminated flag
register_line-terminated id vram ram cores true port = simp append_assoc
register_line-terminated id vram ram cores false port = simp append_assoc

parse_register_lem :
    (id : Text) (vram ram cores : ℕ) (gpu : Bool) (port : ℕ)
    → vram < u64_mod
    → ram < u64_mod
    → cores < u64_mod
    → port < u16_mod
    → parse_parts (
        codes "REGISTER"
        ∷ id
        ∷ to_decimal vram
        ∷ to_decimal ram
        ∷ to_decimal cores
        ∷ flag gpu
        ∷ to_decimal port
        ∷ [])
      ≡ some (register id vram ram cores gpu port)
unfolding parse_parts same_text flag
parse_register_lem id vram ram cores gpu port hv hr hc hp =
    rw
      (
        parse_uint-to_decimal (u64_mod - 1) vram (omega arith),
        parse_uint-to_decimal (u64_mod - 1) ram (omega arith),
        parse_uint-to_decimal (u64_mod - 1) cores (omega arith),
        parse_uint-to_decimal (u16_mod - 1) port (omega arith),
      )
      (ground arith)

-- The `REGISTER` line of a worker whose id has no colon is read by the master with the id, the
-- hardware and the port as the worker has them, if they fit their types.
pub parse_line-register_line :
    (id : Text) (vram ram cores : ℕ) (gpu : Bool) (port : ℕ)
    → Lacks b':' id
    → vram < u64_mod
    → ram < u64_mod
    → cores < u64_mod
    → port < u16_mod
    → parse_line (register_line id vram ram cores gpu port)
      ≡ some (register id vram ram cores gpu port)
unfolding parse_line
parse_line-register_line id vram ram cores gpu port h hv hr hc hp =
    rw
      (
        register_line-terminated id vram ram cores gpu port,
        split-trim_line b':' b'R' (codes "EGISTER")
            (id ∷ to_decimal vram ∷ to_decimal ram ∷ to_decimal cores ∷ flag gpu ∷ [])
            (to_decimal port) (b'\n' ∷ []) (unfold is_whitespace in refl)
            (
              omega arith,
              (
                h,
                (
                  to_decimal-Lacks vram,
                  (to_decimal-Lacks ram, (to_decimal-Lacks cores, (flag-Lacks gpu, tt))),
                ),
              ),
            )
            (to_decimal-Lacks port) (to_decimal-ne-nil port) (to_decimal-Solid port)
            (unfold is_whitespace in (refl, tt)),
      )
      (parse_register_lem id vram ram cores gpu port hv hr hc hp)
