-- ===== src/Client/Memory.antt =====
-- The free memory that a heartbeat of src/client.rs reports: `get_free_ram_mb` and
-- `get_free_vram_mb`.
use enjambre_worker.Prelude.{
  ℕ, ◌-◌, ◌*◌, ◌/◌, ◌<◌, ◌≡◌, Option, none, some, ◌>>=◌, unwrap_or, u64_mod, ltb, if◌then◌else◌,
  arith, Option-cases, inl, inr,
}
use enjambre_worker.Prelude.Text.{Text, trim, Lacks}
use enjambre_worker.Prelude.Decimal.{parse_uint, parse_uint-le}
use enjambre_worker.Http.Utf8.{from_utf8_lossy}
use enjambre_worker.Hardware.{first_line}
use enjambre_worker.Protocol.{parse_line, ping}
use enjambre_worker.Client.Lines.{ping_line}
use enjambre_worker.Client.RoundTrip.{parse_line-ping_line}

abbrev mib : ℕ
mib = 1024 * 1024

-- The bytes are what the system reports: half of all memory stands in where none is free.
unfoldable pub get_free_ram_mb : (available_memory total_memory : ℕ) → ℕ
get_free_ram_mb available_memory total_memory =
    let free_mb = available_memory / mib in
    if ltb 0 free_mb then free_mb else total_memory / mib / 2

vram_of : Text → Option ℕ
vram_of stdout = do line ← first_line (from_utf8_lossy stdout); parse_uint (u64_mod - 1) (trim line)

-- `output` is what nvidia-smi printed, if it ran with success.
unfoldable pub get_free_vram_mb : Option Text → ℕ
unfolding vram_of
get_free_vram_mb output = unwrap_or (output >>= vram_of) 0

vram_of_lt : (stdout : Text) {n : ℕ} → vram_of stdout ≡ some n → n < u64_mod
unfolding vram_of
vram_of_lt stdout {n} e = elim (Option-cases (first_line (from_utf8_lossy stdout))) [
  | inl y ↦ ground (arith, e, y)
  | inr (line, y) ↦ ground (arith, e, y, parse_uint-le (u64_mod - 1) (trim line) {r = n})
]

get_free_vram_mb_lt : (output : Option Text) → get_free_vram_mb output < u64_mod
unfolding get_free_vram_mb
get_free_vram_mb_lt none = omega arith
get_free_vram_mb_lt (some stdout) = elim (Option-cases (vram_of stdout)) [
  | inl y ↦ ground (arith, y)
  | inr (n, y) ↦ ground (arith, y, vram_of_lt stdout y)
]

-- Whatever nvidia-smi prints, the heartbeat of a worker whose id has no colon is read by the master
-- with the id and the two readings, where the system's numbers of bytes fit 64 bits.
parse_line-heartbeat :
    (id : Text) (output : Option Text) (available_memory total_memory : ℕ)
    → Lacks b':' id
    → available_memory < u64_mod
    → total_memory < u64_mod
    → let vram = get_free_vram_mb output in
      let ram = get_free_ram_mb available_memory total_memory in
      parse_line (ping_line id vram ram) ≡ some (ping id vram ram)
parse_line-heartbeat id output available_memory total_memory h ha ht =
    parse_line-ping_line id (get_free_vram_mb output)
      (get_free_ram_mb available_memory total_memory) h (get_free_vram_mb_lt output)
      (unfold get_free_ram_mb in ground (arith, ha, ht))
