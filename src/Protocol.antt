-- ===== src/Protocol.antt =====
-- The line protocol of the workers: `MasterCommand` and `parse_line` of src/master.rs.
use enjambre_worker.Prelude.{
  ℕ, ◌-◌, Bool, List, [], ◌∷◌, Option, none, some, if◌then◌else◌, ◌>>=◌, u16_mod, u64_mod,
}
use enjambre_worker.Prelude.Text.{Text, codes, same_text, trim, split}
use enjambre_worker.Prelude.Decimal.{parse_uint}

pub data MasterCommand : Type 0 where
  register :
      (id : Text) (vram_mb ram_mb cpu_cores : ℕ) (has_gpu : Bool) (rpc_port : ℕ) → MasterCommand
  ping : (id : Text) (vram_free_mb ram_free_mb : ℕ) → MasterCommand
  infer : (model_name : Text) → MasterCommand

-- `parts.next()`, with the parts that are left.
abbrev pub next : List Text → Option (Text × List Text)
next [] = none
next (p ∷ ps) = some (p, ps)

-- `s.parse::<u64>().ok()` (`usize` too, on a 64-bit machine) and `s.parse::<u16>().ok()`
abbrev pub parse_u64 : Text → Option ℕ
parse_u64 = parse_uint (u64_mod - 1)

abbrev pub parse_u16 : Text → Option ℕ
parse_u16 = parse_uint (u16_mod - 1)

unfoldable pub parse_register : List Text → Option MasterCommand
parse_register ps = do
  (id, ps) ← next ps
  (vram, ps) ← next ps
  vram_mb ← parse_u64 vram
  (ram, ps) ← next ps
  ram_mb ← parse_u64 ram
  (cores, ps) ← next ps
  cpu_cores ← parse_u64 cores
  (gpu, ps) ← next ps
  (port, ps) ← next ps
  rpc_port ← parse_u16 port
  some (register id vram_mb ram_mb cpu_cores (same_text gpu (codes "1")) rpc_port)

unfoldable pub parse_ping : List Text → Option MasterCommand
parse_ping ps = do
  (id, ps) ← next ps
  (vram, ps) ← next ps
  vram_free_mb ← parse_u64 vram
  (ram, ps) ← next ps
  ram_free_mb ← parse_u64 ram
  some (ping id vram_free_mb ram_free_mb)

unfoldable pub parse_infer : List Text → Option MasterCommand
parse_infer ps = do (model_name, ps) ← next ps; some (infer model_name)

unfoldable pub parse_parts : List Text → Option MasterCommand
unfolding parse_register parse_ping parse_infer
parse_parts parts = do
  (cmd, ps) ← next parts
  if same_text cmd (codes "REGISTER")
      then parse_register ps
      else if same_text cmd (codes "PING")
      then parse_ping ps
      else if same_text cmd (codes "INFER")
      then parse_infer ps
      else none

unfoldable pub parse_line : Text → Option MasterCommand
unfolding parse_parts
parse_line line = parse_parts (split b':' (trim line))
