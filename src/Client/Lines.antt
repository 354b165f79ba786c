-- ===== src/Client/Lines.antt =====
-- The lines that `start_master_connection` of src/client.rs writes.
use enjambre_worker.Prelude.{ℕ, ◌∷◌, [], ◌++◌, Bool, if◌then◌else◌}
use enjambre_worker.Prelude.Text.{Text, codes}
use enjambre_worker.Prelude.Decimal.{to_decimal}

unfoldable pub register_line : Text → ℕ → ℕ → ℕ → Bool → ℕ → Text
register_line worker_id vram_total ram_total cpu_cores has_nvidia_gpu rpc_port =
    let has_gpu = if has_nvidia_gpu then codes "1" else codes "0" in
    codes "REGISTER:"
    ++ (worker_id
        ++ b':'
          ∷ (to_decimal vram_total
              ++ b':'
                ∷ (to_decimal ram_total
                    ++ b':'
                      ∷ (to_decimal cpu_cores
                          ++ b':' ∷ (has_gpu ++ b':' ∷ (to_decimal rpc_port ++ b'\n' ∷ []))))))

unfoldable pub ping_line : Text → ℕ → ℕ → Text
ping_line worker_id vram_free ram_free =
    codes "PING:"
    ++ (worker_id ++ b':' ∷ (to_decimal vram_free ++ b':' ∷ (to_decimal ram_free ++ b'\n' ∷ [])))
