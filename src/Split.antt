-- ===== src/Split.antt =====
-- `calculate_tensor_split` of src/master.rs: the layers of a model over the workers with a GPU.
pub mod Shares
use enjambre_worker.Prelude.{
  ℕ, zero, suc, ◌+◌, ◌/◌, ◌%◌, Bool, ◌||◌, List, [], ◌∷◌, length, filter_by, ltb, if◌then◌else◌,
  u32_mod,
}
use enjambre_worker.Prelude.Text.{Text, codes}
use enjambre_worker.Registry.{WorkerNode, is_super, is_gpu_provider}

abbrev pub gpu_workers : List WorkerNode → List WorkerNode
gpu_workers = filter_by (λ w. is_gpu_provider w.role || is_super w.role)

-- The worker at place `i` gets one layer more if it is among the first `extra`.
unfoldable pub assign : ℕ → ℕ → ℕ → List WorkerNode → List (Text × ℕ)
assign base extra i [] = []
assign base extra i (w ∷ ws) =
    (w.addr, if ltb i extra then base + 1 else base) ∷ assign base extra (i + 1) ws

-- The number of workers is taken at 32 bits.
unfoldable pub split_over : ℕ → List WorkerNode → List (Text × ℕ)
split_over total_layers [] = (codes "127.0.0.1:8090", total_layers) ∷ []
split_over total_layers (w ∷ ws) =
    let n = length (w ∷ ws) % u32_mod in assign (total_layers / n) (total_layers % n) 0 (w ∷ ws)

unfoldable pub calculate_tensor_split : ℕ → List WorkerNode → List (Text × ℕ)
unfolding split_over assign
calculate_tensor_split total_layers workers = split_over total_layers (gpu_workers workers)
