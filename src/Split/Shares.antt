-- ===== src/Split/Shares.antt =====
-- Every layer goes to one worker, and no worker gets two layers more than another.
use enjambre_worker.Prelude.{
  ℕ, ◌+◌, ◌-◌, ◌*◌, ◌/◌, ◌%◌, ◌≤◌, ◌<◌, ◌≡◌, refl, List, [], ◌∷◌, map, length, sum, arith, All,
  u32_mod,
}
use Prim.Native.Nat.{min, max}
use native.Mathlib.Nat.{mod-lt, div-add-mod, mod-eq_of_lt}
use enjambre_worker.Prelude.Text.{Text, codes}
use enjambre_worker.Registry.{WorkerNode}
use enjambre_worker.Split.{gpu_workers, assign, split_over, calculate_tensor_split}

abbrev pub addrs : List (Text × ℕ) → List Text
addrs = map (λ share. share.0)

abbrev pub layers : List (Text × ℕ) → List ℕ
layers = map (λ share. share.1)

sum-assign :
    (base extra i : ℕ) (ws : List WorkerNode)
    → sum (layers (assign base extra i ws)) ≡ base * length ws + min (extra - i) (length ws)
unfolding assign
sum-assign base extra i [] = omega arith
sum-assign base extra i (w ∷ ws) = ground (arith, sum-assign base extra (i + 1) ws)

addrs-assign :
    (base extra i : ℕ) (ws : List WorkerNode)
    → addrs (assign base extra i ws) ≡ map (λ w. w.addr) ws
unfolding assign
addrs-assign base extra i [] = refl
addrs-assign base extra i (w ∷ ws) = ground (arith, addrs-assign base extra (i + 1) ws)

abbrev pub Between : ℕ → ℕ → List ℕ → Type 0
Between lo hi = All (λ n. (lo ≤ n) × (n ≤ hi))

assign-Between :
    (base extra i : ℕ) (ws : List WorkerNode)
    → Between base (base + 1) (layers (assign base extra i ws))
unfolding assign
assign-Between base extra i [] = tt
assign-Between base extra i (w ∷ ws) = (ground arith, assign-Between base extra (i + 1) ws)

-- Over one worker or more, the shares sum to the layers.
sum-assign_all :
    (total : ℕ) (w : WorkerNode) (ws : List WorkerNode)
    → let n = length (w ∷ ws) in sum (layers (assign (total / n) (total % n) 0 (w ∷ ws))) ≡ total
sum-assign_all total w ws =
    let n : ℕ = length (w ∷ ws) in
    grind (arith, sum-assign (total / n) (total % n) 0 (w ∷ ws), mod-lt, div-add-mod)

split_over_cons :
    (total : ℕ) (w : WorkerNode) (ws : List WorkerNode)
    → length (w ∷ ws) < u32_mod
    → let n = length (w ∷ ws) in
      split_over total (w ∷ ws) ≡ assign (total / n) (total % n) 0 (w ∷ ws)
unfolding split_over
split_over_cons total w ws h = rw (mod-eq_of_lt h)

-- How many workers share a model: those with a GPU, or the local one where there is none.
abbrev pub sharers : List WorkerNode → ℕ
sharers ws = max 1 (length (gpu_workers ws))

abbrev pub share_addrs : List WorkerNode → List Text
share_addrs [] = codes "127.0.0.1:8090" ∷ []
share_addrs (w ∷ ws) = map (λ v. v.addr) (w ∷ ws)

abbrev Fair : ℕ → List WorkerNode → List (Text × ℕ) → Type 0
Fair total ws shares =
    (sum (layers shares) ≡ total)
    × (addrs shares ≡ share_addrs ws)
    × Between (total / max 1 (length ws)) (total / max 1 (length ws) + 1) (layers shares)

split_over-Fair :
    (total : ℕ) (ws : List WorkerNode) → length ws < u32_mod → Fair total ws (split_over total ws)
split_over-Fair total [] h =
    unfold split_over in (omega arith, refl, ((omega arith, omega arith), tt))
split_over-Fair total (w ∷ ws) h =
    let n : ℕ = length (w ∷ ws) in
    let one : max 1 n ≡ n = omega arith in
    rw (split_over_cons total w ws h) (
      sum-assign_all total w ws,
      addrs-assign (total / n) (total % n) 0 (w ∷ ws),
      rw one (assign-Between (total / n) (total % n) 0 (w ∷ ws)),
    )

length-gpu_workers : (ws : List WorkerNode) → length (gpu_workers ws) ≤ length ws
length-gpu_workers [] = omega arith
length-gpu_workers (w ∷ ws) = ground (arith, length-gpu_workers ws)

-- The shares of a split over fewer than 2^32 workers name the workers with a GPU in order (the
-- local RPC server if there is none), sum to the layers of the model, and each is the even share,
-- rounded down, or one layer more, whatever the memory of the workers.
pub calculate_tensor_split_lem :
    (total : ℕ) (ws : List WorkerNode)
    → length ws < u32_mod
    → let shares = calculate_tensor_split total ws in
      (sum (layers shares) ≡ total)
      × (addrs shares ≡ share_addrs (gpu_workers ws))
      × Between (total / sharers ws) (total / sharers ws + 1) (layers shares)
unfolding calculate_tensor_split
calculate_tensor_split_lem total ws h =
    split_over-Fair total (gpu_workers ws) (omega (arith, length-gpu_workers ws))
