-- ===== src/Stats.antt =====
-- The traffic counters of a worker, src/stats.rs: bytes in each direction, and the tokens and the
-- credits that they are worth.
use enjambre_worker.Prelude.{
  ℕ, ◌+◌, ◌/◌, ◌%◌, ◌<◌, ◌≡◌, refl, List, [], ◌∷◌, if◌then◌else◌, ltb, arith, u64_mod,
}

abbrev pub bytes_per_token : ℕ
bytes_per_token = 4

abbrev pub tokens_per_credit : ℕ
tokens_per_credit = 500

pub record WorkerStats : Type 0 where
  pub bytes_to_oracle : ℕ
  pub bytes_to_worker : ℕ

unfoldable pub new : WorkerStats
new = record { bytes_to_oracle = 0; bytes_to_worker = 0 }

-- `fetch_add` wraps at 64 bits.
unfoldable pub add_to_oracle : ℕ → WorkerStats → WorkerStats
add_to_oracle n s = record s { bytes_to_oracle = (s.bytes_to_oracle + n) % u64_mod }

unfoldable pub add_to_worker : ℕ → WorkerStats → WorkerStats
add_to_worker n s = record s { bytes_to_worker = (s.bytes_to_worker + n) % u64_mod }

-- The sum wraps as well, where overflow is not checked.
unfoldable pub total_bytes : WorkerStats → ℕ
total_bytes s = (s.bytes_to_oracle + s.bytes_to_worker) % u64_mod

unfoldable pub estimated_tokens : WorkerStats → ℕ
estimated_tokens s = let t = total_bytes s / bytes_per_token in if ltb t 1 then 1 else t

unfoldable pub credits : WorkerStats → ℕ
credits s = estimated_tokens s / tokens_per_credit

-- The copies of one connection: bytes to the relay or to the worker.
pub data Copy : Type 0 where
  to_oracle : ℕ → Copy
  to_worker : ℕ → Copy

unfoldable pub count : List Copy → WorkerStats → WorkerStats
unfolding add_to_oracle add_to_worker
count [] s = s
count (to_oracle n ∷ cs) s = count cs (add_to_oracle n s)
count (to_worker n ∷ cs) s = count cs (add_to_worker n s)

abbrev pub size : Copy → ℕ
size (to_oracle n) = n
size (to_worker n) = n

-- The bytes of some copies.
abbrev pub sizes : List Copy → ℕ
sizes [] = 0
sizes (c ∷ cs) = size c + sizes cs

total_bytes-count :
    (cs : List Copy) (s : WorkerStats)
    → total_bytes (count cs s) ≡ (total_bytes s + sizes cs) % u64_mod
unfolding count total_bytes
total_bytes-count [] s = omega arith
total_bytes-count (to_oracle n ∷ cs) s = omega (arith, total_bytes-count cs (add_to_oracle n s))
total_bytes-count (to_worker n ∷ cs) s = omega (arith, total_bytes-count cs (add_to_worker n s))

-- Counted from the start, any copies of fewer than 2^64 bytes in all are worth one credit for each
-- full 2000 bytes, in whatever order and direction they were copied: the least of one token makes
-- no difference to the credits.
pub credits-count : (cs : List Copy) → sizes cs < u64_mod → credits (count cs new) ≡ sizes cs / 2000
unfolding credits estimated_tokens
credits-count cs h =
    let t = total_bytes-count cs new in
    let z : total_bytes new ≡ 0 = (unfold new total_bytes in refl) in ground (arith, t, z)
