-- ===== src/Tunnel.antt =====
-- `run_reverse_tunnel` of src/tunnel.rs: the rounds of its loop, with what came of each.
use enjambre_worker.Prelude.{
  ℕ, ◌≡◌, refl, ap, ◌∙◌, ◌<◌, ◌/◌, Bool, true, false, List, [], ◌∷◌, ◌++◌, if◌then◌else◌, arith,
  u64_mod, sym,
}
use enjambre_worker.Stats.{
  WorkerStats, add_to_oracle, add_to_worker, Copy, to_oracle, to_worker, count, sizes, credits,
  credits-count, new,
}

-- How a round ends: no connection to the server, no byte from it, no connection to the local
-- program, no byte to it, an interrupted copy, or a copy with its bytes in both directions.
pub data Round : Type 0 where
  not_connected no_first_byte no_local no_forward interrupted : Round
  copied : (out back : ℕ) → Round

-- Whether the flag is looked at once more before the pause: the other ways out are `continue`.
abbrev pub looks_again : Round → Bool
looks_again not_connected = true
looks_again interrupted = true
looks_again (copied out back) = true
looks_again _ = false

unfoldable pub account : Round → WorkerStats → WorkerStats
account (copied out back) stats = add_to_worker back (add_to_oracle out stats)
account _ stats = stats

-- A round with what the shutdown flag holds before it and behind it; the loop that has no more
-- rounds waits in one.
unfoldable pub run_reverse_tunnel : List (Bool × (Round × Bool)) → WorkerStats → WorkerStats
unfolding account
run_reverse_tunnel [] stats = stats
run_reverse_tunnel ((before, (r, behind)) ∷ rounds) stats =
    let stats' = account r stats in
    let rest = run_reverse_tunnel rounds stats' in
    if before then stats else if looks_again r then (if behind then stats' else rest) else rest

abbrev copies_of : Round → List Copy
copies_of (copied out back) = to_oracle out ∷ to_worker back ∷ []
copies_of _ = []

-- The copies of the rounds that start before a shutdown is seen.
abbrev pub copies : List (Bool × (Round × Bool)) → List Copy
copies [] = []
copies ((before, (r, behind)) ∷ rounds) =
    if before
    then []
    else copies_of r
      ++ (if looks_again r then (if behind then [] else copies rounds) else copies rounds)

count-append : (a b : List Copy) (s : WorkerStats) → count (a ++ b) s ≡ count b (count a s)
unfolding count
count-append [] b s = refl
count-append (to_oracle n ∷ a) b s = count-append a b (add_to_oracle n s)
count-append (to_worker n ∷ a) b s = count-append a b (add_to_worker n s)

count_none : (s : WorkerStats) → count [] s ≡ s
unfolding count
count_none s = refl

account_lem : (r : Round) (s : WorkerStats) → account r s ≡ count (copies_of r) s
unfolding account count
account_lem not_connected s = refl
account_lem no_first_byte s = refl
account_lem no_local s = refl
account_lem no_forward s = refl
account_lem interrupted s = refl
account_lem (copied out back) s = refl

run_reverse_tunnel_lem :
    (rounds : List (Bool × (Round × Bool))) (s : WorkerStats)
    → run_reverse_tunnel rounds s ≡ count (copies rounds) s
unfolding run_reverse_tunnel
run_reverse_tunnel_lem [] s = sym (count_none s)
run_reverse_tunnel_lem ((before, (r, behind)) ∷ rounds) s = ground (
  arith,
  count_none s,
  account_lem r s,
  count-append (copies_of r) [] s,
  count-append (copies_of r) (copies rounds) s,
  count_none (account r s),
  run_reverse_tunnel_lem rounds (account r s),
)

-- Over all rounds of the tunnel up to a shutdown, the worker is paid one credit for each full 2000
-- bytes of the copies that ended without an error, if these are fewer than 2^64 bytes: no other
-- round counts, and none behind the shutdown.
pub credits-run_reverse_tunnel :
    (rounds : List (Bool × (Round × Bool)))
    → sizes (copies rounds) < u64_mod
    → credits (run_reverse_tunnel rounds new) ≡ sizes (copies rounds) / 2000
credits-run_reverse_tunnel rounds h =
    ap (λ s. credits s) (run_reverse_tunnel_lem rounds new) ∙ credits-count (copies rounds) h
