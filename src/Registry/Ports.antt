-- ===== src/Registry/Ports.antt =====
-- The tunnel ports that the registry hands out.
use enjambre_worker.Prelude.{ℕ, zero, suc, ◌+◌, ◌-◌, ◌%◌, ◌≤◌, ◌<◌, ◌≡◌, ◌≢◌, arith, u16_mod}
use enjambre_worker.Registry.{WorkerRegistry, first_tunnel_port, next_port, allocate_tunnel_port}

-- How many ports there are.
abbrev pub port_count : ℕ
port_count = u16_mod - first_tunnel_port

abbrev pub IsPort : ℕ → Type 0
IsPort p = (first_tunnel_port ≤ p) × (p < u16_mod)

next_port_lem :
    (p : ℕ) → IsPort p → next_port p ≡ first_tunnel_port + (p - first_tunnel_port + 1) % port_count
unfolding next_port
next_port_lem p h = ground arith

module _ {File : Type 0} where
  -- The port that the call after `k` others gets.
  unfoldable pub nth_port : ℕ → WorkerRegistry File → ℕ
  nth_port zero r = (allocate_tunnel_port r).1
  nth_port (suc k) r = nth_port k (allocate_tunnel_port r).0

  -- The ports go round: the `k`-th is `k` places behind the first, modulo their number.
  nth_port_lem :
      (k : ℕ) (r : WorkerRegistry File)
      → IsPort r.tunnel_port_allocator
      → nth_port k r
        ≡ first_tunnel_port + (r.tunnel_port_allocator - first_tunnel_port + k) % port_count
  unfolding nth_port allocate_tunnel_port
  nth_port_lem zero r h = omega arith
  nth_port_lem (suc k) r h =
      let e = next_port_lem r.tunnel_port_allocator h in
      omega (arith, e, nth_port_lem k (allocate_tunnel_port r).0 (omega (arith, e)))

  -- Every port that is handed out is at least 18000 and fits 16 bits; two calls less than 47536
  -- apart get different ports, and the call 47536 later gets the same port again.
  pub nth_port_distinct :
      (i j : ℕ) (r : WorkerRegistry File)
      → IsPort r.tunnel_port_allocator
      → i < j
      → IsPort (nth_port i r)
        × (j < i + port_count → nth_port i r ≢ nth_port j r)
        × (nth_port (i + port_count) r ≡ nth_port i r)
  nth_port_distinct i j r h lt =
      let a = nth_port_lem i r h in
      let b = nth_port_lem j r h in
      let c = nth_port_lem (i + port_count) r h in
      (omega (arith, a), λ near. omega (arith, a, b), omega (arith, a, c))
