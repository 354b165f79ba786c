-- ===== src/Registry/Slaves.antt =====
-- What the registry tells of the GPU providers, and to whom.
use enjambre_worker.Prelude.{
  ℕ, ◌≡◌, refl, ◌≢◌, ◌↔◌, ◌⊎◌, true, List, [], ◌∷◌, none, some, map, filter_by, arith,
}
use enjambre_worker.Prelude.Text.{Text, same_text_iff}
use enjambre_worker.Prelude.Maps.{HashMap, modify, values}
use enjambre_worker.Registry.{
  is_gpu_provider, WorkerNode, WorkerRegistry, refresh, same_texts, update_line,
  get_rpc_slave_addrs, check_slave_change, update_heartbeat,
}

same_texts_iff : (a b : List Text) → (same_texts a b ≡ true) ↔ (a ≡ b)
unfolding same_texts
same_texts_iff [] [] = ground arith
same_texts_iff [] (t ∷ b) = ((λ h. cc), (λ h. cc))
same_texts_iff (s ∷ a) [] = ((λ h. cc), (λ h. cc))
same_texts_iff (s ∷ a) (t ∷ b) = ground (arith, same_text_iff s t, same_texts_iff a b)

-- The addresses of the GPU providers in a table.
abbrev provider_addrs : HashMap WorkerNode → List Text
provider_addrs ws = map (λ w. w.addr) (filter_by (λ w. is_gpu_provider w.role) (values ws))

provider_addrs-modify :
    (id : Text) (vram ram now : ℕ) (ws : HashMap WorkerNode)
    → provider_addrs (modify id (refresh vram ram now) ws) ≡ provider_addrs ws
unfolding modify values
provider_addrs-modify id vram ram now [] = refl
provider_addrs-modify id vram ram now ((j, w) ∷ ws) =
    ground (arith, provider_addrs-modify id vram ram now ws)

module _ {File : Type 0} where
  -- A heartbeat moves no provider.
  pub get_rpc_slave_addrs-update_heartbeat :
      (id : Text) (vram ram now : ℕ) (r : WorkerRegistry File)
      → get_rpc_slave_addrs (update_heartbeat id vram ram now r).0 ≡ get_rpc_slave_addrs r
  unfolding get_rpc_slave_addrs update_heartbeat
  get_rpc_slave_addrs-update_heartbeat id vram ram now r =
      ground (arith, provider_addrs-modify id vram ram now r.workers)

  -- The registry remembers the addresses that it has looked at. It reports them exactly if they
  -- differ from the last ones and there is one at least; so the loss of the last provider is not
  -- reported.
  pub check_slave_change_lem :
      (r : WorkerRegistry File)
      → let current = get_rpc_slave_addrs r in
        let (r', report) = check_slave_change r in
        (r'.last_slave_list ≡ current)
        × (get_rpc_slave_addrs r' ≡ current)
        × (((current ≢ r.last_slave_list) × (current ≢ []) × (report ≡ some (update_line current)))
            ⊎ (((current ≡ r.last_slave_list) ⊎ (current ≡ [])) × (report ≡ none)))
  unfolding check_slave_change
  check_slave_change_lem r =
      let e = same_texts_iff (get_rpc_slave_addrs r) r.last_slave_list in
      (ground (arith, e), unfold get_rpc_slave_addrs in ground arith, ground (arith, e))

  -- A look at addresses that have been looked at reports nothing.
  pub check_slave_change_seen :
      (r : WorkerRegistry File)
      → get_rpc_slave_addrs r ≡ r.last_slave_list
      → check_slave_change r ≡ (r, none)
  unfolding check_slave_change
  check_slave_change_seen r h =
      ground (arith, same_texts_iff (get_rpc_slave_addrs r) r.last_slave_list)
