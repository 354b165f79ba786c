-- ===== src/Connection/Replies.antt =====
-- What a worker is told.
use enjambre_worker.Prelude.{
  Option, ◌⊎◌, ℕ, ◌≡◌, refl, ◌∙◌, ◌≢◌, true, [], ◌∷◌, none, some, arith, if◌then◌else◌, ap, sym,
}
use enjambre_worker.Prelude.Text.{Text, codes, same_text, trim, trim_start, trim_end}
use enjambre_worker.Prelude.Maps.{get, modify, get-modify, get-modify_self, get-modify_ne}
use enjambre_worker.Protocol.{parse_line}
use enjambre_worker.Registry.{
  MasterConfig, WorkerNode, WorkerRegistry, refresh, update_heartbeat, check_slave_change,
  get_rpc_slave_addrs, get_worker_credits, update_line,
}
use enjambre_worker.Registry.Slaves.{
  check_slave_change_lem, check_slave_change_seen, get_rpc_slave_addrs-update_heartbeat,
}
use enjambre_worker.Connection.{Connection, line, Status, heartbeat, pong_line, unknown_line, turn}

module _ {File : Type 0} where
  -- A line that is no command leaves the registry and the connection alone and is answered by an
  -- error; so is the answer `MODEL_READY` of a super node, since the buffer that is compared with
  -- it has been cleared.
  turn_unknown :
      (config : MasterConfig) (c : Connection) (now : ℕ) (text : Text) (r : WorkerRegistry File)
      → parse_line (trim text) ≡ none
      → turn config c now (line text) r ≡ record {
        registry = r;
        connection = c;
        output = codes "ERROR:invalid_command\n" ∷ [];
        response = none;
        status = Status.running;
      }
  unfolding turn unknown_line trim trim_start trim_end same_text
  turn_unknown config c now text r h = rw h

  -- What a heartbeat does: a worker that is not in the table is told so, and nothing changes.
  heartbeat_unknown :
      (c : Connection) (now : ℕ) (id : Text) (vram ram : ℕ) (r : WorkerRegistry File)
      → get id r.workers ≡ none
      → let t = heartbeat c now id vram ram r in
        (t.registry ≡ r) × (t.output ≡ codes "ERROR:worker_not_found\n" ∷ [])
  unfolding heartbeat update_heartbeat
  heartbeat_unknown c now id vram ram r h = ground arith

  abbrev refreshed : Text → ℕ → ℕ → ℕ → WorkerRegistry File → WorkerRegistry File
  refreshed id vram ram now r = record r { workers = modify id (refresh vram ram now) r.workers }

  update_heartbeat_known :
      (id : Text) (vram ram now : ℕ) (r : WorkerRegistry File) {w : WorkerNode}
      → get id r.workers ≡ some w
      → update_heartbeat id vram ram now r ≡ (refreshed id vram ram now r, true)
  unfolding update_heartbeat
  update_heartbeat_known id vram ram now r h = ground arith

  check_slave_change-workers :
      (r : WorkerRegistry File) → (check_slave_change r).0.workers ≡ r.workers
  unfolding check_slave_change
  check_slave_change-workers r = ground arith

  heartbeat_step :
      (c : Connection) (now : ℕ) (id : Text) (vram ram : ℕ) (r : WorkerRegistry File)
      {w : WorkerNode}
      → get id r.workers ≡ some w
      → let (r', report) = check_slave_change (refreshed id vram ram now r) in
        heartbeat c now id vram ram r ≡ record {
          registry = r';
          connection = c;
          output = pong_line w.credits report ∷ [];
          response = none;
          status = Status.running;
        }
  unfolding heartbeat get_worker_credits
  heartbeat_step c now id vram ram r {w} h =
      let stored = get-modify_self id (refresh vram ram now) r.workers in
      rw (update_heartbeat_known id vram ram now r h) (ground (arith, stored, h))

  -- A worker in the table gets its free memory and its last sign of life written down, its role,
  -- address and credits stay, and it is told its credits and the change of the providers, if there
  -- is one to report; no other worker changes.
  heartbeat_known :
      (c : Connection) (now : ℕ) (id : Text) (vram ram : ℕ) (r : WorkerRegistry File)
      (w : WorkerNode)
      → get id r.workers ≡ some w
      → let t = heartbeat c now id vram ram r in
        let report = (check_slave_change (update_heartbeat id vram ram now r).0).1 in
        (get id t.registry.workers ≡ some (refresh vram ram now w))
        × ((j : Text) → id ≢ j → get j t.registry.workers ≡ get j r.workers)
        × (t.output ≡ pong_line w.credits report ∷ [])
        × (t.registry.last_slave_list ≡ get_rpc_slave_addrs r)
  heartbeat_known c now id vram ram r w h =
      let r1 = refreshed id vram ram now r in
      let told = check_slave_change_lem r1 in
      let same = get_rpc_slave_addrs-update_heartbeat id vram ram now r in
      let known = update_heartbeat_known id vram ram now r h in
      rw (heartbeat_step c now id vram ram r h, known, check_slave_change-workers r1)
        (
          ground (arith, h, get-modify_self id (refresh vram ram now) r.workers),
          λ j n. get-modify_ne id j (refresh vram ram now) r.workers n,
          refl,
          told.0 ∙ ap get_rpc_slave_addrs (sym (ap (λ p. p.0) known)) ∙ same,
        )

  still_there :
      (id k : Text) (vram ram now : ℕ) (r : WorkerRegistry File) {w : WorkerNode}
      → get k r.workers ≡ some w
      → (w' : WorkerNode) × (get k (refreshed id vram ram now r).workers ≡ some w')
        × (w'.credits ≡ w.credits)
  still_there id k vram ram now r {w} h = (
    if same_text id k then refresh vram ram now w else w,
    ground (arith, h, get-modify id k (refresh vram ram now) r.workers),
    ground arith,
  )

  -- Behind a look at the providers, a heartbeat of any worker reports nothing.
  heartbeat_seen :
      (c : Connection) (now : ℕ) (id : Text) (vram ram : ℕ) (r : WorkerRegistry File)
      {w : WorkerNode}
      → get id r.workers ≡ some w
      → get_rpc_slave_addrs r ≡ r.last_slave_list
      → (heartbeat c now id vram ram r).output ≡ pong_line w.credits none ∷ []
  heartbeat_seen c now id vram ram r h seen =
      let r1 = refreshed id vram ram now r in
      let known = update_heartbeat_known id vram ram now r h in
      let same = get_rpc_slave_addrs-update_heartbeat id vram ram now r in
      let addrs : get_rpc_slave_addrs r1 ≡ r1.last_slave_list =
        ap get_rpc_slave_addrs (sym (ap (λ p. p.0) known)) ∙ same ∙ seen in
      rw (heartbeat_step c now id vram ram r h, check_slave_change_seen r1 addrs)

  -- What a heartbeat is to tell: the addresses of the providers, where they are not those that were
  -- looked at last and there is one.
  abbrev pub IsNews : WorkerRegistry File → Option Text → Type 0
  IsNews r report =
      let current = get_rpc_slave_addrs r in
      ((current ≢ r.last_slave_list) × (current ≢ []) × (report ≡ some (update_line current)))
      ⊎ (((current ≡ r.last_slave_list) ⊎ (current ≡ [])) × (report ≡ none))

  heartbeat_told :
      (c : Connection) (now : ℕ) (id : Text) (vram ram : ℕ) (r : WorkerRegistry File)
      (v : WorkerNode)
      → get id r.workers ≡ some v
      → (report : Option Text) × ((heartbeat c now id vram ram r).output
          ≡ pong_line v.credits report ∷ [])
        × IsNews r report
  heartbeat_told c now id vram ram r v h =
      let r1 = refreshed id vram ram now r in
      let known = update_heartbeat_known id vram ram now r h in
      let same : get_rpc_slave_addrs r1 ≡ get_rpc_slave_addrs r =
        ap get_rpc_slave_addrs (sym (ap (λ p. p.0) known))
        ∙ get_rpc_slave_addrs-update_heartbeat id vram ram now r in
      (
        (check_slave_change r1).1,
        rw (heartbeat_step c now id vram ram r h) refl,
        rw same at (check_slave_change_lem r1).2,
      )

  -- A change of the providers is told once, to whichever worker in the table sends the next
  -- heartbeat: it is told its credits and the addresses of the providers, if they are not those
  -- that were looked at last and there is one; the heartbeat behind it, of any worker in the
  -- table, is told the credits of that worker and no change.
  pub heartbeat_told_once :
      (c d : Connection) (now later : ℕ) (id next_id : Text) (vram ram vram' ram' : ℕ)
      (r : WorkerRegistry File) (v w : WorkerNode)
      → get id r.workers ≡ some v
      → get next_id r.workers ≡ some w
      → let t = heartbeat c now id vram ram r in
        ((report : Option Text) × (t.output ≡ pong_line v.credits report ∷ []) × IsNews r report)
        × ((heartbeat d later next_id vram' ram' t.registry).output ≡ pong_line w.credits none ∷ [])
  heartbeat_told_once c d now later id next_id vram ram vram' ram' r v w hv hw =
      let r1 = refreshed id vram ram now r in
      let told = check_slave_change_lem r1 in
      let (w', there, same) = still_there id next_id vram ram now r hw in
      let seen =
        heartbeat_seen d later next_id vram' ram' (check_slave_change r1).0 {w = w'}
          (rw (check_slave_change-workers r1) there) (told.1 ∙ sym told.0) in
      (
        heartbeat_told c now id vram ram r v hv,
        rw (heartbeat_step c now id vram ram r hv) (seen ∙ ap (λ n. pong_line n none ∷ []) same),
      )
