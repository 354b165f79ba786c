-- ===== src/Heartbeat.antt =====
-- `spawn_heartbeat_checker` of src/master.rs: one round of its loop.
use enjambre_worker.Prelude.{
  ℕ, ◌-◌, ◌*◌, ◌^◌, ◌≡◌, refl, Bool, true, false, not, List, [], ◌∷◌, none, some, arith, ltb,
  if◌then◌else◌, filter_option,
}
use enjambre_worker.Prelude.Text.{Text, same_text, same_text_iff}
use enjambre_worker.Prelude.Maps.{HashMap, get, values, Unique, get-remove}
use enjambre_worker.Registry.{WorkerNode, WorkerRegistry, unregister, get_active_workers}
use enjambre_worker.Registry.Invariant.{IsValid, unregister-IsValid}

-- 120 seconds, in nanoseconds.
abbrev pub heartbeat_limit : ℕ
heartbeat_limit = 120 * 10 ^ 9

-- `now.duration_since(w.last_ping) > Duration::from_secs(120)`
abbrev pub is_late : ℕ → WorkerNode → Bool
is_late now w = ltb heartbeat_limit (now - w.last_ping)

-- The ids to remove, in the order of the workers.
unfoldable pub late_ids : ℕ → List WorkerNode → List Text
late_ids now [] = []
late_ids now (w ∷ ws) = let rest = late_ids now ws in if is_late now w then w.id ∷ rest else rest

unfoldable pub mem : Text → List Text → Bool
mem k [] = false
mem k (id ∷ ids) = if same_text id k then true else mem k ids

pub mem-late_ids :
    (now : ℕ) (k : Text) (ws : HashMap WorkerNode)
    → Unique ws
    → ((j : Text) (w : WorkerNode) → get j ws ≡ some w → w.id ≡ j)
    → mem k (late_ids now (values ws)) ≡ elim (get k ws) [ none ↦ false | some w ↦ is_late now w ]
unfolding mem late_ids values get
mem-late_ids now k [] u own = refl
mem-late_ids now k ((i, x) ∷ ws) (n, u) own = ground (
  arith,
  own i x (ground (arith, same_text_iff i i)),
  same_text_iff i k,
  mem-late_ids now k ws u λ j w e. ground (arith, own j w, same_text_iff i j),
)

module _ {File : Type 0} where
  unfoldable pub unregister_all : List Text → WorkerRegistry File → WorkerRegistry File
  unregister_all [] r = r
  unregister_all (id ∷ ids) r = unregister_all ids (unregister id r)

  unfoldable pub check_heartbeats : ℕ → WorkerRegistry File → WorkerRegistry File
  unfolding late_ids unregister_all
  check_heartbeats now r = unregister_all (late_ids now (get_active_workers r)) r

  unregister_all-IsValid :
      (ids : List Text) (r : WorkerRegistry File) → IsValid r → IsValid (unregister_all ids r)
  unfolding unregister_all
  unregister_all-IsValid [] r v = v
  unregister_all-IsValid (id ∷ ids) r v =
      unregister_all-IsValid ids (unregister id r) (unregister-IsValid id r v)

  pub check_heartbeats-IsValid :
      (now : ℕ) (r : WorkerRegistry File) → IsValid r → IsValid (check_heartbeats now r)
  unfolding check_heartbeats
  check_heartbeats-IsValid now r = unregister_all-IsValid (late_ids now (get_active_workers r)) r

  get-unregister_all :
      (k : Text) (ids : List Text) (r : WorkerRegistry File)
      → get k (unregister_all ids r).workers ≡ (if mem k ids then none else get k r.workers)
  unfolding unregister_all mem unregister
  get-unregister_all k [] r = refl
  get-unregister_all k (id ∷ ids) r =
      ground (arith, get-unregister_all k ids (unregister id r), get-remove id k r.workers)

  -- After a round exactly the workers are left that have sent a heartbeat in the last 120 seconds,
  -- each as it was.
  pub get-check_heartbeats :
      (now : ℕ) (k : Text) (r : WorkerRegistry File)
      → IsValid r
      → get k (check_heartbeats now r).workers
        ≡ filter_option (λ w. not (is_late now w)) (get k r.workers)
  unfolding check_heartbeats
  get-check_heartbeats now k r v =
      let late = mem-late_ids now k r.workers v.table.unique v.table.own in
      let left = get-unregister_all k (late_ids now (get_active_workers r)) r in
      unfold get_active_workers in ground (arith, late, left)
