-- ===== src/Registry/Credits.antt =====
-- What the credits file keeps, and what it loses.
use enjambre_worker.Prelude.{
  ℕ, ◌≡◌, refl, [], ◌∷◌, Option, none, some, arith, map_option, Option-cases, inl, inr,
}
use enjambre_worker.Prelude.Text.{Text, codes, same_text, same_text_iff}
use enjambre_worker.Prelude.Maps.{HashMap, get, insert, Unique, get-insert}
use enjambre_worker.Storage.{Storage, IsDurable}
use enjambre_worker.Json.{
  Value, Fields, number, object, end, field, find_field, insert_field, find_field-insert_field,
  as_u64, at,
}
use enjambre_worker.Registry.{WorkerNode, WorkerRegistry, get_worker_credits}
use enjambre_worker.Registry.Files.{
  workers_map, credits_json, read_workers, read_credits, load_credits, save_credits, save_at,
}

abbrev FieldsUnique : Fields → Type 0
FieldsUnique end = Unit
FieldsUnique (field j v fs) = (find_field j fs ≡ none) × FieldsUnique fs

insert_field-FieldsUnique :
    (k : Text) (v : Value) (fs : Fields) → FieldsUnique fs → FieldsUnique (insert_field k v fs)
unfolding insert_field
insert_field-FieldsUnique k v end u = (unfold find_field in refl, tt)
insert_field-FieldsUnique k v (field j w fs) (n, u) = ground (
  arith,
  insert_field-FieldsUnique k v fs u,
  find_field-insert_field k j v fs,
  same_text_iff j k,
  same_text_iff k j,
)

abbrev worker_data : WorkerNode → Value
worker_data w = object (insert_field (codes "credits") (number w.credits) end)

workers_map-FieldsUnique :
    (ws : HashMap WorkerNode) (done : Fields)
    → FieldsUnique done
    → FieldsUnique (workers_map ws done)
unfolding workers_map
workers_map-FieldsUnique [] done u = u
workers_map-FieldsUnique ((id, w) ∷ ws) done u =
    workers_map-FieldsUnique ws _ (insert_field-FieldsUnique id (worker_data w) done u)

find_field-workers_map :
    (id : Text) (ws : HashMap WorkerNode) (done : Fields)
    → Unique ws
    → find_field id (workers_map ws done)
      ≡ elim (get id ws) [ none ↦ find_field id done | some w ↦ some (worker_data w) ]
unfolding workers_map get
find_field-workers_map id [] done u = refl
find_field-workers_map id ((j, w) ∷ ws) done (n, u) = ground (
  arith,
  find_field-workers_map id ws (insert_field j (worker_data w) done) u,
  find_field-insert_field j id (worker_data w) done,
  same_text_iff j id,
)

-- The credits that one worker's object holds.
abbrev credits_of : Value → Option ℕ
credits_of wdata = as_u64 (at (codes "credits") wdata)

credits_of-worker_data : (w : WorkerNode) → credits_of (worker_data w) ≡ some w.credits
unfolding insert_field find_field same_text
credits_of-worker_data w = refl

get-read_workers :
    (id : Text) (fs : Fields) (done : HashMap ℕ)
    → FieldsUnique fs
    → get id (read_workers fs done) ≡ elim (find_field id fs) [
      | none ↦ get id done
      | some wdata ↦ elim (credits_of wdata) [ none ↦ get id done | some c ↦ some c ]
    ]
unfolding read_workers find_field
get-read_workers id end done u = refl
get-read_workers id (field j v fs) done (n, u) = elim (Option-cases (credits_of v)) [
  | inl e ↦ rw (e, read_workers) (ground (arith, get-read_workers id fs done u, same_text_iff j id))
  | inr (c, e) ↦
      rw (e, read_workers)
        (ground (
          arith,
          get-read_workers id fs (insert j c done) u,
          get-insert j id c done,
          same_text_iff j id,
        ))
]

-- What `load_credits` reads from what `save_credits` prints.
read_credits-credits_json :
    (pool : ℕ) (ws : HashMap WorkerNode)
    → read_credits (credits_json pool ws) ≡ (pool, read_workers (workers_map ws end) [])
unfolding read_credits credits_json find_field insert_field same_text
read_credits-credits_json pool ws = refl

saved :
    (id : Text) (ws : HashMap WorkerNode)
    → Unique ws
    → get id (read_workers (workers_map ws end) []) ≡ map_option (λ w. w.credits) (get id ws)
unfolding find_field get
saved id ws u =
    let read = get-read_workers id (workers_map ws end) [] (workers_map-FieldsUnique ws end tt) in
    let found = find_field-workers_map id ws end u in
    elim (Option-cases (get id ws)) [
      | inl e ↦ ground (arith, read, found)
      | inr (w, e) ↦ ground (arith, read, found, credits_of-worker_data w)
    ]

module _ (s : Storage Value) (d : IsDurable s) where
  -- Where files keep what is written, a file that `save_credits` has written gives back the pool
  -- and the credits of each worker in the table, and nothing for any other: the credits of a worker
  -- that has left are lost.
  pub load_credits-save_credits :
      (p : Text) (pool : ℕ) (id : Text) (r : WorkerRegistry s.File)
      → r.credits_file ≡ some p
      → Unique r.workers
      → let (pool', saved_credits) = load_credits s (save_credits s pool r).disk in
        (pool' ≡ pool) × (get id saved_credits ≡ get_worker_credits id r)
  unfolding get_worker_credits load_credits save_credits save_at
  load_credits-save_credits p pool id r e u =
      let (f, pr, rd) = d.printed (credits_json pool r.workers) in
      ground (
        arith,
        e,
        pr,
        rd,
        d.written f r.disk,
        read_credits-credits_json pool r.workers,
        saved id r.workers u,
      )
