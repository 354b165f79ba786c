-- ===== src/Api/Chat/Cost.antt =====
-- Who is admitted to `chat_completions` of src/api.rs, and what each outcome costs.
use enjambre_worker.Prelude.{
  suc, ◌+◌, ◌-◌, ◌%◌, ◌<◌, ◌≤◌, ◌≡◌, refl, ◌≢◌, ◌↔◌, ◌⊎◌, inl, inr, true, false, List, [], ◌∷◌,
  Option, none, some, arith, length, ◌>>=◌, Option-cases, Bool-cases, u64_mod,
}
use enjambre_worker.Prelude.Text.{Text, codes, same_text_iff}
use enjambre_worker.Prelude.Maps.{HashMap, get, total}
use enjambre_worker.Storage.{Storage}
use enjambre_worker.Json.{Value, get_field, as_str}
use enjambre_worker.Registry.{WorkerNode}
use enjambre_worker.Registry.Earnings.{add_credits_to_super_node_lem}
use enjambre_worker.Keys.{ApiKey, spend, get_key, validate_key}
use enjambre_worker.Keys.Spending.{validate_key-deduct_credit}
use enjambre_worker.Http.{Read, Buffer, filled, failed, read_headers, cut_headers, parse_head, Head}
use enjambre_worker.Api.{ApiState, HandlerResult, ok, err}
use enjambre_worker.Api.Chat.{
  Connect, timed_out, refused, connected, Exchange, Outcome, response, rejected, panicked,
  is_success, api_key, check_pool, check_model, check_body, admit, charge, settle, answer_head,
  answer_buffer, answer_written, answer_connected, answer_admitted, answer, chat_completions,
}

-- A response with a status of success, or the abort that stands in for one.
abbrev pub Succeeds : Outcome → Type 0
Succeeds (response r) = is_success r.status ≡ true
Succeeds (rejected status v) = ⊥
Succeeds panicked = Unit

-- Anything but a response with a status of success.
abbrev pub Fails : Outcome → Type 0
Fails (response r) = is_success r.status ≡ false
Fails _ = Unit

module _ (to_str : Text → Option Text) (from_slice : Text → Option Value)
    (header_value : Text → Option Text) (ks : Storage (HashMap ApiKey)) (rs : Storage Value) where
  -- The model that a body names is the active one, if it names one.
  abbrev pub AsksFor : Text → Text → Type 0
  AsksFor model body =
      (v : Value) × (from_slice body ≡ some v)
      × ((get_field (codes "model") v >>= as_str ≡ none)
          ⊎ (get_field (codes "model") v >>= as_str ≡ some model))

  check_pool_iff :
      (key e : ApiKey) (state : ApiState ks.File rs.File)
      → (check_pool to_str from_slice header_value ks rs key state ≡ ok e)
        ↔ ((key ≡ e) × (state.credit_pool ≢ 0))
  unfolding check_pool
  check_pool_iff key e state = ground arith

  check_model_iff :
      (m : Option Text) (key e : ApiKey) (state : ApiState ks.File rs.File)
      → (check_model to_str from_slice header_value ks rs m key state ≡ ok e)
        ↔ ((key ≡ e) × (state.credit_pool ≢ 0) × ((m ≡ none) ⊎ (m ≡ some state.model_name)))
  unfolding check_model
  check_model_iff none key e state = ground (arith, check_pool_iff key e state)
  check_model_iff (some t) key e state =
      ground (arith, check_pool_iff key e state, same_text_iff t state.model_name)

  -- A request is admitted, as the entry of its key, exactly where it carries a key that
  -- `validate_key` passes, its body is JSON that names no other model than the active one, and the
  -- pool is not empty.
  pub admit_iff :
      (headers : HashMap Text) (body : Text) (e : ApiKey) (state : ApiState ks.File rs.File)
      → (admit to_str from_slice header_value ks rs headers body state ≡ ok e) ↔ (
          (k : Text) × (api_key to_str from_slice header_value ks rs headers ≡ some k)
          × (validate_key ks k state.key_manager ≡ some e)
          × AsksFor state.model_name body
          × (state.credit_pool ≢ 0))
  unfolding admit check_body
  admit_iff headers body e state =
      elim (Option-cases (api_key to_str from_slice header_value ks rs headers)) [
        | inl n ↦ ground (arith, n)
        | inr (k, p) ↦ elim (Option-cases (validate_key ks k state.key_manager)) [
          | inl n ↦ ground (arith, p, n)
          | inr (key, v) ↦ elim (Option-cases (from_slice body)) [
            | inl n ↦ ground (arith, p, v, n)
            | inr (b, f) ↦ ground (
              arith,
              p,
              v,
              f,
              check_model_iff (get_field (codes "model") b >>= as_str) key e state,
            )
          ]
        ]
      ]

  -- What a run of `chat_completions` may be: charged with a success, or free.
  abbrev Charged : ApiKey → ApiState ks.File rs.File → ApiState ks.File rs.File × Outcome → Type 0
  Charged key state (state', out) =
      ((state' ≡ charge to_str from_slice header_value ks rs key state) × Succeeds out)
      ⊎ ((state' ≡ state) × Fails out)

  settle-Charged :
      (key : ApiKey) (head : Head) (leftover : Text) (reads : List Read)
      (state : ApiState ks.File rs.File)
      → Charged key state
          (settle to_str from_slice header_value ks rs key head leftover reads state)
  unfolding settle
  settle-Charged key head leftover reads state = elim (Bool-cases (is_success head.status_code)) [
    | inl y ↦ elim (Option-cases (header_value head.content_type)) [
      | inl n ↦ inl (ground (arith, y), rw (n, Succeeds) tt)
      | inr (v, n) ↦ inl (ground (arith, y), rw (n, Succeeds) (ground (arith, y)))
    ]
    | inr y ↦ elim (Option-cases (header_value head.content_type)) [
      | inl n ↦ inr (ground (arith, y), rw (n, Fails) tt)
      | inr (v, n) ↦ inr (ground (arith, y), rw (n, Fails) (ground (arith, y)))
    ]
  ]

  answer_buffer-Charged :
      (key : ApiKey) (b : Buffer) (state : ApiState ks.File rs.File)
      → Charged key state (answer_buffer to_str from_slice header_value ks rs key b state)
  unfolding answer_buffer answer_head
  answer_buffer-Charged key (failed e) state = inr (refl, tt)
  answer_buffer-Charged key (filled buf reads) state = elim (Option-cases (cut_headers buf)) [
    | inl n ↦ rw n (inr (refl, tt))
    | inr ((h, l), n) ↦ rw n (settle-Charged key (parse_head h) l reads state)
  ]

  -- Once admitted, a request is charged where it ends with a status of success (or aborts on the
  -- content type of one), by the state at that time, and is free of charge where it ends with
  -- another status or an error of the relay.
  pub answer_lem :
      (key : ApiKey) (x : Exchange) (state : ApiState ks.File rs.File)
      → Charged key state (answer to_str from_slice header_value ks rs key x state)
  unfolding answer answer_connected answer_written
  answer_lem key x state = by_connect x.connect x.write_error x.reads state
    where
      by_connect :
          (c : Connect) (w : Option Text) (reads : List Read) (state : ApiState ks.File rs.File)
          → Charged key state (
              answer to_str from_slice header_value ks rs key
                (record { connect = c; write_error = w; reads = reads })
                state)
      by_connect timed_out w reads state = inr (refl, tt)
      by_connect (refused e) w reads state = inr (refl, tt)
      by_connect connected (some e) reads state = inr (refl, tt)
      by_connect connected none reads state =
          answer_buffer-Charged key (read_headers reads []) state

  answer_admitted_lem :
      (a : HandlerResult ApiKey) (x : Exchange) (state : ApiState ks.File rs.File)
      → let (state', out) = answer_admitted to_str from_slice header_value ks rs a x state in
        ((e : ApiKey) × (a ≡ ok e)
          × (state' ≡ charge to_str from_slice header_value ks rs e state)
          × Succeeds out)
        ⊎ ((state' ≡ state) × Fails out)
  unfolding answer_admitted
  answer_admitted_lem (err status v) x state = inr (refl, tt)
  answer_admitted_lem (ok e) x state = elim (answer_lem e x state) [
    | inl (p, q) ↦ inl (e, refl, p, q)
    | inr p ↦ inr p
  ]

  -- What a whole run comes to: a request that is not admitted changes nothing; one that is admitted
  -- is charged once, to the key that was validated, where it ends with a status of success, and
  -- costs nothing otherwise.
  pub chat_completions_lem :
      (headers : HashMap Text) (body : Text) (x : Exchange) (state : ApiState ks.File rs.File)
      → let (state', out) =
          chat_completions to_str from_slice header_value ks rs headers body x state in
        ((e : ApiKey) × (admit to_str from_slice header_value ks rs headers body state ≡ ok e)
          × (state' ≡ charge to_str from_slice header_value ks rs e state)
          × Succeeds out)
        ⊎ ((state' ≡ state) × Fails out)
  unfolding chat_completions
  chat_completions_lem headers body x state =
      answer_admitted_lem (admit to_str from_slice header_value ks rs headers body state) x state

  -- A charge, where the pool is not empty, the key can be spent and the registry names a super node
  -- that is in the table with room for a credit: the pool loses one credit, the key loses one, and
  -- the workers have one more among them, so that the pool and the workers together have as many
  -- credits as before.
  pub charge_lem :
      (e : ApiKey) (sid : Text) (w : WorkerNode) (state : ApiState ks.File rs.File)
      → validate_key ks e.key state.key_manager ≡ some e
      → 0 < state.credit_pool
      → state.credit_pool < u64_mod
      → state.registry.super_node_id ≡ some sid
      → get sid state.registry.workers ≡ some w
      → w.credits + 1 < u64_mod
      → let state' = charge to_str from_slice header_value ks rs e state in
        (get_key ks e.key state'.key_manager ≡ some (spend e))
        × (state'.credit_pool + 1 ≡ state.credit_pool)
        × (state'.credit_pool + total (λ w. w.credits) state'.registry.workers
            ≡ state.credit_pool + total (λ w. w.credits) state.registry.workers)
  unfolding charge
  charge_lem e sid w state v p q n g r =
      let k = validate_key-deduct_credit ks e.key state.key_manager e v in
      let c =
        add_credits_to_super_node_lem rs 1 ((state.credit_pool + (u64_mod - 1)) % u64_mod) sid w
          state.registry n g r in
      (k.1, omega arith, omega (arith, c.1))

  -- The charges of several requests that have been admitted, in the order in which they end.
  pub charge_all : List ApiKey → ApiState ks.File rs.File → ApiState ks.File rs.File
  charge_all [] state = state
  charge_all (e ∷ es) state = charge_all es (charge to_str from_slice header_value ks rs e state)

  -- As many charges as the pool has credits take exactly their number; one more than that leaves
  -- the pool at the largest 64-bit number.
  pub charge_all_lem :
      (es : List ApiKey) (state : ApiState ks.File rs.File)
      → state.credit_pool < u64_mod
      → length es < u64_mod
      → let pool' = (charge_all es state).credit_pool in
        (length es ≤ state.credit_pool → pool' + length es ≡ state.credit_pool)
        × (length es ≡ suc state.credit_pool → pool' ≡ u64_mod - 1)
  unfolding charge_all charge
  charge_all_lem [] state h l = (λ x. omega arith, λ x. omega arith)
  charge_all_lem (e ∷ es) state h l = ground (
    arith,
    charge_all_lem es (charge to_str from_slice header_value ks rs e state) (ground arith)
        (ground arith),
  )
