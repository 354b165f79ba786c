-- ===== src/Process/Drop.antt =====
-- That drop closes what a start has kept.
use enjambre_worker.Prelude.{
  ℕ, ◌≡◌, ◌≢◌, List, Option, ap, ◌||◌, ◌==◌, if◌then◌else◌, arith, Bool-cases, Option-cases, inl,
  inr,
}
use enjambre_worker.Prelude.Text.{Text}
use enjambre_worker.Process.{
  limit_flags, Windows, ProcessInformation, StartupInfo, LlamaProcess, Spawned, ok, err, null,
  job_name, open_std, assign, after_create, start, spawn, close_if_open, drop, cmd_line,
}
use enjambre_worker.Process.System.{closed, job, View, OpensHandles}
use enjambre_worker.Process.Handles.{Opened, open_std-Opened, left, spawn-handle}

module _ (O : Windows) (V : View O) (L : OpensHandles O V) where
  -- The handles that a start keeps were closed before it, and are two.
  abbrev pub KeepsNew : O.State → Spawned → Type 0
  KeepsNew s (err call) = Unit
  KeepsNew s (ok p) =
      (V.handle s p.job_handle ≡ closed)
      × (V.handle s p.process_handle ≡ closed)
      × (p.job_handle ≢ p.process_handle)

  module _ (j : ℕ) (s t : O.State) (si : StartupInfo) (s' : O.State)
      (fresh : V.handle s' j ≡ closed)
      (with_job : (k : ℕ) → V.handle s k ≡ (if k == j then job (job_name O) else V.handle s' k))
      (opened : Opened O V L s (si, t)) where
    assign-KeepsNew :
        (pi : ProcessInformation) (u : O.State)
        → V.handle t pi.process_handle ≡ closed
        → KeepsNew s' (assign O j si pi u).0
    unfolding assign
    assign-KeepsNew pi u fp =
        let (same, fresh_in, fresh_err, others, in_open, err_open) = opened in
        elim (Bool-cases (O.assign_process j pi.process_handle u).0) [
          | inl y ↦ rw y (
              ground (
                arith,
                fresh,
                with_job pi.process_handle,
                with_job j,
                others pi.process_handle,
                in_open,
                err_open,
                others j,
                L.invalid_closed s,
                fp,
              ))
          | inr n ↦ rw n tt
        ]

    after_create-KeepsNew :
        (program line : Text)
        → KeepsNew s'
            (after_create O j si
              (O.create_process program line si t).0
              (O.create_process program line si t).1).0
    unfolding after_create
    after_create-KeepsNew program line =
        let r = O.create_process program line si t in
        elim (Option-cases r.0) [
          | inl n ↦ rw n tt
          | inr (pi, y) ↦ rw y (
              assign-KeepsNew pi (O.close_handle pi.thread_handle r.1)
                (L.process_fresh program line si t pi y).0)
        ]

  pub spawn-KeepsNew :
      (program : Text) (args : List Text) (stderr_log : Option Text) (s : O.State)
      → KeepsNew s (spawn O program args stderr_log s).0
  unfolding spawn start
  spawn-KeepsNew program args stderr_log s =
      let (j, t) = O.create_job_object (job_name O) s in
      let (set, u) = O.set_information j limit_flags t in
      let (si, v) = open_std O stderr_log u in
      elim (Bool-cases (j == null)) [
        | inl z ↦ rw z tt
        | inr nz ↦ elim (Bool-cases set) [
          | inl y ↦
              rw (nz, y)
                (after_create-KeepsNew j u v si s (L.job_fresh (job_name O) s)
                  (λ k.
                    ground (
                      arith,
                      L.information_set j limit_flags t k,
                      L.job_opened (job_name O) s k,
                      nz,
                    ))
                  (open_std-Opened O V L stderr_log u) program (cmd_line program args))
          | inr n ↦ rw (nz, n) tt
        ]
      ]

  drop-handle :
      (p : LlamaProcess) (s : O.State) (h : ℕ)
      → V.handle (drop O p s) h
        ≡ (if (h == p.job_handle) || (h == p.process_handle) then closed else V.handle s h)
  unfolding drop close_if_open
  drop-handle p s h = ground (
    arith,
    L.null_closed s,
    L.handle_closed p.job_handle s h,
    L.handle_closed p.process_handle s h,
    L.handle_closed p.process_handle (O.close_handle p.job_handle s) h,
  )

  -- A child that has been started and is dropped leaves each handle as it was before the start.
  drop-spawn :
      (program : Text) (args : List Text) (stderr_log : Option Text) (s t : O.State)
      (p : LlamaProcess) (h : ℕ)
      → spawn O program args stderr_log s ≡ (ok p, t)
      → V.handle (drop O p t) h ≡ V.handle s h
  drop-spawn program args stderr_log s t p h e =
      let new : KeepsNew s (ok p) =
        rw (ap (λ r. r.0) e) at (spawn-KeepsNew program args stderr_log s) in
      let after : V.handle t h ≡ left O V L (ok p) (V.handle s h) h =
        rw e at (spawn-handle O V L program args stderr_log s h) in
      ground (arith, new, after, drop-handle p t h)
