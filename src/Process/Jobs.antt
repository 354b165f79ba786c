-- ===== src/Process/Jobs.antt =====
-- Which drop of a child process ends it: all children of one worker process are in one job, since
-- its name is made of the worker's process id alone.
use enjambre_worker.Prelude.{
  any, ℕ, ◌≡◌, ◌≢◌, ◌∙◌, ap, refl, true, false, not, List, Option, ◌==◌, arith, Bool-cases,
  Option-cases, inl, inr,
}
use enjambre_worker.Prelude.Text.{Text}
use enjambre_worker.Process.{
  limit_flags, Windows, ProcessInformation, StartupInfo, LlamaProcess, Spawned, ok, err, null,
  job_name, close_std, open_std, assign, after_create, start, spawn, close_if_open, drop, cmd_line,
}
use enjambre_worker.Process.System.{is_kill, job, process, View, OpensHandles, KillsOnClose}
use enjambre_worker.Process.Handles.{Opened, open_std-Opened, left, spawn-handle}
use enjambre_worker.Process.Drop.{KeepsNew, spawn-KeepsNew}
use enjambre_worker.Process.Limits.{spawn-Limited}

module _ (O : Windows) (V : View O) (L : OpensHandles O V) (K : KillsOnClose O V) where
  close_std-member :
      (si : StartupInfo) (s : O.State) (name : Text) (pid : ℕ)
      → V.member s name pid ≡ true
      → V.member (close_std O si s) name pid ≡ true
  unfolding close_std
  close_std-member si s name pid e =
      let a = O.close_handle si.std_input s in
      let b = O.close_handle si.std_output a in
      let in_b = K.stays si.std_output a name pid (K.stays si.std_input s name pid e) in
      elim (Bool-cases (not (si.std_error == si.std_input))) [
        | inl y ↦ rw y (K.stays si.std_error b name pid in_b)
        | inr n ↦ rw n in_b
      ]

  -- A child that has been started is in the job of the worker.
  abbrev Joined : Spawned × O.State → Type 0
  Joined (err call, s) = Unit
  Joined (ok p, s) = V.member s (job_name O) p.pid ≡ true

  assign-Joined :
      (j : ℕ) (si : StartupInfo) (pi : ProcessInformation) (s : O.State)
      → V.handle s j ≡ job (job_name O)
      → V.handle s pi.process_handle ≡ process pi.process_id
      → Joined (assign O j si pi s)
  unfolding assign
  assign-Joined j si pi s ej ep = elim (Bool-cases (O.assign_process j pi.process_handle s).0) [
    | inl y ↦ rw y (
        close_std-member si (O.assign_process j pi.process_handle s).1 (job_name O) pi.process_id
          (K.joined j pi.process_handle s (job_name O) pi.process_id ej ep y))
    | inr n ↦ rw n tt
  ]

  after_create-Joined :
      (j : ℕ) (s t : O.State) (si : StartupInfo) (program line : Text)
      → V.handle s j ≡ job (job_name O)
      → Opened O V L s (si, t)
      → Joined (
          after_create O j si
            (O.create_process program line si t).0
            (O.create_process program line si t).1)
  unfolding after_create
  after_create-Joined j s t si program line e (same, fresh_in, fresh_err, others, _, _) =
      let r = O.create_process program line si t in
      elim (Option-cases r.0) [
        | inl n ↦ rw n tt
        | inr (pi, y) ↦
            let (fp, ft, _, ne) = L.process_fresh program line si t pi y in
            let u = O.close_handle pi.thread_handle r.1 in
            rw y (
              assign-Joined j si pi u
                (ground (
                  arith,
                  L.handle_closed pi.thread_handle r.1 j,
                  others j,
                  e,
                  L.process_opened program line si t pi j y,
                ))
                (ground (
                  arith,
                  L.handle_closed pi.thread_handle r.1 pi.process_handle,
                  L.process_opened program line si t pi pi.process_handle y,
                )))
      ]

  spawn-Joined :
      (program : Text) (args : List Text) (stderr_log : Option Text) (s : O.State)
      → Joined (spawn O program args stderr_log s)
  unfolding spawn start
  spawn-Joined program args stderr_log s =
      let (j, t) = O.create_job_object (job_name O) s in
      let (set, u) = O.set_information j limit_flags t in
      let (si, v) = open_std O stderr_log u in
      elim (Bool-cases (j == null)) [
        | inl z ↦ rw z tt
        | inr nz ↦ elim (Bool-cases set) [
          | inl y ↦
              rw (nz, y)
                (after_create-Joined j u v si program (cmd_line program args)
                  (ground
                    (arith, L.information_set j limit_flags t j, L.job_opened (job_name O) s j, nz))
                  (open_std-Opened O V L stderr_log u))
          | inr n ↦ rw (nz, n) tt
        ]
      ]

  -- Closing the process handle ends no process.
  drop-runs :
      (p : LlamaProcess) (s : O.State) (pid : ℕ)
      → (p.job_handle == null) ≡ false
      → ((name : Text) → V.handle s p.process_handle ≢ job name)
      → V.runs (drop O p s) pid ≡ V.runs (O.close_handle p.job_handle s) pid
  unfolding drop close_if_open
  drop-runs p s pid nz other =
      let t = O.close_handle p.job_handle s in
      elim (Bool-cases (p.process_handle == null)) [
        | inl z ↦ rw (nz, z) refl
        | inr n ↦
            rw (nz, n)
              (K.unrelated p.process_handle t pid λ name e.
                other name (ground (arith, L.handle_closed p.job_handle s p.process_handle, e)))
      ]

  module _ (program : Text) (args : List Text) (stderr_log : Option Text) (s t : O.State)
      (p : LlamaProcess) (started : spawn O program args stderr_log s ≡ (ok p, t)) where
    kept : KeepsNew O V L s (ok p)
    kept = rw (ap (λ r. r.0) started) at (spawn-KeepsNew O V L program args stderr_log s)

    after : (h : ℕ) → V.handle t h ≡ left O V L (ok p) (V.handle s h) h
    after h = rw started at (spawn-handle O V L program args stderr_log s h)

    joined : V.member t (job_name O) p.pid ≡ true
    joined = rw started at (spawn-Joined program args stderr_log s)

    limited_lem : any is_kill (V.limits t (job_name O)) ≡ true
    limited_lem =
        let e : V.limits t (job_name O) ≡ limit_flags =
          rw started at (spawn-Limited O V L K program args stderr_log s) in
        rw e refl

    job_not_null : (p.job_handle == null) ≡ false
    job_not_null = ground (arith, L.null_closed t, after null)

    job_is_open : V.handle t p.job_handle ≡ job (job_name O)
    job_is_open = ground (arith, after p.job_handle)

    drop_job : (pid : ℕ) → V.runs (drop O p t) pid ≡ V.runs (O.close_handle p.job_handle t) pid
    drop_job pid =
        drop-runs p t pid job_not_null λ name e. ground (arith, after p.process_handle, kept, e)

    -- Where Windows ends the processes of a job with its last handle if the job is limited by
    -- KILL_ON_JOB_CLOSE, as a start limits it, the drop of a child that has started ends it, if no
    -- handle of the job of this worker was open before.
    pub drop_only_child :
        ((h : ℕ) → V.handle s h ≢ job (job_name O)) → V.runs (drop O p t) p.pid ≡ false
    drop_only_child none_open =
        drop_job p.pid
        ∙ K.killed p.job_handle t (job_name O) p.pid job_is_open
            (λ h ne e. none_open h (ground (arith, after h, ne, e))) limited_lem joined

    -- Where another handle of the job is open, as that of a child that was started before, the drop
    -- of a child that has been started ends no process, not even the child.
    pub drop_second_child :
        (h : ℕ)
        → V.handle s h ≡ job (job_name O)
        → (pid : ℕ) → V.runs (drop O p t) pid ≡ V.runs t pid
    drop_second_child h open_before pid =
        drop_job pid
        ∙ K.shared p.job_handle h t (job_name O) pid job_is_open
            (ground (arith, after h, open_before, kept)) (ground (arith, kept, open_before))
