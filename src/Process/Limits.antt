-- ===== src/Process/Limits.antt =====
-- That a start limits the job of its child, by the flags of src/process.rs.
use enjambre_worker.Prelude.{
  none, some, ℕ, ◌≡◌, ◌∙◌, not, List, Option, ◌==◌, arith, Bool-cases, Option-cases, inl, inr,
}
use enjambre_worker.Prelude.Text.{Text, codes}
use enjambre_worker.Process.{
  limit_flags, Windows, StartupInfo, Spawned, ok, err, null, job_name, close_std, open_std, assign,
  after_create, open_log, start, spawn, cmd_line,
}
use enjambre_worker.Process.System.{View, OpensHandles, KillsOnClose}

module _ (O : Windows) (V : View O) (L : OpensHandles O V) (K : KillsOnClose O V) where
  close_std-limits :
      (si : StartupInfo) (s : O.State) (name : Text)
      → V.limits (close_std O si s) name ≡ V.limits s name
  unfolding close_std
  close_std-limits si s name =
      let a = O.close_handle si.std_input s in
      let b = O.close_handle si.std_output a in
      let to_b = K.close_limits si.std_output a name ∙ K.close_limits si.std_input s name in
      elim (Bool-cases (not (si.std_error == si.std_input))) [
        | inl y ↦ rw y (K.close_limits si.std_error b name ∙ to_b)
        | inr n ↦ rw n to_b
      ]

  open_std-limits :
      (stderr_log : Option Text) (s : O.State) (name : Text)
      → V.limits (open_std O stderr_log s).1 name ≡ V.limits s name
  unfolding open_std open_log
  open_std-limits none s name = K.file_limits (codes "NUL") s name
  open_std-limits (some path) s name =
      K.file_limits path (O.create_file (codes "NUL") s).1 name ∙ K.file_limits (codes "NUL") s name

  -- A start changes no limits behind the call that sets them.
  start-limits :
      (program : Text) (args : List Text) (stderr_log : Option Text) (j : ℕ) (s : O.State)
      (name : Text)
      → V.limits (start O program args stderr_log j s).1 name ≡ V.limits s name
  unfolding start after_create assign
  start-limits program args stderr_log j s name =
      let (si, t) = open_std O stderr_log s in
      let r = O.create_process program (cmd_line program args) si t in
      let to_r : V.limits r.1 name ≡ V.limits s name =
        K.process_limits program (cmd_line program args) si t name
        ∙ open_std-limits stderr_log s name in
      elim (Option-cases r.0) [
        | inl n ↦
            rw n (K.close_limits j (close_std O si r.1) name ∙ close_std-limits si r.1 name ∙ to_r)
        | inr (pi, y) ↦
            let u = O.close_handle pi.thread_handle r.1 in
            let a = O.assign_process j pi.process_handle u in
            let to_a : V.limits a.1 name ≡ V.limits s name =
              K.assign_limits j pi.process_handle u name
              ∙ K.close_limits pi.thread_handle r.1 name
              ∙ to_r in
            let v = O.close_handle pi.process_handle a.1 in
            rw y (elim (Bool-cases a.0) [
              | inl y ↦ rw y (close_std-limits si a.1 name ∙ to_a)
              | inr n ↦ rw n (
                  K.close_limits j (close_std O si v) name
                  ∙ close_std-limits si v name
                  ∙ K.close_limits pi.process_handle a.1 name
                  ∙ to_a)
            ])
      ]

  -- A job in which a child has been started is limited.
  abbrev pub Limited : Spawned × O.State → Type 0
  Limited (err call, s) = Unit
  Limited (ok p, s) = V.limits s (job_name O) ≡ limit_flags

  to_Limited : (r : Spawned × O.State) → V.limits r.1 (job_name O) ≡ limit_flags → Limited r
  to_Limited (err call, s) e = tt
  to_Limited (ok p, s) e = e

  pub spawn-Limited :
      (program : Text) (args : List Text) (stderr_log : Option Text) (s : O.State)
      → Limited (spawn O program args stderr_log s)
  unfolding spawn
  spawn-Limited program args stderr_log s =
      let (j, t) = O.create_job_object (job_name O) s in
      let (set, u) = O.set_information j limit_flags t in
      elim (Bool-cases (j == null)) [
        | inl z ↦ rw z tt
        | inr nz ↦ elim (Bool-cases set) [
          | inl y ↦
              rw (nz, y)
                (to_Limited (start O program args stderr_log j u) (
                  start-limits program args stderr_log j u (job_name O)
                  ∙ K.limited j limit_flags t (job_name O)
                      (ground (arith, L.job_opened (job_name O) s j, nz)) y))
          | inr n ↦ rw (nz, n) tt
        ]
      ]
