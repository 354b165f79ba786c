-- ===== src/Process/Handles.antt =====
-- That spawn leaks no handle on any path, and that drop closes what it kept.
use enjambre_worker.Prelude.{
  ℕ, ◌≡◌, ◌≢◌, refl, ◌∙◌, ap, List, Option, none, some, ◌||◌, ◌==◌, if◌then◌else◌, arith,
  Bool-cases, Option-cases, inl, inr,
}
use enjambre_worker.Prelude.Text.{Text, codes}
use enjambre_worker.Process.{
  limit_flags, Windows, ProcessInformation, StartupInfo, Spawned, ok, err, null, job_name,
  close_std, open_log, open_std, assign, after_create, start, spawn, cmd_line,
}
use enjambre_worker.Process.System.{Handle, closed, job, process, View, OpensHandles}

module _ (O : Windows) (V : View O) (L : OpensHandles O V) where
  close_std-handle :
      (si : StartupInfo) (s : O.State) (h : ℕ)
      → V.handle (close_std O si s) h ≡ (
          if (h == si.std_input) || (h == si.std_output) || (h == si.std_error)
          then closed
          else V.handle s h)
  unfolding close_std
  close_std-handle si s h =
      let a = O.close_handle si.std_input s in
      let b = O.close_handle si.std_output a in
      ground (
        arith,
        L.handle_closed si.std_input s h,
        L.handle_closed si.std_output a h,
        L.handle_closed si.std_error b h,
      )

  -- The standard handles are new, the others stay.
  abbrev pub Opened : O.State → StartupInfo × O.State → Type 0
  Opened s (si, t) =
      (si.std_output ≡ si.std_input)
      × (V.handle s si.std_input ≡ closed)
      × (V.handle s si.std_error ≡ closed)
      × ((h : ℕ) → h ≢ si.std_input → h ≢ si.std_error → V.handle t h ≡ V.handle s h)
      × (V.handle t si.std_input ≡ closed → si.std_input ≡ V.invalid_handle)
      × (V.handle t si.std_error ≡ closed → si.std_error ≡ V.invalid_handle)

  pub open_std-Opened :
      (stderr_log : Option Text) (s : O.State) → Opened s (open_std O stderr_log s)
  unfolding open_std open_log
  open_std-Opened none s =
      let nul = (O.create_file (codes "NUL") s).0 in
      (
        refl,
        L.file_fresh (codes "NUL") s,
        L.file_fresh (codes "NUL") s,
        (λ h a b. ground (arith, L.file_opened (codes "NUL") s h, a)),
        (λ e. ground (arith, L.file_opened (codes "NUL") s nul, e)),
        λ e. ground (arith, L.file_opened (codes "NUL") s nul, e),
      )
  open_std-Opened (some path) s =
      let (nul, t) = O.create_file (codes "NUL") s in
      let log = (O.create_file path t).0 in
      (
        refl,
        L.file_fresh (codes "NUL") s,
        ground (arith, L.file_opened (codes "NUL") s log, L.file_fresh path t),
        (λ h a b. ground (arith, L.file_opened (codes "NUL") s h, L.file_opened path t h, a, b)),
        (λ e. ground (arith, L.file_opened (codes "NUL") s nul, L.file_opened path t nul, e)),
        λ e. ground (arith, L.file_opened path t log, e),
      )

  -- Closing the standard handles undoes their opening, whatever handles else have been opened or
  -- closed meanwhile.
  close_std-Opened :
      (si : StartupInfo) (s t u : O.State) (h : ℕ)
      → Opened s (si, t)
      → (V.handle u h ≡ V.handle t h)
      → V.handle (close_std O si u) h ≡ V.handle s h
  close_std-Opened si s t u h (same, fresh_in, fresh_err, others, _, _) e =
      ground (arith, close_std-handle si u h, others h, e)

  -- What a start leaves of the handles.
  abbrev pub left : Spawned → Handle → ℕ → Handle
  left (err call) before h = before
  left (ok p) before h =
      if h == p.job_handle
      then job (job_name O)
      else if h == p.process_handle
      then process p.pid
      else before

  -- What is left behind a start whose job has the handle `j` in the state `s`.
  abbrev left_of : ℕ → O.State → Spawned → ℕ → Handle
  left_of j s r h = left r (if h == j then closed else V.handle s h) h

  module _ (j : ℕ) (s t : O.State) (si : StartupInfo) (job_open : V.handle s j ≡ job (job_name O))
      (opened : Opened s (si, t)) where
    assign-handle :
        (pi : ProcessInformation) (u : O.State) (h : ℕ)
        → V.handle t pi.process_handle ≡ closed
        → V.handle t pi.thread_handle ≡ closed
        → ((k : ℕ)
            → V.handle u k ≡ (
                if k == pi.thread_handle
                then closed
                else if k == pi.process_handle
                then process pi.process_id
                else V.handle t k))
        → pi.process_handle ≢ pi.thread_handle
        → V.handle (assign O j si pi u).1 h ≡ left_of j s (assign O j si pi u).0 h
    unfolding assign
    assign-handle pi u h fp ft e ne =
        let (same, fresh_in, fresh_err, others, in_open, err_open) = opened in
        let v = (O.assign_process j pi.process_handle u).1 in
        let w = O.close_handle pi.process_handle v in
        elim (Bool-cases (O.assign_process j pi.process_handle u).0) [
          | inl y ↦ rw y (
              ground (
                arith,
                close_std-handle si v h,
                L.assigned j pi.process_handle u h,
                e h,
                others h,
                in_open,
                err_open,
                L.invalid_closed u,
                e V.invalid_handle,
              ))
          | inr n ↦ rw n (
              ground (
                arith,
                L.handle_closed j (close_std O si w) h,
                close_std-Opened si s t w h opened,
                L.handle_closed pi.process_handle v h,
                L.assigned j pi.process_handle u h,
                e h,
              ))
        ]

    after_create-handle :
        (program line : Text) (h : ℕ)
        → V.handle
            (after_create O j si
              (O.create_process program line si t).0
              (O.create_process program line si t).1).1
            h
          ≡ left_of j s
              (after_create O j si
                (O.create_process program line si t).0
                (O.create_process program line si t).1).0
              h
    unfolding after_create
    after_create-handle program line h =
        let r = O.create_process program line si t in
        let u = r.1 in
        elim (Option-cases r.0) [
          | inl n ↦ rw n (
              ground (
                arith,
                L.handle_closed j (close_std O si u) h,
                close_std-Opened si s t u h opened,
                L.process_failed program line si t h n,
              ))
          | inr (pi, y) ↦
              let (fp, ft, _, ne) = L.process_fresh program line si t pi y in
              rw y (
                assign-handle pi (O.close_handle pi.thread_handle u) h fp ft
                  (λ k. ground (
                    arith,
                    L.handle_closed pi.thread_handle u k,
                    L.process_opened program line si t pi k y,
                  ))
                  ne)
        ]

  start-handle :
      (program : Text) (args : List Text) (stderr_log : Option Text) (j : ℕ) (s : O.State) (h : ℕ)
      → V.handle s j ≡ job (job_name O)
      → V.handle (start O program args stderr_log j s).1 h
        ≡ left_of j s (start O program args stderr_log j s).0 h
  unfolding start
  start-handle program args stderr_log j s h e =
      let (si, t) = open_std O stderr_log s in
      after_create-handle j s t si e (open_std-Opened stderr_log s) program (cmd_line program args)
        h

  -- A start with its new job, in place of a start of which the job was there.
  set-handle :
      (program : Text) (args : List Text) (stderr_log : Option Text) (j : ℕ) (s u : O.State)
      → ((k : ℕ) → V.handle u k ≡ (if k == j then job (job_name O) else V.handle s k))
      → V.handle s j ≡ closed
      → (h : ℕ)
      → V.handle (start O program args stderr_log j u).1 h
        ≡ left (start O program args stderr_log j u).0 (V.handle s h) h
  set-handle program args stderr_log j s u e fresh h =
      let before : (if h == j then closed else V.handle u h) ≡ V.handle s h =
        ground (arith, e h, fresh) in
      start-handle program args stderr_log j u h (ground (arith, e j))
      ∙ ap (λ x. left (start O program args stderr_log j u).0 x h) before

  -- On every path of a start, whichever call fails, each handle stands for what it stood for before,
  -- but that a start that succeeds leaves the handle of the job and the handle of the child open.
  pub spawn-handle :
      (program : Text) (args : List Text) (stderr_log : Option Text) (s : O.State) (h : ℕ)
      → V.handle (spawn O program args stderr_log s).1 h
        ≡ left (spawn O program args stderr_log s).0 (V.handle s h) h
  unfolding spawn
  spawn-handle program args stderr_log s h =
      let (j, t) = O.create_job_object (job_name O) s in
      let (set, u) = O.set_information j limit_flags t in
      let opens = L.job_opened (job_name O) s in
      elim (Bool-cases (j == null)) [
        | inl z ↦ rw z (ground (arith, opens h))
        | inr nz ↦ elim (Bool-cases set) [
          | inl y ↦
              rw (nz, y)
                (set-handle program args stderr_log j s u
                  (λ k. ground (arith, L.information_set j limit_flags t k, opens k, nz))
                  (L.job_fresh (job_name O) s) h)
          | inr n ↦
              rw (nz, n)
                (ground (
                  arith,
                  L.handle_closed j u h,
                  L.information_set j limit_flags t h,
                  opens h,
                  L.job_fresh (job_name O) s,
                ))
        ]
      ]
