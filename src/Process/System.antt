-- ===== src/Process/System.antt =====
-- What src/process.rs relies on of Windows: what each call does to the handles, and that the
-- processes of a job are terminated when its last handle is closed.
use enjambre_worker.Prelude.{
  ℕ, ◌≡◌, ◌≢◌, any, List, Bool, true, false, none, some, ◌==◌, if◌then◌else◌,
}
use enjambre_worker.Prelude.Text.{Text}
use enjambre_worker.Process.{
  Limit, kill_on_job_close, Windows, ProcessInformation, StartupInfo, null,
}

-- What a handle stands for.
pub data Handle : Type 0 where
  closed : Handle
  job : (name : Text) → Handle
  process : (pid : ℕ) → Handle
  thread : Handle
  file : (path : Text) → Handle

-- The view of a state: each handle, the processes in each job and the limits that have been set for it,
-- and the processes that run.
pub record View (O : Windows) : Type 1 where
  pub handle : O.State → ℕ → Handle
  pub member : O.State → Text → ℕ → Bool
  pub limits : O.State → Text → List Limit
  pub runs : O.State → ℕ → Bool
  pub invalid_handle : ℕ

-- The documented behaviour of the calls on handles. A call that opens a handle gives one that was
-- closed, or the null or the invalid handle, which stay closed.
pub record OpensHandles (O : Windows) (V : View O) : Type 0 where
  pub null_closed : (s : O.State) → V.handle s null ≡ closed
  pub invalid_closed : (s : O.State) → V.handle s V.invalid_handle ≡ closed
  pub job_fresh : (name : Text) (s : O.State) → V.handle s (O.create_job_object name s).0 ≡ closed
  pub job_opened :
      (name : Text) (s : O.State) (h : ℕ)
      → V.handle (O.create_job_object name s).1 h ≡ (
          if (O.create_job_object name s).0 == null
          then V.handle s h
          else if h == (O.create_job_object name s).0
          then job name
          else V.handle s h)
  pub information_set :
      (j : ℕ) (flags : List Limit) (s : O.State) (h : ℕ)
      → V.handle (O.set_information j flags s).1 h ≡ V.handle s h
  pub file_fresh : (path : Text) (s : O.State) → V.handle s (O.create_file path s).0 ≡ closed
  pub file_opened :
      (path : Text) (s : O.State) (h : ℕ)
      → V.handle (O.create_file path s).1 h ≡ (
          if (O.create_file path s).0 == V.invalid_handle
          then V.handle s h
          else if h == (O.create_file path s).0
          then file path
          else V.handle s h)
  pub process_failed :
      (program line : Text) (si : StartupInfo) (s : O.State) (h : ℕ)
      → (O.create_process program line si s).0 ≡ none
      → V.handle (O.create_process program line si s).1 h ≡ V.handle s h
  pub process_fresh :
      (program line : Text) (si : StartupInfo) (s : O.State) (pi : ProcessInformation)
      → (O.create_process program line si s).0 ≡ some pi
      → (V.handle s pi.process_handle ≡ closed)
        × (V.handle s pi.thread_handle ≡ closed)
        × (pi.process_handle ≢ null)
        × (pi.process_handle ≢ pi.thread_handle)
  pub process_opened :
      (program line : Text) (si : StartupInfo) (s : O.State) (pi : ProcessInformation) (h : ℕ)
      → (O.create_process program line si s).0 ≡ some pi
      → V.handle (O.create_process program line si s).1 h ≡ (
          if h == pi.process_handle
          then process pi.process_id
          else if h == pi.thread_handle
          then thread
          else V.handle s h)
  pub assigned :
      (j p : ℕ) (s : O.State) (h : ℕ) → V.handle (O.assign_process j p s).1 h ≡ V.handle s h
  pub handle_closed :
      (j : ℕ) (s : O.State) (h : ℕ)
      → V.handle (O.close_handle j s) h ≡ (if h == j then closed else V.handle s h)

abbrev pub is_kill : Limit → Bool
is_kill kill_on_job_close = true
is_kill _ = false

-- The documented behaviour of jobs: only one that is limited by KILL_ON_JOB_CLOSE ends its processes.
pub record KillsOnClose (O : Windows) (V : View O) : Type 0 where
  -- What is assigned to a job is in it.
  pub joined :
      (j p : ℕ) (s : O.State) (name : Text) (pid : ℕ)
      → V.handle s j ≡ job name
      → V.handle s p ≡ process pid
      → (O.assign_process j p s).0 ≡ true
      → V.member (O.assign_process j p s).1 name pid ≡ true
  -- The limits of a job are what has been set, and no other call changes them.
  pub limited :
      (j : ℕ) (flags : List Limit) (s : O.State) (name : Text)
      → V.handle s j ≡ job name
      → (O.set_information j flags s).0 ≡ true
      → V.limits (O.set_information j flags s).1 name ≡ flags
  pub file_limits :
      (path : Text) (s : O.State) (name : Text)
      → V.limits (O.create_file path s).1 name ≡ V.limits s name
  pub process_limits :
      (program line : Text) (si : StartupInfo) (s : O.State) (name : Text)
      → V.limits (O.create_process program line si s).1 name ≡ V.limits s name
  pub assign_limits :
      (j p : ℕ) (s : O.State) (name : Text)
      → V.limits (O.assign_process j p s).1 name ≡ V.limits s name
  pub close_limits :
      (h : ℕ) (s : O.State) (name : Text) → V.limits (O.close_handle h s) name ≡ V.limits s name
  -- No closed handle takes a process out of a job.
  pub stays :
      (h : ℕ) (s : O.State) (name : Text) (pid : ℕ)
      → V.member s name pid ≡ true
      → V.member (O.close_handle h s) name pid ≡ true
  -- The last handle of a job that is so limited ends its processes.
  pub killed :
      (h : ℕ) (s : O.State) (name : Text) (pid : ℕ)
      → V.handle s h ≡ job name
      → ((j : ℕ) → j ≢ h → V.handle s j ≢ job name)
      → any is_kill (V.limits s name) ≡ true
      → V.member s name pid ≡ true
      → V.runs (O.close_handle h s) pid ≡ false
  -- A handle of a job that has another one ends no process,
  pub shared :
      (h j : ℕ) (s : O.State) (name : Text) (pid : ℕ)
      → V.handle s h ≡ job name
      → V.handle s j ≡ job name
      → h ≢ j
      → V.runs (O.close_handle h s) pid ≡ V.runs s pid
  -- and nor does a handle of another kind.
  pub unrelated :
      (h : ℕ) (s : O.State) (pid : ℕ)
      → ((name : Text) → V.handle s h ≢ job name)
      → V.runs (O.close_handle h s) pid ≡ V.runs s pid
