-- ===== src/Process.antt =====
-- The child processes of src/process.rs: a job object, a process in it, and the handles that are
-- opened and closed on the way. Windows is an interface of calls; its laws are in Process/System.
pub mod System
pub mod Kernel
pub mod Handles
pub mod Drop
pub mod Limits
pub mod Jobs
pub mod CommandLine
pub mod Console
use enjambre_worker.Prelude.{
  ℕ, ◌≡◌, Bool, List, [], ◌∷◌, ◌++◌, Option, none, some, not, any, ◌==◌, if◌then◌else◌,
}
use enjambre_worker.Prelude.Text.{Text, codes}
use enjambre_worker.Prelude.Decimal.{to_decimal}

abbrev pub null : ℕ
null = 0

abbrev pub still_active : ℕ
still_active = 259

-- `PROCESS_INFORMATION`
pub record ProcessInformation : Type 0 where
  pub process_handle : ℕ
  pub thread_handle : ℕ
  pub process_id : ℕ

-- The handles of `STARTUPINFOW`.
pub record StartupInfo : Type 0 where
  pub std_input : ℕ
  pub std_output : ℕ
  pub std_error : ℕ

-- The flags of `LimitFlags`.
pub data Limit : Type 0 where
  kill_on_job_close die_on_unhandled_exception breakaway_ok : Limit

-- What `spawn` sets in `JOBOBJECT_EXTENDED_LIMIT_INFORMATION`.
abbrev pub limit_flags : List Limit
limit_flags = kill_on_job_close ∷ die_on_unhandled_exception ∷ breakaway_ok ∷ []

-- The calls of Windows, over the state of the system.
pub record Windows : Type 1 where
  pub State : Type 0
  pub process_id : ℕ
  pub create_job_object : Text → State → ℕ × State
  pub set_information : ℕ → List Limit → State → Bool × State
  pub create_file : Text → State → ℕ × State
  pub create_process : Text → Text → StartupInfo → State → Option ProcessInformation × State
  pub assign_process : ℕ → ℕ → State → Bool × State
  pub get_exit_code : State → ℕ → Option ℕ
  pub close_handle : ℕ → State → State

pub record LlamaProcess : Type 0 where
  pub process_handle : ℕ
  pub job_handle : ℕ
  pub pid : ℕ

-- `Result<LlamaProcess>`, with the call that failed.
pub data Spawned : Type 0 where
  ok : LlamaProcess → Spawned
  err : Text → Spawned

-- What `try_wait` gives: no answer, a process that runs, or its exit status.
pub data Waited : Type 0 where
  wait_err : Waited
  running : Waited
  exited : ℕ → Waited

unfoldable pub quoted : Text → Text
quoted arg = if any (λ c. c == b' ') arg then b'"' ∷ (arg ++ b'"' ∷ []) else arg

-- The loop that appends the arguments to the command line.
unfoldable pub push_args : List Text → Text → Text
unfolding quoted
push_args [] line = line
push_args (arg ∷ args) line = push_args args (line ++ b' ' ∷ quoted arg)

unfoldable pub cmd_line : Text → List Text → Text
unfolding push_args
cmd_line program args = push_args args (b'"' ∷ (program ++ b'"' ∷ []))

module _ (O : Windows) where
  unfoldable pub job_name : Text
  job_name = codes "Global\\WorkerNodeLlamaJob_" ++ to_decimal O.process_id

  -- The standard handles of the child, closed as every path closes them: standard input and
  -- output are one handle, which is closed twice.
  unfoldable pub close_std : StartupInfo → O.State → O.State
  close_std si s =
      let t = O.close_handle si.std_output (O.close_handle si.std_input s) in
      if not (si.std_error == si.std_input) then O.close_handle si.std_error t else t

  unfoldable pub open_log : Option Text → ℕ → O.State → ℕ × O.State
  open_log none nul s = (nul, s)
  open_log (some path) nul s = O.create_file path s

  unfoldable pub open_std : Option Text → O.State → StartupInfo × O.State
  unfolding open_log
  open_std stderr_log s =
      let (nul, t) = O.create_file (codes "NUL") s in
      let (log, u) = open_log stderr_log nul t in
      (record { std_input = nul; std_output = nul; std_error = log }, u)

  -- From `AssignProcessToJobObject` on.
  unfoldable pub assign : ℕ → StartupInfo → ProcessInformation → O.State → Spawned × O.State
  unfolding close_std
  assign job si pi s =
      let (assigned, t) = O.assign_process job pi.process_handle s in
      if assigned
      then (
        ok (record { process_handle = pi.process_handle; job_handle = job; pid = pi.process_id }),
        close_std si t,
      )
      else (
        err (codes "AssignProcessToJobObject"),
        O.close_handle job (close_std si (O.close_handle pi.process_handle t)),
      )

  -- What follows `CreateProcessW`.
  unfoldable pub after_create :
      ℕ → StartupInfo → Option ProcessInformation → O.State → Spawned × O.State
  unfolding assign close_std
  after_create job si none s = (err (codes "CreateProcessW"), O.close_handle job (close_std si s))
  after_create job si (some pi) s = assign job si pi (O.close_handle pi.thread_handle s)

  unfoldable pub start : Text → List Text → Option Text → ℕ → O.State → Spawned × O.State
  unfolding open_std after_create cmd_line
  start program args stderr_log job s =
      let (si, t) = open_std stderr_log s in
      let (pi, u) = O.create_process program (cmd_line program args) si t in
      after_create job si pi u

  unfoldable pub spawn : Text → List Text → Option Text → O.State → Spawned × O.State
  unfolding start
  spawn program args stderr_log s =
      let (job, t) = O.create_job_object job_name s in
      let (set, u) = O.set_information job limit_flags t in
      if job == null
      then (err (codes "CreateJobObjectW"), t)
      else if set
      then start program args stderr_log job u
      else (err (codes "SetInformationJobObject"), O.close_handle job u)

  unfoldable pub try_wait : LlamaProcess → O.State → Waited
  try_wait p s = elim (O.get_exit_code s p.process_handle) [
    | none ↦ wait_err
    | some code ↦ if code == still_active then running else exited code
  ]

  unfoldable pub close_if_open : ℕ → O.State → O.State
  close_if_open h s = if not (h == null) then O.close_handle h s else s

  -- `Drop`
  unfoldable pub drop : LlamaProcess → O.State → O.State
  unfolding close_if_open
  drop p s = close_if_open p.process_handle (close_if_open p.job_handle s)
