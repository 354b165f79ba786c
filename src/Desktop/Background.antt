-- ===== src/Desktop/Background.antt =====
-- The worker inside the desktop application of src-tauri/src/main.rs: `run_worker` with its wait for
-- the flag, the thread that it runs in, and the start of the application.
pub mod Ending
use enjambre_worker.Prelude.{
  ◌⊎◌, inl, inr, true, false, List, [], ◌∷◌, ◌++◌, none, some, if◌then◌else◌,
}
use enjambre_worker.Prelude.Text.{Text, codes}
use enjambre_worker.Files.{Disk}
use enjambre_worker.Hardware.{HardwareInfo}
use enjambre_worker.Worker.{AppState, ready, spawn_error, Happening, watch}
use enjambre_worker.Worker.Run
use enjambre_worker.Worker.Run.{World, Mutex, check_single_instance, Run, failed, started, close}
use enjambre_worker.Desktop.{App}

-- How far `run_worker` has come: an error, with what failed, the state in which it still waits for the flag, or that in
-- which it has ended.
pub data Progress : Type 0 where
  error : Text → Progress
  waiting ended : AppState → Progress

-- `while !shutdown`, with what happens between two looks at the flag, and what follows.
unfoldable pub wait_shutdown : (Text → List Text) → List (List Happening) → AppState → Progress
unfolding close
wait_shutdown args [] s = if s.shutdown then ended (close s) else waiting s
wait_shutdown args (hs ∷ rounds) s =
    let rest = wait_shutdown args rounds (watch args hs s) in
    if s.shutdown then ended (close s) else rest

-- `args` are those of a relaunch.
unfoldable pub after_start : (Text → List Text) → List (List Happening) → Run → Progress
unfolding wait_shutdown
after_start args rounds (failed e d) = error e
after_start args rounds (started (spawn_error s program) d) = error program
after_start args rounds (started (ready s tasks) d) = wait_shutdown args rounds s

unfoldable pub run_worker :
    World → HardwareInfo → Disk → (Text → List Text) → List (List Happening) → Progress
unfolding after_start
run_worker w hardware d args rounds = after_start args rounds (Run.run_worker w hardware d)

-- The thread of the worker: only an error ends the application.
unfoldable pub start_worker_background : Progress → App → App
start_worker_background (error e) a = record a { exited = true }
start_worker_background (waiting s) a = a
start_worker_background (ended s) a = a

-- The start of the application: the message of another instance, or the window of the panel, which
-- is not shown.
unfoldable pub main : Mutex → Text ⊎ App
main m = elim (check_single_instance m) [
  | some e ↦ inl (codes "Worker Node — Error fatal\n\n" ++ e)
  | none ↦ inr (record { visible = false; x = 0; y = 0; exited = false })
]
