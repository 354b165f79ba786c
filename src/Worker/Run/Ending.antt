-- ===== src/Worker/Run/Ending.antt =====
-- The end of `run` of src/main.rs, behind the tray in which its thread stands.
use enjambre_worker.Prelude.{
  ◌≡◌, ap, Bool, false, List, Option, none, some, any, if◌then◌else◌, not, ◌||◌,
}
use enjambre_worker.Worker.{AppState}
use enjambre_worker.Worker.Run.{close, stopped}
use enjambre_worker.Tray.{Tray, Message, is_exit, run_over}
use enjambre_worker.Tray

-- `tray::run` and what follows; none while the loop of the tray goes on.
unfoldable pub leave_tray : Bool → Bool → List Message → Tray → AppState → Option AppState
unfolding close
leave_tray window creates ms t s =
    if (Tray.run window creates ms t).over then some (close s) else none

-- The worker of src/main.rs ends exactly if the window of its tray cannot be made, or the Exit
-- entry of the tray is chosen; it drops both programs and sets the flag then. The flag, which the
-- monitor sets when a program has exited, and the programs do not count: with a tray, with the
-- flag set and without programs, the worker goes on all the same.
pub leave_tray_lem :
    (window creates : Bool) (ms : List Message) (panel should_exit : Bool) (s : AppState)
    → leave_tray window creates ms
        (record { panel = panel; should_exit = should_exit; over = false })
        s
      ≡ (if not window || any is_exit ms then some stopped else none)
unfolding leave_tray close
leave_tray_lem window creates ms panel should_exit s =
    ap (λ b. if b then some (close s) else none)
      (run_over window creates ms
        (record { panel = panel; should_exit = should_exit; over = false }))
