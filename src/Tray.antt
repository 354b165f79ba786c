-- ===== src/Tray.antt =====
-- The tray of src/tray.rs and the panel of src/panel.rs, as the messages of Windows drive them: the
-- panel runs a message loop of its own inside of the tray's.
use enjambre_worker.Prelude.{
  refl, not, ℕ, ◌+◌, ◌*◌, ◌/◌, ◌%◌, ◌<◌, ◌≡◌, Bool, true, false, ◌||◌, List, [], ◌∷◌, ◌++◌, any,
  ltb, ◌==◌, if◌then◌else◌, arith,
}
use enjambre_worker.Prelude.Text.{Text, codes}
use enjambre_worker.Prelude.Decimal.{to_decimal}
use enjambre_worker.Stats.{WorkerStats, total_bytes, estimated_tokens}
use enjambre_worker.Stats

-- `{n:02}`
unfoldable pub two_digits : ℕ → Text
two_digits n = if ltb n 10 then b'0' ∷ to_decimal n else to_decimal n

-- The hours, the minutes and the seconds of a session.
unfoldable pub session : ℕ → ℕ × ℕ × ℕ
session elapsed = (elapsed / 3600, elapsed % 3600 / 60, elapsed % 60)

-- The lines that `WM_PAINT` draws.
unfoldable pub paint : Bool → WorkerStats → ℕ → List Text
unfolding two_digits session
paint has_nvidia_gpu stats elapsed =
    let (h, m, s) = session elapsed in
    codes "  Worker Node - Panel"
    ∷ []
    ∷ (codes "  Modo:                " ++ (if has_nvidia_gpu then codes "GPU" else codes "CPU"))
    ∷ (codes "  Creditos:             " ++ to_decimal (Stats.credits stats))
    ∷ (codes "  Total:                " ++ (to_decimal (total_bytes stats / 1024) ++ codes " KB"))
    ∷ (codes "  Tokens estimados:     " ++ to_decimal (estimated_tokens stats))
    ∷ (codes "  Sesion:               "
        ++ (two_digits h
            ++ (codes "h " ++ (two_digits m ++ (codes "m " ++ (two_digits s ++ codes "s"))))))
    ∷ []
    ∷ codes "  Click aqui para cerrar"
    ∷ []

abbrev pub id_exit : ℕ
id_exit = 1001

-- The messages of the two windows: the buttons on the icon, a command, a click on the panel.
pub data Message : Type 0 where
  left_button : Message
  right_button : Message
  command : (wparam : ℕ) → Message
  panel_click : Message
  other : Message

-- Whether the panel is open, which is `PANEL_STATE`, whether `SHOULD_EXIT` is set, and whether `run`
-- has come to its end.
pub record Tray : Type 0 where
  pub panel : Bool
  pub should_exit : Bool
  pub over : Bool

-- `creates` tells whether the window of the panel can be made.
unfoldable pub show_panel : Bool → Tray → Tray
show_panel creates t = if t.panel then t else record t { panel = creates }

-- A command ends the loop of the panel, if it is open, and that of the tray, which looks at the flag.
unfoldable pub on_command : ℕ → Tray → Tray
on_command wparam t =
    if wparam % 65536 == id_exit
    then record t { panel = false; should_exit = true; over = true }
    else t

unfoldable pub dispatch : Bool → Message → Tray → Tray
unfolding show_panel on_command
dispatch creates left_button t = show_panel creates t
dispatch creates right_button t = t
dispatch creates (command wparam) t = on_command wparam t
dispatch creates panel_click t = record t { panel = false }
dispatch creates other t = t

-- The messages that come, until the loop ends.
unfoldable pub message_loop : Bool → List Message → Tray → Tray
unfolding dispatch
message_loop creates [] t = t
message_loop creates (m ∷ ms) t =
    let rest = message_loop creates ms (dispatch creates m t) in if t.over then t else rest

-- `window` tells whether the window of the tray can be made; without it `run` returns at once.
unfoldable pub run : Bool → Bool → List Message → Tray → Tray
unfolding message_loop
run window creates ms t = if window then message_loop creates ms t else record t { over = true }

abbrev pub is_exit : Message → Bool
is_exit (command wparam) = wparam % 65536 == id_exit
is_exit _ = false

-- The loop of the tray ends exactly if it has ended before or its Exit entry is chosen, whether the
-- panel is open or not.
loop_over :
    (creates : Bool) (ms : List Message) (t : Tray)
    → (message_loop creates ms t).over ≡ (t.over || any is_exit ms)
unfolding message_loop dispatch show_panel on_command
loop_over creates [] t = ground arith
loop_over creates (left_button ∷ ms) t = ground (arith, loop_over creates ms (show_panel creates t))
loop_over creates (right_button ∷ ms) t = ground (arith, loop_over creates ms t)
loop_over creates (command wparam ∷ ms) t =
    ground (arith, loop_over creates ms (on_command wparam t))
loop_over creates (panel_click ∷ ms) t =
    ground (arith, loop_over creates ms (record t { panel = false }))
loop_over creates (other ∷ ms) t = ground (arith, loop_over creates ms t)

-- `run` returns exactly if the window of the tray cannot be made, or its loop ends.
pub run_over :
    (window creates : Bool) (ms : List Message) (t : Tray)
    → (run window creates ms t).over ≡ (not window || (t.over || any is_exit ms))
unfolding run
run_over true creates ms t = loop_over creates ms t
run_over false creates ms t = refl

-- The panel's clock is the time of the session, with minutes and seconds below 60.
session_lem :
    (elapsed : ℕ)
    → let (h, m, s) = session elapsed in (3600 * h + (60 * m + s) ≡ elapsed) × (m < 60) × (s < 60)
unfolding session
session_lem elapsed = omega arith
