-- ===== src/Desktop.antt =====
-- The desktop application of src-tauri/src/main.rs around the run of the worker: its panel's numbers,
-- the place and the visibility of its window, and its tray.
pub mod Background
use enjambre_worker.Prelude.{
  ℕ, ◌+◌, ◌-◌, ◌≤◌, ◌<◌, ◌≡◌, arith, ltb, List, ◌∷◌, ◌&&◌, Bool, true, false, Option, none, some,
  ◌++◌, [], map_option, unwrap_or, if◌then◌else◌,
}
use enjambre_worker.Prelude.Text.{Text, codes}
use enjambre_worker.Prelude.Decimal.{to_decimal}
use enjambre_worker.Hardware.{HardwareInfo}
use enjambre_worker.Stats.{WorkerStats, total_bytes, estimated_tokens}

pub record PanelStatus : Type 0 where
  pub mode : Text
  pub credits : ℕ
  pub total_bytes : ℕ
  pub estimated_tokens : ℕ
  pub session_secs : ℕ
  pub hardware : Text
  pub vram_mib : Text
  pub ready : Bool

-- What `get_panel_status` reads of the state of the application.
pub record Shown : Type 0 where
  pub stats : WorkerStats
  pub master_credits : ℕ
  pub elapsed_secs : ℕ
  pub hardware : HardwareInfo

unfoldable pub get_panel_status : Option Shown → PanelStatus
get_panel_status none = record {
  mode = codes "Conectando...";
  credits = 0;
  total_bytes = 0;
  estimated_tokens = 0;
  session_secs = 0;
  hardware = [];
  vram_mib = [];
  ready = false;
}
get_panel_status (some state) = record {
  mode = if state.hardware.has_nvidia_gpu then codes "GPU" else codes "CPU";
  credits = state.master_credits;
  total_bytes = total_bytes state.stats;
  estimated_tokens = estimated_tokens state.stats;
  session_secs = state.elapsed_secs;
  hardware = unwrap_or state.hardware.nvidia_gpu_name (codes "CPU-only");
  vram_mib =
      unwrap_or (map_option (λ m. to_decimal m ++ codes " MiB") state.hardware.vram_mib)
        (codes "N/A");
  ready = true;
}

-- The window of the panel, and whether the application has been left.
pub record App : Type 0 where
  pub visible : Bool
  pub x : ℕ
  pub y : ℕ
  pub exited : Bool

abbrev pub panel_width : ℕ
panel_width = 340

abbrev pub panel_height : ℕ
panel_height = 260

-- `(size as i32 - k).max(0)` of a 32-bit size, where the difference wraps.
unfoldable pub place : ℕ → ℕ → ℕ
place size k = if ltb size (0x80000000 + k) then size - k else 0

-- `monitor` is the size of the current monitor, if there is one; the window takes the position that is
-- set.
unfoldable pub center_bottom_right : Option (ℕ × ℕ) → App → App
unfolding place
center_bottom_right none a = a
center_bottom_right (some (width, height)) a = record a {
  x = place width panel_width;
  y = place height (panel_height + 50);
}

unfoldable pub show : Option (ℕ × ℕ) → App → App
unfolding center_bottom_right
show monitor a = record (center_bottom_right monitor a) { visible = true }

-- `toggle_panel`, and whether it succeeds: `known` tells whether the window gives its visibility, and
-- `obeys` whether it can be hidden or shown.
unfoldable pub toggle_panel : Bool → Bool → Option (ℕ × ℕ) → App → App × Bool
unfolding show
toggle_panel known obeys monitor a =
    if known
    then (if a.visible
        then (if obeys then (record a { visible = false }, true) else (a, false))
        else (if obeys then (show monitor a, true) else (center_bottom_right monitor a, false)))
    else (a, false)

-- What the tray and the page send: the entries of the menu, a click on the icon, and the command of
-- the page, with whether the window gives its visibility and whether it can be hidden or shown.
pub data Event : Type 0 where
  menu_show : (obeys : Bool) → Event
  menu_quit : Event
  click : (known obeys : Bool) → Event
  toggle : (known obeys : Bool) → Event

-- One event, with the monitor of that moment.
unfoldable pub on_event : Option (ℕ × ℕ) → Event → App → App
unfolding show toggle_panel
on_event monitor (menu_show obeys) a =
    if obeys then show monitor a else center_bottom_right monitor a
on_event monitor menu_quit a = record a { exited = true }
on_event monitor (click known obeys) a =
    if known && a.visible
    then record a { visible = if obeys then false else true }
    else (if obeys then show monitor a else center_bottom_right monitor a)
on_event monitor (toggle known obeys) a = (toggle_panel known obeys monitor a).0

unfoldable pub on_events : Option (ℕ × ℕ) → List Event → App → App
unfolding on_event
on_events monitor [] a = a
on_events monitor (e ∷ es) a = on_events monitor es (on_event monitor e a)

-- A panel that is seen lies on the monitor.
abbrev pub OnScreen : ℕ → ℕ → App → Type 0
OnScreen width height a =
    a.visible ≡ true → (a.x + panel_width ≤ width) × (a.y + panel_height ≤ height)

on_event-OnScreen :
    (width height : ℕ) (e : Event) (a : App)
    → panel_width ≤ width
    → panel_height ≤ height
    → width < 0x80000000
    → height < 0x80000000
    → OnScreen width height a
    → OnScreen width height (on_event (some (width, height)) e a)
unfolding on_event show toggle_panel center_bottom_right place
on_event-OnScreen width height (menu_show obeys) a w h wb hb o v = ground (arith, o)
on_event-OnScreen width height menu_quit a w h wb hb o v = ground (arith, o)
on_event-OnScreen width height (click known obeys) a w h wb hb o v = ground (arith, o)
on_event-OnScreen width height (toggle known obeys) a w h wb hb o v = ground (arith, o)

-- On a monitor that is as large as the panel, and smaller than 2^31 in both directions, a panel that
-- is seen lies on the monitor as a whole after any events of the tray, the menu and the page, if it
-- did before.
on_events-OnScreen :
    (width height : ℕ) (es : List Event) (a : App)
    → panel_width ≤ width
    → panel_height ≤ height
    → width < 0x80000000
    → height < 0x80000000
    → OnScreen width height a
    → OnScreen width height (on_events (some (width, height)) es a)
unfolding on_events
on_events-OnScreen width height [] a w h wb hb o = o
on_events-OnScreen width height (e ∷ es) a w h wb hb o =
    on_events-OnScreen width height es (on_event (some (width, height)) e a) w h wb hb
      (on_event-OnScreen width height e a w h wb hb o)
