-- ===== src/Overlay/Window.antt =====
-- main/overlay/window.ts: the controller of the chip's window. Windows have numbers, in the order in
-- which they are created, and `calls` is what was called on which window, the latest first. The await
-- in `warm` and `reload` makes them two steps: `loading` are the windows that load, with the visibility
-- that `reload` has read. What a window says of its own visibility is an argument. `hold_armed` is the
-- timer of the hold, which the clock keeps by its name.
pub mod Shown
pub mod Placed
pub mod Destroyed
use native.Mathlib.Decide.{ℕ_discrete}
use riki.Prelude.{
  ℕ, zero, suc, ◌+◌, Bool, true, false, not, ◌&&◌, ◌||◌, List, [], ◌∷◌, ◌++◌, Option, none, some, ℤ,
  if◌then◌else◌, same, leb,
}

pub record Rectangle : Type 0 where
  pub x : ℤ
  pub y : ℤ
  pub width : ℕ
  pub height : ℕ

unfoldable pub Rectangle-discrete : Discrete Rectangle
Rectangle-discrete = hlevel (ℕ_discrete)

pub data ChipScale : Type 0 where
  three_quarters whole five_quarters three_halves : ChipScale

unfoldable pub ChipScale-discrete : Discrete ChipScale
ChipScale-discrete = hlevel

pub record Placement : Type 0 where
  pub bounds : Rectangle
  pub scale : ChipScale

pub data WindowCall : Type 0 where
  create load show_inactive hide_window destroy_window : WindowCall
  set_bounds : Rectangle → WindowCall
  set_content_protection : Bool → WindowCall

-- Why a window loads; a reload remembers whether its predecessor was visible.
pub data Load : Type 0 where
  warming : Load
  reloading : Bool → Load

pub record Controller : Type 0 where
  pub window : Option ℕ
  pub windows_made : ℕ
  pub placement : Option Placement
  pub capture_excluded : Bool
  pub show_when_warm : Bool
  pub destroyed : Bool
  pub hold_armed : Bool
  pub loading : List (ℕ × Load)
  pub calls : List (ℕ × WindowCall)

-- `window?.…`
abbrev pub on_window : Option ℕ → WindowCall → List (ℕ × WindowCall) → List (ℕ × WindowCall)
on_window none c calls = calls
on_window (some w) c calls = (w, c) ∷ calls

abbrev pub call_window : Controller → WindowCall → Controller
call_window s c = record s { calls = on_window s.window c s.calls }

abbrev pub bounds_call : ℕ → Option Placement → List (ℕ × WindowCall)
bounds_call w none = []
bounds_call w (some p) = (w, set_bounds p.bounds) ∷ []

unfoldable pub detach : Controller → Controller
detach s = record (call_window s destroy_window) { window = none }

module _ (excludes : Bool) where
  -- `excludes` is whether the platform can exclude a window from capture. A new window is created,
  -- attached, and starts to load.
  unfoldable pub attach_new : Controller → Load → Controller
  attach_new s why =
      let w = s.windows_made in
      let protection =
        if s.capture_excluded && excludes then (w, set_content_protection true) ∷ [] else [] in
      record s {
        window = some w;
        windows_made = w + 1;
        loading = s.loading ++ (w, why) ∷ [];
        calls = (w, load) ∷ (protection ++ (bounds_call w s.placement ++ (w, create) ∷ s.calls));
      }

  unfoldable pub warm : Controller → Controller
  unfolding attach_new
  warm s = if s.destroyed then s else elim s.window [ none ↦ attach_new s warming | some w ↦ s ]

  unfoldable pub reload : Controller → Bool → Controller
  unfolding attach_new detach
  reload s visible = if s.destroyed then s else attach_new (detach s) (reloading visible)

  unfoldable pub set_capture_excluded : Controller → Bool → Controller × Bool
  set_capture_excluded s on =
      let asked = record s { capture_excluded = on } in
      if not excludes then (asked, false) else (call_window asked (set_content_protection on), on)

-- `warm` and `reload` from the await on.
unfoldable pub loaded : Controller → ℕ → Load → Controller
loaded s w warming =
    if s.destroyed
    then s
    else if s.show_when_warm
    then record s { show_when_warm = false; calls = (w, show_inactive) ∷ s.calls }
    else record s { calls = (w, hide_window) ∷ s.calls }
loaded s w (reloading visible) =
    if s.destroyed
    then s
    else record s { calls = (w, if visible then show_inactive else hide_window) ∷ s.calls }

unfoldable pub first_loaded : Controller → List (ℕ × Load) → Controller
unfolding loaded
first_loaded s [] = s
first_loaded s ((w, why) ∷ rest) = loaded (record s { loading = rest }) w why

unfoldable pub show_fast : Controller → Controller
show_fast s =
    let held = record s { hold_armed = false } in
    if s.destroyed then s else elim s.window [
      | none ↦ record held { show_when_warm = true }
      | some w ↦ call_window held show_inactive
    ]

-- `afterMs` is 0 when it is not given.
unfoldable pub hide : Controller → ℕ → Controller
hide s after_ms =
    let lost = record s { show_when_warm = false } in
    if leb after_ms 0
    then call_window (record lost { hold_armed = false }) hide_window
    else record lost { hold_armed = true }

unfoldable pub hold_fires : Controller → Controller
hold_fires s = if s.hold_armed then call_window (record s { hold_armed = false }) hide_window else s

abbrev pub same_placement : Option Placement → Rectangle → ChipScale → Bool
same_placement none bounds scale = false
same_placement (some p) bounds scale =
    same ChipScale-discrete p.scale scale && same Rectangle-discrete p.bounds bounds

unfoldable pub apply_placement : Controller → Rectangle → ChipScale → Controller
apply_placement s bounds scale =
    if same_placement s.placement bounds scale
    then s
    else call_window (record s { placement = some (record { bounds = bounds; scale = scale }) })
        (set_bounds bounds)

unfoldable pub destroy : Controller → Controller
unfolding detach
destroy s = detach (record s { destroyed = true; hold_armed = false })

pub data Request : Type 0 where
  warms loads shows fires_hold destroys : Request
  reloads excludes_capture : Bool → Request
  hides : ℕ → Request
  places : Rectangle → ChipScale → Request

module _ (excludes : Bool) where
  unfoldable pub handle : Controller → Request → Controller
  unfolding warm first_loaded show_fast hold_fires destroy reload set_capture_excluded hide
      apply_placement
  handle s warms = warm excludes s
  handle s loads = first_loaded s s.loading
  handle s shows = show_fast s
  handle s fires_hold = hold_fires s
  handle s destroys = destroy s
  handle s (reloads visible) = reload excludes s visible
  handle s (excludes_capture on) = (set_capture_excluded excludes s on).0
  handle s (hides after_ms) = hide s after_ms
  handle s (places bounds scale) = apply_placement s bounds scale

  unfoldable pub run : Controller → List Request → Controller
  run s [] = s
  run s (r ∷ rs) = run (handle s r) rs

abbrev pub initial : Controller
initial = record {
  window = none;
  windows_made = 0;
  placement = none;
  capture_excluded = false;
  show_when_warm = false;
  destroyed = false;
  hold_armed = false;
  loading = [];
  calls = [];
}
