-- ===== src/Overlay/Presenter.antt =====
-- main/overlay/presenter.ts: from the machine's projections to the renderer, and the renderer's intents
-- back. The presenter's calls of its window are those of the controller, and what the window says of its
-- visibility is an argument. `out` is what is sent to the renderer and reported. A model is its revision
-- and a text that is passed on.
pub mod Latencies
use riki.Prelude.{
  ℕ, zero, suc, ◌+◌, ◌-◌, ◌≤◌, ◌≡◌, refl, Bool, true, false, not, ◌&&◌, List, [], ◌∷◌, ◌++◌, Option,
  none, some, String, arith, if◌then◌else◌, ltb, leb, count, count-append, Option-cases,
}
use riki.Overlay.Window.{Controller, show_fast, hide}
use riki.Session.Types.{LevelSource}
use riki.Overlay.LevelPump.{LevelFrame, LevelPump, start_pump, stop_pump, on_frame}

pub record ChipModel : Type 0 where
  pub model_revision : ℕ
  pub text : String

pub data OverlayIntent : Type 0 where
  ready cancel : OverlayIntent
  paint : ℕ → OverlayIntent
  fault : String → OverlayIntent

pub data OverlayOut : Type 0 where
  sends_env : String → OverlayOut
  sends_model : ChipModel → OverlayOut
  sends_frame : LevelFrame → OverlayOut
  reports_latency : ℕ → OverlayOut
  reports_fault : String → OverlayOut
  tells_ready tells_cancel : OverlayOut

pub record Presenter : Type 0 where
  pub controller : Controller
  pub pump : LevelPump
  pub model : Option ChipModel
  pub environment : Option String
  pub shown_at : Option ℕ
  pub out : List OverlayOut

abbrev pub emit : Presenter → List OverlayOut → Presenter
emit s outputs = record s { out = s.out ++ outputs }

-- `window.send`, which needs a window.
abbrev pub to_window : Option ℕ → OverlayOut → List OverlayOut
to_window none o = []
to_window (some w) o = o ∷ []

abbrev pub env_sent : Option ℕ → Option String → List OverlayOut
env_sent w none = []
env_sent w (some env) = to_window w (sends_env env)

abbrev pub model_sent : Option ℕ → Option ChipModel → List OverlayOut
model_sent w none = []
model_sent w (some m) = to_window w (sends_model m)

-- `case 'paint'`
unfoldable pub on_paint : Presenter → ℕ → ℕ → Option ℕ → Option ChipModel → Presenter
on_paint s now revision (some at) (some m) =
    if leb m.model_revision revision
    then emit (record s { shown_at = none }) (reports_latency (now - at) ∷ [])
    else s
on_paint s now revision at m = s

unfoldable pub on_intent : Presenter → ℕ → OverlayIntent → Presenter
unfolding on_paint
on_intent s now ready = emit s (
    env_sent s.controller.window s.environment
    ++ (model_sent s.controller.window s.model ++ tells_ready ∷ []))
on_intent s now cancel = emit s (tells_cancel ∷ [])
on_intent s now (paint revision) = on_paint s now revision s.shown_at s.model
on_intent s now (fault message) = emit s (reports_fault message ∷ [])

unfoldable pub set_visible : Presenter → ℕ → Bool → Bool → ℕ → Presenter
unfolding show_fast hide
set_visible s now was_visible visible hold_ms =
    if visible
    then record s {
      shown_at = if was_visible then s.shown_at else some now;
      controller = show_fast s.controller;
    }
    else record s { shown_at = none; controller = hide s.controller hold_ms }

unfoldable pub project : Presenter → ChipModel → Presenter
project s next =
    emit (record s { model = some next }) (to_window s.controller.window (sends_model next))

unfoldable pub set_environment : Presenter → String → Presenter
set_environment s env =
    emit (record s { environment = some env }) (to_window s.controller.window (sends_env env))

unfoldable pub set_levels : Presenter → Option LevelSource → Presenter
unfolding start_pump stop_pump
set_levels s none = record s { pump = stop_pump s.pump }
set_levels s (some source) = record s { pump = start_pump s.pump source }

abbrev pub revision_of : Option ChipModel → ℕ
revision_of none = 0
revision_of (some m) = m.model_revision

abbrev pub frames_sent : Option ℕ → List LevelFrame → List OverlayOut
frames_sent w [] = []
frames_sent w (f ∷ fs) = to_window w (sends_frame f) ++ frames_sent w fs

abbrev pub pumped : Presenter → LevelPump × List LevelFrame → Presenter
pumped s (pump, frames) = emit (record s { pump = pump }) (frames_sent s.controller.window frames)

unfoldable pub push_level : ℕ → Presenter → ℕ → Bool → LevelFrame → Presenter
unfolding on_frame
push_level interval s now visible frame =
    let revision = revision_of s.model in
    if not visible
    then s
    else if ltb 0 frame.revision && ltb frame.revision revision
    then s
    else pumped s (on_frame interval s.pump now (record frame { revision = revision }))

pub data Step : Type 0 where
  intends : OverlayIntent → Step
  makes_visible : Bool → Bool → ℕ → Step
  projects : ChipModel → Step
  sets_environment : String → Step
  sets_levels : Option LevelSource → Step
  pushes : Bool → LevelFrame → Step

module _ (interval : ℕ) where
  unfoldable pub handle : Presenter → ℕ → Step → Presenter
  unfolding on_intent set_visible project set_environment set_levels push_level
  handle s now (intends i) = on_intent s now i
  handle s now (makes_visible was_visible visible hold_ms) =
      set_visible s now was_visible visible hold_ms
  handle s now (projects m) = project s m
  handle s now (sets_environment env) = set_environment s env
  handle s now (sets_levels source) = set_levels s source
  handle s now (pushes visible frame) = push_level interval s now visible frame

  unfoldable pub run : Presenter → List (ℕ × Step) → Presenter
  run s [] = s
  run s ((now, step) ∷ steps) = run (handle s now step) steps
