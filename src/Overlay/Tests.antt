-- ===== src/Overlay/Tests.antt =====
-- The chip's window and its frames on concrete requests.
use riki.Prelude.{
  ℕ, ◌≡◌, ◌⊎◌, ◌&&◌, ◌≤◌, ◌+◌, refl, true, false, List, [], ◌∷◌, none, some, pos, count,
}
use riki.Overlay.Window.{
  Controller, Rectangle, whole, warms, loads, shows, fires_hold, destroys, reloads,
  excludes_capture, hides, places, handle, run, warm, attach_new, first_loaded, loaded, show_fast,
  hide, reload, detach, destroy, initial, Request, set_capture_excluded, apply_placement,
  Rectangle-discrete, ChipScale-discrete,
}
use riki.Overlay.Window.Shown.{shown_of, shows-run}
use riki.Overlay.Window.Placed.{last_place, last_excluded, bounds_of, protection_of, run-Placed}
use riki.Overlay.Window.Destroyed.{destroy-run}
use riki.Session.Types.{output}
use riki.Overlay.LevelPump.{LevelFrame, LevelPump, Spaced, send_times, send_times-Spaced}
use riki.Overlay.Presenter as Presenter
use riki.Overlay.Presenter.Latencies.{latencies, waits, begins, latencies-run}

abbrev corner : Rectangle
corner = record { x = pos 16; y = pos 900; width = 320; height = 96 }

abbrev beside : Rectangle
beside = record corner { x = pos 500 }

abbrev warmed : Controller
warmed = record initial { window = some 0; windows_made = 1; hold_armed = true }

-- A hide with a hold, then a show within it.
shows-run_example :
    shown_of 0 (run true warmed (shows ∷ fires_hold ∷ places corner whole ∷ [])).calls ≡ true
shows-run_example =
    shows-run true 0 warmed (fires_hold ∷ places corner whole ∷ []) refl refl refl refl

abbrev moved_while_warm : List Request
moved_while_warm =
    places corner whole
    ∷ excludes_capture true
    ∷ warms
    ∷ loads
    ∷ places beside whole
    ∷ reloads true
    ∷ []

run-Placed_example :
    ((last_place none moved_while_warm ≡ none)
      ⊎ (bounds_of 1 (run true initial moved_while_warm).calls ≡ last_place none moved_while_warm))
    × ((last_excluded false moved_while_warm && true ≡ false)
        ⊎ (protection_of 1 (run true initial moved_while_warm).calls ≡ true))
unfolding run handle warm attach_new reload detach first_loaded loaded apply_placement
    set_capture_excluded Rectangle-discrete ChipScale-discrete native.Mathlib.Decide.ℕ_discrete
run-Placed_example = run-Placed true moved_while_warm 1 refl

destroy-run_example :
    ((run true initial (destroys ∷ loads ∷ shows ∷ fires_hold ∷ [])).calls
      ≡ (destroy initial).calls)
    × ((run true initial (destroys ∷ loads ∷ shows ∷ fires_hold ∷ [])).window ≡ none)
destroy-run_example = destroy-run true initial (loads ∷ shows ∷ fires_hold ∷ [])

-- The chip is asked to appear while its window loads, at first or after a crash: the load hides it.
lost_while_warming : shown_of 0 (run true initial (warms ∷ shows ∷ loads ∷ [])).calls ≡ false
unfolding run handle warm attach_new show_fast first_loaded loaded
lost_while_warming = refl

lost_while_reloading :
    shown_of 1 (run true warmed (reloads false ∷ shows ∷ loads ∷ [])).calls ≡ false
unfolding run handle reload detach attach_new show_fast first_loaded loaded
lost_while_reloading = refl

-- The chip is asked to go while its window reloads: the load shows it.
back_while_reloading :
    shown_of 1 (run true warmed (reloads true ∷ hides 0 ∷ loads ∷ [])).calls ≡ true
unfolding run handle reload detach attach_new hide first_loaded loaded
back_while_reloading = refl

abbrev speaking : LevelPump
speaking = record { shows_source = some output; last_sent_at = none }

abbrev frame : LevelFrame
frame = record { source = output; value = 1; at = 5; revision = 0 }

abbrev frames : List (ℕ × LevelFrame)
frames = (100, frame) ∷ (120, frame) ∷ (140, frame) ∷ []

send_times-Spaced_example : Spaced 33 0 (send_times 33 speaking frames)
send_times-Spaced_example = send_times-Spaced 33 speaking frames

abbrev presenter : Presenter.Presenter
presenter = record {
  controller = warmed;
  pump = speaking;
  model = some (record { model_revision = 4; text = "listening" });
  environment = none;
  shown_at = none;
  out = [];
}

abbrev steps : List (ℕ × Presenter.Step)
steps =
    (10, Presenter.makes_visible false true 0)
    ∷ (30, Presenter.intends (Presenter.paint 4))
    ∷ (40, Presenter.intends (Presenter.paint 4))
    ∷ []

latencies-run_example :
    latencies (Presenter.run 33 presenter steps) + waits (Presenter.run 33 presenter steps).shown_at
    ≤ latencies presenter + waits presenter.shown_at + count begins steps
latencies-run_example = latencies-run 33 presenter steps
