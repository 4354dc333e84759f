-- ===== src/Overlay/Window/Destroyed.antt =====
-- What the controller does once it is destroyed.
use riki.Prelude.{ℕ, ◌≡◌, refl, Bool, true, List, [], ◌∷◌, none, arith}
use riki.Overlay.Window.{
  Controller, Request, loads, destroys, Load, warming, reloading, WindowCall, handle, run, warm,
  loaded, first_loaded, show_fast, hold_fires, destroy, reload, set_capture_excluded, hide,
  apply_placement, detach,
}

-- It is destroyed and has no window.
pub record Gone (calls : List (ℕ × WindowCall)) (s : Controller) : Type 0 where
  pub destroyed : s.destroyed ≡ true
  pub no_window : s.window ≡ none
  pub calls_made : s.calls ≡ calls

module _ (excludes : Bool) where
  loaded-Gone :
      (calls : List (ℕ × WindowCall)) (s : Controller) (loading : List (ℕ × Load))
      → Gone calls s
      → Gone calls (first_loaded s loading)
  unfolding first_loaded loaded
  loaded-Gone calls s [] g = g
  loaded-Gone calls s ((w, warming) ∷ rest) g = record {
    destroyed = ground (arith, g.destroyed);
    no_window = ground (arith, g.destroyed, g.no_window);
    calls_made = ground (arith, g.destroyed, g.calls_made);
  }
  loaded-Gone calls s ((w, reloading visible) ∷ rest) g = record {
    destroyed = ground (arith, g.destroyed);
    no_window = ground (arith, g.destroyed, g.no_window);
    calls_made = ground (arith, g.destroyed, g.calls_made);
  }

  handle-Gone :
      (calls : List (ℕ × WindowCall)) (s : Controller) (r : Request)
      → Gone calls s
      → Gone calls (handle excludes s r)
  unfolding handle warm show_fast hold_fires destroy reload set_capture_excluded hide
      apply_placement detach
  handle-Gone calls s loads g = loaded-Gone calls s s.loading g
  handle-Gone calls s r g = record {
    destroyed = ground (arith, g.destroyed, g.no_window);
    no_window = ground (arith, g.destroyed, g.no_window);
    calls_made = ground (arith, g.destroyed, g.no_window, g.calls_made);
  }

  run-Gone :
      (calls : List (ℕ × WindowCall)) (s : Controller) (rs : List Request)
      → Gone calls s
      → Gone calls (run excludes s rs)
  unfolding run
  run-Gone calls s [] g = g
  run-Gone calls s (r ∷ rs) g = run-Gone calls (handle excludes s r) rs (handle-Gone calls s r g)

  destroy-Gone : (s : Controller) → Gone (destroy s).calls (destroy s)
  unfolding destroy detach
  destroy-Gone s = record { destroyed = refl; no_window = refl; calls_made = refl }

  -- Once the controller is destroyed it has no window, and whatever comes afterwards, a window that
  -- ends its loading or a hold that runs out included, nothing is called on any window, nor is
  -- one created.
  pub destroy-run :
      (s : Controller) (rs : List Request)
      → ((run excludes s (destroys ∷ rs)).calls ≡ (destroy s).calls)
        × ((run excludes s (destroys ∷ rs)).window ≡ none)
  unfolding run handle
  destroy-run s rs =
      let g = run-Gone (destroy s).calls (destroy s) rs (destroy-Gone s) in
      (g.calls_made, g.no_window)
