-- ===== src/Overlay/Window/Shown.antt =====
-- Showing the window, and what hides it.
use riki.Prelude.{ℕ, ◌≡◌, Bool, true, false, List, [], ◌∷◌, some, arith, if◌then◌else◌, ◌==◌, all}
use riki.Overlay.Window.{
  Controller, WindowCall, show_inactive, hide_window, Request, shows, destroys, reloads, hides,
  handle, run, warm, first_loaded, show_fast, hold_fires, set_capture_excluded, apply_placement,
}

-- Whether a window was shown last, by the calls, the latest first.
abbrev pub shown_of : ℕ → List (ℕ × WindowCall) → Bool
shown_of w [] = false
shown_of w ((v, show_inactive) ∷ cs) = let rest = shown_of w cs in if v == w then true else rest
shown_of w ((v, hide_window) ∷ cs) = let rest = shown_of w cs in if v == w then false else rest
shown_of w ((v, c) ∷ cs) = shown_of w cs

-- Every request that does not ask for the window to go.
abbrev pub keeps_up : Request → Bool
keeps_up (hides after_ms) = false
keeps_up (reloads visible) = false
keeps_up destroys = false
keeps_up r = true

record Up (w : ℕ) (s : Controller) : Type 0 where
  stands : s.window ≡ some w
  not_held : s.hold_armed ≡ false
  not_loading : s.loading ≡ []
  not_destroyed : s.destroyed ≡ false
  shown : shown_of w s.calls ≡ true

module _ (excludes : Bool) (w : ℕ) where
  handle-Up :
      (s : Controller) (r : Request) → keeps_up r ≡ true → Up w s → Up w (handle excludes s r)
  unfolding handle warm first_loaded show_fast hold_fires set_capture_excluded apply_placement
  handle-Up s r k u = record {
    stands = ground (arith, k, u.stands, u.not_held, u.not_loading, u.not_destroyed);
    not_held = ground (arith, k, u.stands, u.not_held, u.not_loading, u.not_destroyed);
    not_loading = ground (arith, k, u.stands, u.not_held, u.not_loading, u.not_destroyed);
    not_destroyed = ground (arith, k, u.stands, u.not_held, u.not_loading, u.not_destroyed);
    shown = ground (arith, k, u.stands, u.not_held, u.not_loading, u.not_destroyed, u.shown);
  }

  run-Up :
      (s : Controller) (rs : List Request)
      → all keeps_up rs ≡ true
      → Up w s
      → Up w (run excludes s rs)
  unfolding run
  run-Up s [] k u = u
  run-Up s (r ∷ rs) k u =
      run-Up (handle excludes s r) rs (ground (arith, k)) (handle-Up s r (ground (arith, k)) u)

  -- A window that has loaded is asked to appear, perhaps inside the hold of an earlier hide: it is shown,
  -- and it stays so, whatever comes that does not ask for it to go. In particular the hold that was
  -- running does not hide it.
  pub shows-run :
      (s : Controller) (rs : List Request)
      → s.window ≡ some w
      → s.loading ≡ []
      → s.destroyed ≡ false
      → all keeps_up rs ≡ true
      → shown_of w (run excludes s (shows ∷ rs)).calls ≡ true
  unfolding run handle show_fast
  shows-run s rs e l d k =
      let up : Up w (show_fast s) = record {
        stands = ground (arith, e, d);
        not_held = ground (arith, e, d);
        not_loading = ground (arith, e, d, l);
        not_destroyed = ground (arith, e, d);
        shown = ground (arith, e, d);
      } in
      let u = run-Up (show_fast s) rs k up in u.shown
