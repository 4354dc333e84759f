-- ===== src/Overlay/Window/Placed.antt =====
-- The place of the window, and whether it is excluded from capture.
use riki.Prelude.{
  ℕ, ◌≡◌, ◌⊎◌, inl, inr, refl, ◌∙◌, ap, sym, ◌&&◌, same_iff, Bool-cases, Bool, true, false, List,
  [], ◌∷◌, Option, none, some, arith, Option-cases, if◌then◌else◌, ◌==◌,
}
use riki.Overlay.Window.{
  Controller, WindowCall, set_bounds, set_content_protection, Request, warms, loads, reloads,
  excludes_capture, places, Load, warming, reloading, handle, run, warm, loaded, first_loaded,
  show_fast, hold_fires, destroy, reload, set_capture_excluded, hide, apply_placement, detach,
  Placement, ChipScale, Rectangle, Rectangle-discrete, same_placement, attach_new, initial,
}

-- What a window was last told, by the calls, the latest first.
abbrev pub bounds_of : ℕ → List (ℕ × WindowCall) → Option Rectangle
bounds_of w [] = none
bounds_of w ((v, set_bounds b) ∷ cs) = let rest = bounds_of w cs in if v == w then some b else rest
bounds_of w ((v, c) ∷ cs) = bounds_of w cs

abbrev pub protection_of : ℕ → List (ℕ × WindowCall) → Bool
protection_of w [] = false
protection_of w ((v, set_content_protection on) ∷ cs) =
    let rest = protection_of w cs in if v == w then on else rest
protection_of w ((v, c) ∷ cs) = protection_of w cs

abbrev pub placed_at : Option Placement → Option Rectangle
placed_at none = none
placed_at (some p) = some p.bounds

-- The window that stands has the place that was last asked for, and is excluded from capture if that was
-- asked for and the platform can.
pub record Placed (excludes : Bool) (s : Controller) : Type 0 where
  pub place :
      (w : ℕ) (p : Placement)
      → s.window ≡ some w
      → s.placement ≡ some p
      → bounds_of w s.calls ≡ some p.bounds
  pub hidden :
      (w : ℕ)
      → s.window ≡ some w
      → s.capture_excluded ≡ true
      → excludes ≡ true
      → protection_of w s.calls ≡ true

-- What a request asks for: the place, and the exclusion from capture, or what was asked for before.
abbrev pub place_after : Request → Option Rectangle → Option Rectangle
place_after (places bounds scale) before = some bounds
place_after _ before = before

abbrev pub excluded_after : Request → Bool → Bool
excluded_after (excludes_capture on) before = on
excluded_after _ before = before

-- What was last asked for by a list of requests.
abbrev pub last_place : Option Rectangle → List Request → Option Rectangle
last_place before [] = before
last_place before (r ∷ rs) = last_place (place_after r before) rs

abbrev pub last_excluded : Bool → List Request → Bool
last_excluded before [] = before
last_excluded before (r ∷ rs) = last_excluded (excluded_after r before) rs

loaded-asked :
    (s : Controller) (loading : List (ℕ × Load))
    → (placed_at (first_loaded s loading).placement ≡ placed_at s.placement)
      × ((first_loaded s loading).capture_excluded ≡ s.capture_excluded)
unfolding first_loaded loaded
loaded-asked s [] = (refl, refl)
loaded-asked s ((v, warming) ∷ rest) = ground arith
loaded-asked s ((v, reloading visible) ∷ rest) = ground arith

-- A placement that is taken for the same has the bounds that are asked for.
same_placement-placed_at :
    (o : Option Placement) (bounds : Rectangle) (scale : ChipScale)
    → same_placement o bounds scale ≡ true
    → placed_at o ≡ some bounds
same_placement-placed_at none bounds scale t = absurd (cc)
same_placement-placed_at (some p) bounds scale t =
    ap some ((same_iff Rectangle-discrete p.bounds bounds).0 (ground (arith, t)))

apply_placement-asked :
    (s : Controller) (bounds : Rectangle) (scale : ChipScale)
    → (placed_at (apply_placement s bounds scale).placement ≡ some bounds)
      × ((apply_placement s bounds scale).capture_excluded ≡ s.capture_excluded)
unfolding apply_placement
apply_placement-asked s bounds scale = elim (Bool-cases (same_placement s.placement bounds scale)) [
  | inl t ↦ rw t (same_placement-placed_at s.placement bounds scale t, refl)
  | inr t ↦ rw t (refl, refl)
]

module _ (excludes : Bool) where
  attach_new-Placed : (s : Controller) (why : Load) → Placed excludes (attach_new excludes s why)
  unfolding attach_new
  attach_new-Placed s why = record {
    place = λ w p e q. ground (arith, e, q);
    hidden = λ w e q x. ground (arith, e, q, x);
  }

  loaded-Placed :
      (s : Controller) (loading : List (ℕ × Load))
      → Placed excludes s
      → Placed excludes (first_loaded s loading)
  unfolding first_loaded loaded
  loaded-Placed s [] h = h
  loaded-Placed s ((v, warming) ∷ rest) h = record {
    place = λ w p e q. ground (arith, h.place w p, e, q);
    hidden = λ w e q x. ground (arith, h.hidden w, e, q, x);
  }
  loaded-Placed s ((v, reloading visible) ∷ rest) h = record {
    place = λ w p e q. ground (arith, h.place w p, e, q);
    hidden = λ w e q x. ground (arith, h.hidden w, e, q, x);
  }

  apply_placement-Placed :
      (s : Controller) (bounds : Rectangle) (scale : ChipScale)
      → Placed excludes s
      → Placed excludes (apply_placement s bounds scale)
  unfolding apply_placement
  apply_placement-Placed s bounds scale h = record {
    place = λ w p e q. ground (arith, h.place w p, e, q, Option-cases s.window);
    hidden = λ w e q x. ground (arith, h.hidden w, e, q, x, Option-cases s.window);
  }

  handle-Placed :
      (s : Controller) (r : Request) → Placed excludes s → Placed excludes (handle excludes s r)
  unfolding handle warm reload set_capture_excluded show_fast hold_fires hide destroy detach
  handle-Placed s warms h = ground (arith, h, Option-cases s.window, attach_new-Placed s warming)
  handle-Placed s (reloads visible) h =
      ground (arith, h, attach_new-Placed (detach s) (reloading visible))
  handle-Placed s loads h = loaded-Placed s s.loading h
  handle-Placed s (places bounds scale) h = apply_placement-Placed s bounds scale h
  handle-Placed s (excludes_capture on) h = record {
    place = λ w p e q. ground (arith, h.place w p, e, q, Option-cases s.window);
    hidden = λ w e q x. ground (arith, h.hidden w, e, q, x, Option-cases s.window);
  }
  handle-Placed s r h = record {
    place = λ w p e q. ground (arith, h.place w p, e, q, Option-cases s.window);
    hidden = λ w e q x. ground (arith, h.hidden w, e, q, x, Option-cases s.window);
  }

  run_keeps :
      (s : Controller) (rs : List Request) → Placed excludes s → Placed excludes (run excludes s rs)
  unfolding run
  run_keeps s [] h = h
  run_keeps s (r ∷ rs) h = run_keeps (handle excludes s r) rs (handle-Placed s r h)

  handle-asked :
      (s : Controller) (r : Request)
      → (placed_at (handle excludes s r).placement ≡ place_after r (placed_at s.placement))
        × ((handle excludes s r).capture_excluded ≡ excluded_after r s.capture_excluded)
  unfolding handle warm reload attach_new set_capture_excluded show_fast hold_fires hide destroy
      detach
  handle-asked s warms = ground (arith, Option-cases s.window)
  handle-asked s (reloads visible) = ground arith
  handle-asked s loads = loaded-asked s s.loading
  handle-asked s (places bounds scale) = apply_placement-asked s bounds scale
  handle-asked s (excludes_capture on) = ground arith
  handle-asked s r = ground (arith, Option-cases s.window)

  run-asked :
      (s : Controller) (rs : List Request)
      → (placed_at (run excludes s rs).placement ≡ last_place (placed_at s.placement) rs)
        × ((run excludes s rs).capture_excluded ≡ last_excluded s.capture_excluded rs)
  unfolding run
  run-asked s [] = (refl, refl)
  run-asked s (r ∷ rs) =
      let next = handle excludes s r in
      let (p, c) = handle-asked s r in
      let (p', c') = run-asked next rs in
      (p' ∙ ap (λ place. last_place place rs) p, c' ∙ ap (λ on. last_excluded on rs) c)

  -- Whatever was asked of the controller, and however its windows came and went: if a window stands and
  -- a place was asked for, the last place that the window was given is the one that was asked for
  -- last, and if the last request about it was to exclude the window from capture, and the platform
  -- can, the window has been told to exclude itself and not told otherwise since.
  pub run-Placed :
      (rs : List Request) (w : ℕ)
      → (run excludes initial rs).window ≡ some w
      → ((last_place none rs ≡ none)
          ⊎ (bounds_of w (run excludes initial rs).calls ≡ last_place none rs))
        × ((last_excluded false rs && excludes ≡ false)
            ⊎ (protection_of w (run excludes initial rs).calls ≡ true))
  run-Placed rs w e =
      let s = run excludes initial rs in
      let kept : Placed excludes s = run_keeps initial rs (record {
        place = λ w p e q. absurd (ground (arith, e));
        hidden = λ w e q x. absurd (ground (arith, e));
      }) in
      let (asked, excluded) = run-asked initial rs in
      (
        elim (Option-cases s.placement) [
          | inl nowhere ↦ inl (sym asked ∙ ap placed_at nowhere)
          | inr (p, there) ↦ inr (kept.place w p e there ∙ sym (ap placed_at there) ∙ asked)
        ],
        ground (arith, kept.hidden w e, excluded),
      )
