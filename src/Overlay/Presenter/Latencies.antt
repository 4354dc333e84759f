-- ===== src/Overlay/Presenter/Latencies.antt =====
-- The measurements from a request to show the chip to its first paint.
use riki.Prelude.{
  ℕ, ◌+◌, ◌-◌, ◌≤◌, ◌≡◌, refl, Bool, true, false, List, [], ◌∷◌, ◌++◌, Option, none, some, String,
  arith, count, count-append, Option-cases,
}
use riki.Overlay.LevelPump.{LevelFrame, on_frame}
use riki.Overlay.Presenter.{
  ChipModel, OverlayIntent, ready, cancel, paint, fault, OverlayOut, sends_env, sends_model,
  reports_latency, reports_fault, tells_ready, tells_cancel, Presenter, emit, to_window, env_sent,
  model_sent, on_paint, on_intent, set_visible, project, set_environment, set_levels, frames_sent,
  pumped, push_level, Step, intends, makes_visible, projects, sets_environment, sets_levels, pushes,
  handle, run, revision_of,
}

abbrev is_latency : OverlayOut → Bool
is_latency (reports_latency ms) = true
is_latency o = false

abbrev pub latencies : Presenter → ℕ
latencies s = count is_latency s.out

abbrev pub waits : Option ℕ → ℕ
waits none = 0
waits (some at) = 1

-- A request to show the chip while its window is not visible.
abbrev pub begins : (ℕ × Step) → Bool
begins (now, makes_visible false true hold_ms) = true
begins (now, step) = false

-- What is reported and what is still measured.
abbrev tally : Presenter → ℕ
tally s = latencies s + waits s.shown_at

emit-quiet :
    (s : Presenter) (outputs : List OverlayOut)
    → count is_latency outputs ≡ 0
    → tally (emit s outputs) ≡ tally s
emit-quiet s outputs q = omega (arith, q, count-append is_latency s.out outputs)

to_window-quiet :
    (w : Option ℕ) (o : OverlayOut) → is_latency o ≡ false → count is_latency (to_window w o) ≡ 0
to_window-quiet none o q = refl
to_window-quiet (some w) o q = ground (arith, q)

frames_sent-quiet :
    (w : Option ℕ) (frames : List LevelFrame) → count is_latency (frames_sent w frames) ≡ 0
frames_sent-quiet w [] = refl
frames_sent-quiet none (f ∷ fs) = frames_sent-quiet none fs
frames_sent-quiet (some w) (f ∷ fs) = frames_sent-quiet (some w) fs

env_sent-quiet : (w : Option ℕ) (env : Option String) → count is_latency (env_sent w env) ≡ 0
env_sent-quiet w none = refl
env_sent-quiet w (some env) = to_window-quiet w (sends_env env) refl

model_sent-quiet : (w : Option ℕ) (m : Option ChipModel) → count is_latency (model_sent w m) ≡ 0
model_sent-quiet w none = refl
model_sent-quiet w (some m) = to_window-quiet w (sends_model m) refl

tally-on_paint :
    (s : Presenter) (now revision : ℕ) (at : Option ℕ) (m : Option ChipModel)
    → s.shown_at ≡ at
    → tally (on_paint s now revision at m) ≤ tally s
unfolding on_paint
tally-on_paint s now revision (some at) (some m) e =
    ground (arith, e, count-append is_latency s.out (reports_latency (now - at) ∷ []))
tally-on_paint s now revision none m e = omega arith
tally-on_paint s now revision (some at) none e = omega arith

tally-on_intent :
    (s : Presenter) (now : ℕ) (i : OverlayIntent) → tally (on_intent s now i) ≤ tally s
unfolding on_intent
tally-on_intent s now ready =
    let w = s.controller.window in
    let rest = model_sent w s.model ++ tells_ready ∷ [] in
    let quiet : count is_latency (env_sent w s.environment ++ rest) ≡ 0 = omega (
      arith,
      count-append is_latency (env_sent w s.environment) rest,
      count-append is_latency (model_sent w s.model) (tells_ready ∷ []),
      env_sent-quiet w s.environment,
      model_sent-quiet w s.model,
    ) in
    omega (arith, emit-quiet s (env_sent w s.environment ++ rest) quiet)
tally-on_intent s now cancel = omega (arith, emit-quiet s (tells_cancel ∷ []) refl)
tally-on_intent s now (paint revision) = tally-on_paint s now revision s.shown_at s.model refl
tally-on_intent s now (fault message) =
    omega (arith, emit-quiet s (reports_fault message ∷ []) refl)

tally-set_visible :
    (s : Presenter) (now : ℕ) (was_visible visible : Bool) (hold_ms : ℕ)
    → tally (set_visible s now was_visible visible hold_ms)
      ≤ tally s + count begins ((now, makes_visible was_visible visible hold_ms) ∷ [])
unfolding set_visible
tally-set_visible s now false true hold_ms = ground (arith, Option-cases s.shown_at)
tally-set_visible s now true true hold_ms = omega arith
tally-set_visible s now true false hold_ms = ground (arith, Option-cases s.shown_at)
tally-set_visible s now false false hold_ms = ground (arith, Option-cases s.shown_at)

module _ (interval : ℕ) where
  tally-push_level :
      (s : Presenter) (now : ℕ) (visible : Bool) (frame : LevelFrame)
      → tally (push_level interval s now visible frame) ≤ tally s
  unfolding push_level
  tally-push_level s now visible frame =
      let next = on_frame interval s.pump now (record frame { revision = revision_of s.model }) in
      let quiet = frames_sent-quiet s.controller.window next.1 in
      let sent : tally (pumped s next) ≡ tally s =
        emit-quiet (record s { pump = next.0 }) (frames_sent s.controller.window next.1) quiet in
      ground (arith, sent)

  tally-handle :
      (s : Presenter) (now : ℕ) (step : Step)
      → tally (handle interval s now step) ≤ tally s + count begins ((now, step) ∷ [])
  unfolding handle project set_environment set_levels
  tally-handle s now (intends i) = omega (arith, tally-on_intent s now i)
  tally-handle s now (makes_visible was_visible visible hold_ms) =
      tally-set_visible s now was_visible visible hold_ms
  tally-handle s now (projects m) = omega (
    arith,
    emit-quiet (record s { model = some m }) (to_window s.controller.window (sends_model m))
        (to_window-quiet s.controller.window (sends_model m) refl),
  )
  tally-handle s now (sets_environment env) = omega (
    arith,
    emit-quiet (record s { environment = some env }) (to_window s.controller.window (sends_env env))
        (to_window-quiet s.controller.window (sends_env env) refl),
  )
  tally-handle s now (sets_levels none) = omega arith
  tally-handle s now (sets_levels (some source)) = omega arith
  tally-handle s now (pushes visible frame) = omega (arith, tally-push_level s now visible frame)

  -- Whatever is projected, shown, painted and pushed: at most one latency is reported for each request to
  -- show the chip that finds its window not visible, and the one that is still measured, at the
  -- start or in the end, counts as one.
  pub latencies-run :
      (s : Presenter) (steps : List (ℕ × Step))
      → latencies (run interval s steps) + waits (run interval s steps).shown_at
        ≤ latencies s + waits s.shown_at + count begins steps
  unfolding run
  latencies-run s [] = omega arith
  latencies-run s ((now, step) ∷ steps) = omega (
    arith,
    tally-handle s now step,
    latencies-run (handle interval s now step) steps,
    count-append begins ((now, step) ∷ []) steps,
  )
