-- ===== src/Session/Surface/Reordering.antt =====
-- `commit` of session/machine.ts puts the effects that show the window first: what that does to the
-- surface.
use riki.Prelude.{
  ℕ, ◌≡◌, refl, Bool, true, false, not, List, [], ◌∷◌, ◌++◌, arith, filter, any, any-append, count,
  if◌then◌else◌,
}
use riki.Session.Types.{MachineState, Effect}
use riki.Session.Draft.{is_show}
use riki.Session.Projection.{project_chip}
use riki.Session.Runtime.{perform, perform_all}
use riki.Session.Surface.{Surface, absorb, absorb_all}
use riki.Session.Surface.Trace.{after, after-after, after-cons, after-nil, is_hide, is_project}

-- What is not the window's, and not the chip's.
pub record SameKept (a b : Surface) : Type 0 where
  pub timers_kept : a.timers ≡ b.timers
  pub ducked_kept : a.ducked ≡ b.ducked
  pub meter_kept : a.meter ≡ b.meter

abbrev pub is_late : Effect → Bool
is_late e = not (is_show e)

module _ (st : MachineState) (now : ℕ) where
  abbrev step : Surface → Effect → Surface
  step w e = absorb_all now w (perform_all st now (e ∷ []))

  step-SameKept : (e : Effect) (a b : Surface) → SameKept a b → SameKept (step a e) (step b e)
  unfolding absorb_all perform_all absorb perform
  step-SameKept (Effect.window v h) a b k = ground arith
  step-SameKept _ a b k = ground arith

  show-SameKept :
      (e : Effect) (a b : Surface) → is_show e ≡ true → SameKept a b → SameKept a (step b e)
  unfolding absorb_all perform_all absorb perform
  show-SameKept (Effect.window v h) a b s k = ground arith
  show-SameKept _ a b s k = ground arith

  shows-SameKept :
      (es : List Effect) (a b : Surface)
      → SameKept a b
      → SameKept a (after st now b (filter is_show es))
  shows-SameKept [] a b k = ground (arith, after-nil st now b)
  shows-SameKept (e ∷ es) a b k = ground (
    arith,
    after-cons st now b e (filter is_show es),
    shows-SameKept es a b k,
    shows-SameKept es a (step b e),
    show-SameKept e a b,
  )

  late-SameKept :
      (es : List Effect) (a b : Surface)
      → SameKept a b
      → SameKept (after st now a (filter is_late es)) (after st now b es)
  late-SameKept [] a b k = ground (arith, after-nil st now a, after-nil st now b)
  late-SameKept (e ∷ es) a b k = ground (
    arith,
    after-cons st now a e (filter is_late es),
    after-cons st now b e es,
    late-SameKept es a (step b e),
    late-SameKept es (step a e) (step b e),
    show-SameKept e a b,
    step-SameKept e a b k,
  )

  pub commit-SameKept :
      (w : Surface) (es : List Effect)
      → SameKept (after st now w (filter is_show es ++ filter is_late es)) (after st now w es)
  commit-SameKept w es =
      let first = after st now w (filter is_show es) in
      ground (
        arith,
        after-after st now w (filter is_show es) (filter is_late es),
        shows-SameKept es w w (ground arith),
        late-SameKept es first w,
      )

  shows-visible :
      (es : List Effect) (w : Surface)
      → (after st now w (filter is_show es)).visible ≡ (if any is_show es then true else w.visible)
  unfolding absorb_all perform_all absorb perform
  shows-visible [] w = ground (arith, after-nil st now w)
  shows-visible (Effect.window true h ∷ es) w = ground (
    arith,
    after-cons st now w (Effect.window true h) (filter is_show es),
    shows-visible es (step w (Effect.window true h)),
  )
  shows-visible (Effect.window false h ∷ es) w = shows-visible es w
  shows-visible (e ∷ es) w = shows-visible es w

  late-visible :
      (es : List Effect) (w : Surface)
      → (after st now w (filter is_late es)).visible ≡ (if any is_hide es then false else w.visible)
  unfolding absorb_all perform_all absorb perform
  late-visible [] w = ground (arith, after-nil st now w)
  late-visible (Effect.window true h ∷ es) w = late-visible es w
  late-visible (Effect.window false h ∷ es) w = ground (
    arith,
    after-cons st now w (Effect.window false h) (filter is_late es),
    late-visible es (step w (Effect.window false h)),
  )
  late-visible (e ∷ es) w =
      ground (arith, after-cons st now w e (filter is_late es), late-visible es (step w e))

  pub commit-visible :
      (w : Surface) (es : List Effect)
      → (after st now w (filter is_show es ++ filter is_late es)).visible
        ≡ (if any is_hide es then false else if any is_show es then true else w.visible)
  commit-visible w es = ground (
    arith,
    after-after st now w (filter is_show es) (filter is_late es),
    shows-visible es w,
    late-visible es (after st now w (filter is_show es)),
  )

  -- The chip shows the last model sent, which carries the revision of the final state.
  chip-after :
      (es : List Effect) (w : Surface)
      → (after st now w es).chip_revision
        ≡ (if any is_project es then st.revision else w.chip_revision)
  unfolding absorb_all perform_all absorb perform project_chip
  chip-after [] w = ground (arith, after-nil st now w)
  chip-after (e ∷ es) w = ground (arith, after-cons st now w e es, chip-after es (step w e))

  any-project-commit :
      (es : List Effect)
      → any is_project (filter is_show es ++ filter is_late es) ≡ any is_project es
  any-project-commit es = ground (
    arith,
    any-append is_project (filter is_show es) (filter is_late es),
    none-shown es,
    all-late es,
  )
    where
      none-shown : (es : List Effect) → any is_project (filter is_show es) ≡ false
      none-shown [] = refl
      none-shown (Effect.window true h ∷ es) = none-shown es
      none-shown (Effect.window false h ∷ es) = none-shown es
      none-shown (e ∷ es) = none-shown es

      all-late : (es : List Effect) → any is_project (filter is_late es) ≡ any is_project es
      all-late [] = refl
      all-late (Effect.window true h ∷ es) = all-late es
      all-late (Effect.window false h ∷ es) = all-late es
      all-late (e ∷ es) = ground (arith, all-late es)

  pub commit-chip :
      (w : Surface) (es : List Effect)
      → (after st now w (filter is_show es ++ filter is_late es)).chip_revision
        ≡ (if any is_project es then st.revision else w.chip_revision)
  commit-chip w es =
      ground (arith, chip-after (filter is_show es ++ filter is_late es) w, any-project-commit es)

  -- With no model sent, no revision was spent.
  pub count-project : (es : List Effect) → any is_project es ≡ false → count is_project es ≡ 0
  count-project [] h = refl
  count-project (e ∷ es) h = ground (arith, count-project es)
