-- ===== src/Session/Surface/Trace.antt =====
-- The surface under a list of effects, one effect at a time.
use riki.Prelude.{
  ℕ, ◌≡◌, refl, ap, sym, ◌∙◌, Bool, true, false, not, List, [], ◌∷◌, ◌++◌, append_assoc, append-nil,
}
use riki.Session.Types.{MachineState, Effect}
use riki.Session.Runtime.{Call, perform, perform_all}
use riki.Session.Surface.{Surface, absorb, absorb_all}

abbrev pub is_hide : Effect → Bool
is_hide (Effect.window visible hold_ms) = not visible
is_hide _ = false

abbrev pub is_project : Effect → Bool
is_project Effect.project = true
is_project _ = false

pub absorb_all-append :
    (now : ℕ) (w : Surface) (xs ys : List Call)
    → absorb_all now w (xs ++ ys) ≡ absorb_all now (absorb_all now w xs) ys
unfolding absorb_all
absorb_all-append now w [] ys = refl
absorb_all-append now w (x ∷ xs) ys = absorb_all-append now (absorb now w x) xs ys

pub perform_all-append :
    (st : MachineState) (now : ℕ) (xs ys : List Effect)
    → perform_all st now (xs ++ ys) ≡ perform_all st now xs ++ perform_all st now ys
unfolding perform_all
perform_all-append st now [] ys = refl
perform_all-append st now (x ∷ xs) ys =
    rw (perform_all-append st now xs ys) (sym (append_assoc (perform st now x) _ _))

module _ (st : MachineState) (now : ℕ) (w : Surface) where
  -- The surface after some effects.
  unfoldable pub after : List Effect → Surface
  after es = absorb_all now w (perform_all st now es)

  pub after-append :
      (xs ys : List Effect) → after (xs ++ ys) ≡ absorb_all now (after xs) (perform_all st now ys)
  unfolding after
  after-append xs ys =
      ap (absorb_all now w) (perform_all-append st now xs ys) ∙ absorb_all-append now w _ _

-- The same from the front: the first effect, then the others.
pub after-cons :
    (st : MachineState) (now : ℕ) (w : Surface) (e : Effect) (es : List Effect)
    → after st now w (e ∷ es) ≡ after st now (absorb_all now w (perform_all st now (e ∷ []))) es
unfolding after perform_all
after-cons st now w e es =
    absorb_all-append now w (perform st now e) _
    ∙ ap (λ cs. absorb_all now (absorb_all now w cs) (perform_all st now es))
        (sym (append-nil (perform st now e)))

pub after-nil : (st : MachineState) (now : ℕ) (w : Surface) → after st now w [] ≡ w
unfolding after perform_all absorb_all
after-nil st now w = refl

pub after-after :
    (st : MachineState) (now : ℕ) (w : Surface) (xs ys : List Effect)
    → after st now w (xs ++ ys) ≡ after st now (after st now w xs) ys
unfolding after
after-after st now w xs ys = after-append st now w xs ys
