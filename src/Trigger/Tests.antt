-- ===== src/Trigger/Tests.antt =====
-- Presses at concrete times.
use riki.Prelude.{◌≡◌, refl, false, [], ◌∷◌, ◌++◌, arith}
use riki.Session.Types.{down, up}
use riki.Trigger.Recognizer.{idle, latched, pressed, released, polled}
use riki.Trigger.Gestures.{
  handle_all, press_is_gesture, WellFormed, is_pushing, handle_all-WellFormed,
}

press_is_gesture_example :
    handle_all 250 latched
      (pressed 1_000 ∷ (polled 1_100 ∷ pressed 1_200 ∷ polled 1_260 ∷ []) ++ released 1_900 ∷ [])
    ≡ (idle, down ∷ up ∷ [])
press_is_gesture_example =
    press_is_gesture 250 latched 1_000 1_900 (polled 1_100 ∷ pressed 1_200 ∷ polled 1_260 ∷ []) refl
      (omega arith)

handle_all-WellFormed_example :
    let (last, events) = handle_all 250 idle (pressed 0 ∷ released 90 ∷ released 91 ∷ []) in
    WellFormed false events (is_pushing last)
handle_all-WellFormed_example =
    handle_all-WellFormed 250 idle (pressed 0 ∷ released 90 ∷ released 91 ∷ []) tt
