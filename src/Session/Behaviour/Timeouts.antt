-- ===== src/Session/Behaviour/Timeouts.antt =====
-- session/machine.ts: the listen timeout (`applyTimer`), from the capture that it belongs to on.
use riki.Prelude.{ℕ, ◌+◌, ◌≡◌, Bool, true, false, [], ◌∷◌, arith, any, same, same_self}
use riki.Session.Types.{
  TimerId-discrete, Phase, armed, listening, idle, MachineState, MachineInput, listen_timeout,
  error_dismiss, error_dismiss_ms, abort,
}
use riki.Session.Draft.{
  Draft, draft_of, schedule, forget, to_idle, announce_fault, raise_fault, voice,
}
use riki.Session.Machine.{reduce, timer_in, no_speech}
use riki.Session.Invariant.{ids, IsValid}
use riki.Session.Invariant.Fields.{enter-Entered, pending-enter}

abbrev pub is_capturing : Phase → Bool
is_capturing (armed gesture) = true
is_capturing (listening gesture t) = true
is_capturing _ = false

announce-no_speech :
    (d : Draft) (now : ℕ)
    → ((announce_fault d no_speech true now).phase ≡ Phase.error no_speech)
      × ((announce_fault d no_speech true now).pending
          ≡ (record { id = error_dismiss; due_at = now + error_dismiss_ms }) ∷ [])
unfolding announce_fault schedule
announce-no_speech d now = ground (
  arith,
  enter-Entered (voice d abort) (Phase.error no_speech) now [],
  pending-enter (voice d abort) (Phase.error no_speech) now,
)

listening_timeout :
    (s : MachineState) (now : ℕ)
    → is_capturing s.phase ≡ true
    → let t = reduce s (MachineInput.timer listen_timeout) now in
      (t.state.phase ≡ Phase.error no_speech)
      × (t.state.pending ≡ (record { id = error_dismiss; due_at = now + error_dismiss_ms }) ∷ [])
unfolding reduce timer_in raise_fault forget
listening_timeout s now c =
    ground (arith, announce-no_speech (forget (draft_of s) listen_timeout) now)

dismissed :
    (s : MachineState) (now : ℕ)
    → s.phase ≡ Phase.error no_speech
    → (reduce s (MachineInput.timer error_dismiss) now).state.phase ≡ idle
unfolding reduce timer_in to_idle
dismissed s now e = ground (arith, enter-Entered (forget (draft_of s) error_dismiss) idle now [])

-- While a capture is open its timeout is pending. When it fires, the machine shows the passing
-- fault that nothing was heard, with the dismissal alone pending, four seconds later; and when that
-- fires, the machine is in Idle.
pub capture_ends :
    (s : MachineState) (now later : ℕ)
    → IsValid s
    → is_capturing s.phase ≡ true
    → let t = reduce s (MachineInput.timer listen_timeout) now in
      (any (λ id. same TimerId-discrete id listen_timeout) (ids s.pending) ≡ true)
      × (t.state.phase ≡ Phase.error no_speech)
      × (t.state.pending ≡ (record { id = error_dismiss; due_at = now + error_dismiss_ms }) ∷ [])
      × ((reduce t.state (MachineInput.timer error_dismiss) later).state.phase ≡ idle)
capture_ends s now later v c =
    let t = reduce s (MachineInput.timer listen_timeout) now in
    let (shown, scheduled) = listening_timeout s now c in
    (
      ground (arith, same_self TimerId-discrete listen_timeout),
      shown,
      scheduled,
      dismissed t.state later shown,
    )
