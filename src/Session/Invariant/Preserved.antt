-- ===== src/Session/Invariant/Preserved.antt =====
-- The handlers of session/machine.ts under the invariant, one by one.
use riki.Prelude.{
  ℕ, ◌≡◌, refl, Bool, true, false, List, [], ◌∷◌, ◌++◌, none, arith, any-append, same,
  if◌then◌else◌,
}
use riki.Session.Types.{
  FaultKind, FaultKind-discrete, Phase, idle, armed, listening, processing, CaptureMode, Fault,
  MachineState, abort,
}
use riki.Session.Draft.{
  Draft, is_active, was_reported, schedule, begin_capture, to_processing, to_idle, to_listening,
  announce_fault, raise_fault, voice,
}
use riki.Session.Invariant.{is_nodup, IsValid}
use riki.Session.Invariant.Fields.{enter-Entered, pending-enter}

-- The state that `commit` takes from a draft.
abbrev pub state_of : Draft → MachineState
state_of d = record {
  phase = d.phase;
  since = d.since;
  muted = d.muted;
  latched = d.latched;
  pending = d.pending;
  reported = d.reported;
  env = d.env;
  revision = d.revision;
}

abbrev pub Good : Draft → Type 0
Good d = IsValid (state_of d)

module _ (now : ℕ) where
  pub to_idle-Good : (d : Draft) → is_nodup d.reported ≡ true → Good (to_idle d now)
  unfolding to_idle
  to_idle-Good d h = ground (arith, enter-Entered d idle now [], pending-enter d idle now)

  pub begin_capture-Good :
      (d : Draft) (gesture : CaptureMode)
      → is_nodup d.reported ≡ true
      → d.muted ≡ false
      → Good (begin_capture d gesture now)
  unfolding begin_capture schedule
  begin_capture-Good d gesture h m =
      ground (arith, enter-Entered d (armed gesture) now [], pending-enter d (armed gesture) now)

  pub to_listening-Good :
      (d : Draft) (gesture : CaptureMode)
      → is_nodup d.reported ≡ true
      → d.muted ≡ false
      → Good (to_listening d gesture now)
  unfolding to_listening schedule
  to_listening-Good d gesture h m = ground (
    arith,
    enter-Entered d (listening gesture none) now [],
    pending-enter d (listening gesture none) now,
  )

  pub to_processing-Good :
      (d : Draft) (with_earcon : Bool)
      → is_nodup d.reported ≡ true
      → d.muted ≡ false
      → Good (to_processing d now with_earcon)
  unfolding to_processing schedule
  to_processing-Good d with_earcon h m =
      ground (arith, enter-Entered d (processing now) now [], pending-enter d (processing now) now)

  announce_fault-Good :
      (d : Draft) (fault : Fault) (was_active : Bool)
      → is_nodup (if fault.persistent then d.reported ++ fault.kind ∷ [] else d.reported) ≡ true
      → Good (announce_fault d fault was_active now)
  unfolding announce_fault schedule
  announce_fault-Good d fault was_active h =
      let d1 =
        if fault.persistent then record d { reported = d.reported ++ fault.kind ∷ [] } else d in
      let d2 = if was_active then voice d1 abort else d1 in
      ground (
        arith,
        enter-Entered d2 (Phase.error fault) now [],
        pending-enter d2 (Phase.error fault) now,
      )

  nodup-push :
      (ks : List FaultKind) (k : FaultKind)
      → is_nodup ks ≡ true
      → was_reported ks k ≡ false
      → is_nodup (ks ++ k ∷ []) ≡ true
  nodup-push [] k h n = refl
  nodup-push (j ∷ ks) k h n =
      ground (arith, any-append (λ x. same FaultKind-discrete x j) ks (k ∷ []), nodup-push ks k)

  pub raise_fault-Good :
      (d : Draft) (fault : Fault)
      → is_nodup d.reported ≡ true
      → (is_active d.phase ≡ false → Good d)
      → Good (raise_fault d fault now)
  unfolding raise_fault
  raise_fault-Good d fault h rest = ground (
    arith,
    rest,
    to_idle-Good d h,
    nodup-push d.reported fault.kind h,
    announce_fault-Good d fault (is_active d.phase),
  )
