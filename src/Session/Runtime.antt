-- ===== src/Session/Runtime.antt =====
-- session/runtime.ts: what performs the effects. The sinks, the clock and the subscribers are
-- outside; what the runtime does to them is the list of its calls, in order, and the inputs that
-- they dispatch while a step runs are an argument.
use riki.Prelude.{
  ℕ, zero, suc, Bool, true, false, List, [], ◌∷◌, ◌++◌, Option, none, some, map, same,
  if◌then◌else◌,
}
use riki.Session.Types.{
  TimerId, Phase, MachineEnvironment, MachineInput, MachineState, EarconId, VoiceCommand,
  LevelSource, Effect,
}
use riki.Session.Draft.{initial}
use riki.Session.Machine.{reduce}
use riki.Session.Projection.{ChipViewModel, TrayGlyph, project_chip, project_tray}

pub data PhaseKind : Type 0 where
  idle armed listening processing speaking error : PhaseKind

unfoldable pub PhaseKind-discrete : Discrete PhaseKind
PhaseKind-discrete = hlevel

abbrev pub kind_of : Phase → PhaseKind
kind_of Phase.idle = PhaseKind.idle
kind_of (Phase.armed gesture) = PhaseKind.armed
kind_of (Phase.listening gesture silent_since) = PhaseKind.listening
kind_of (Phase.processing started_at) = PhaseKind.processing
kind_of Phase.speaking = PhaseKind.speaking
kind_of (Phase.error fault) = PhaseKind.error

-- A call of one of the runtime's dependencies, or of a subscriber.
pub data Call : Type 0 where
  set_visible : Bool → Option ℕ → Call
  project : ChipViewModel → Call
  set_tray : TrayGlyph → Call
  schedule : TimerId → ℕ → Call
  cancel : TimerId → Call
  cancel_all : Call
  set_levels : Bool → LevelSource → Call
  earcon : EarconId → Call
  duck : Bool → Call
  send : VoiceCommand → Call
  transition : PhaseKind → PhaseKind → ℕ → Call
  notify : ℕ → MachineState → Call

-- `state` is the state after the transition.
unfoldable pub perform : MachineState → ℕ → Effect → List Call
perform state now (Effect.window visible hold_ms) = set_visible visible hold_ms ∷ []
perform state now Effect.project =
    project (project_chip state now) ∷ set_tray (project_tray state) ∷ []
perform state now (Effect.schedule id delay_ms) = schedule id delay_ms ∷ []
perform state now (Effect.cancel id) = cancel id ∷ []
perform state now (Effect.levels running source) = set_levels running source ∷ []
perform state now (Effect.earcon sound) = earcon sound ∷ []
perform state now (Effect.duck on) = duck on ∷ []
perform state now (Effect.voice command) = send command ∷ []

unfoldable pub perform_all : MachineState → ℕ → List Effect → List Call
perform_all state now [] = []
perform_all state now (e ∷ es) = perform state now e ++ perform_all state now es

pub record Runtime : Type 0 where
  pub state : MachineState
  pub disposed : Bool
  pub draining : Bool
  pub queue : List MachineInput
  pub subscribers : List ℕ

-- `createSessionRuntime`: one model before anything happens.
unfoldable pub create : MachineEnvironment → ℕ → ℕ → Runtime × List Call
create env started_at now =
    let state = initial env started_at in
    (
      record { state = state; disposed = false; draining = false; queue = []; subscribers = [] },
      Call.project (project_chip state now) ∷ set_tray (project_tray state) ∷ [],
    )

-- One step: reduce, perform, report a change of phase, and tell the subscribers.
unfoldable pub step : Runtime → MachineInput → ℕ → Runtime × List Call
step r input now =
    let next = reduce r.state input now in
    let before = kind_of r.state.phase in
    let now_in = kind_of next.state.phase in
    (
      record r { state = next.state },
      perform_all next.state now next.effects
          ++ (if same PhaseKind-discrete before now_in
              then []
              else Call.transition before now_in now ∷ [])
          ++ map (λ id. notify id next.state) r.subscribers,
    )

-- What the callees dispatch while a step performs its calls, in the order of the calls.
unfoldable pub reactions : (Call → List MachineInput) → List Call → List MachineInput
reactions reacts [] = []
reactions reacts (c ∷ cs) = reacts c ++ reactions reacts cs

abbrev pub stamp : ℕ → List Call → List (ℕ × Call)
stamp now [] = []
stamp now (c ∷ cs) = (now, c) ∷ stamp now cs

module _ (reacts : Call → List MachineInput) (clock : ℕ → ℕ) where
  -- One round of the loop of `dispatch`: a step on the head of the queue, to whose end the inputs
  -- go that are dispatched meanwhile. The k-th step reads the clock as `clock k`.
  unfoldable pub round : ℕ → Runtime → MachineInput → List MachineInput → Runtime × List Call
  round k r next rest =
      let (r', calls) = step (record r { queue = rest }) next (clock k) in
      (record r' { queue = rest ++ reactions reacts calls }, calls)

  abbrev pub logged :
      List (ℕ × Call) → Option (Runtime × List (ℕ × Call)) → Option (Runtime × List (ℕ × Call))
  logged log none = none
  logged log (some (r, rest)) = some (r, log ++ rest)

  -- `none` when the fuel runs out; the log has each call with the time of its step.
  unfoldable pub drain_from :
      ℕ → List MachineInput → Runtime → ℕ → Option (Runtime × List (ℕ × Call))
  drain_from zero queue r k = none
  drain_from (suc fuel) [] r k = some (r, [])
  drain_from (suc fuel) (next ∷ rest) r k =
      let out = round k r next rest in
      let later = drain_from fuel out.0.queue out.0 (suc k) in logged (stamp (clock k) out.1) later

  -- The `finally` block: no longer draining, and an empty queue.
  abbrev pub settle : Option (Runtime × List (ℕ × Call)) → Option (Runtime × List (ℕ × Call))
  settle none = none
  settle (some (r, log)) = some (record r { draining = false; queue = [] }, log)

  unfoldable pub dispatch : ℕ → Runtime → MachineInput → ℕ → Option (Runtime × List (ℕ × Call))
  unfolding drain_from
  dispatch fuel r input k =
      let queue = r.queue ++ input ∷ [] in
      let drained = drain_from fuel queue (record r { queue = queue; draining = true }) k in
      if r.disposed
      then some (r, [])
      else if r.draining
      then some (record r { queue = queue }, [])
      else settle drained

unfoldable pub subscribe : Runtime → ℕ → Runtime
subscribe r id = record r { subscribers = r.subscribers ++ id ∷ [] }

unfoldable pub dispose : Runtime → Runtime × List Call
dispose r =
    if r.disposed
    then (r, [])
    else (record r { disposed = true; subscribers = [] }, cancel_all ∷ [])
