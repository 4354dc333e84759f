-- ===== src/Session/Projection.antt =====
-- session/machine.ts, lines 469 to 665: the chip's view model and the tray glyph, with the types of
-- shared/overlay.ts that they produce. A difference of two times that is compared with a bound is
-- written as a sum on the other side, since `-` on natural numbers stops at 0.
pub mod Laws
use riki.Prelude.{
  ℕ, ◌+◌, ◌-◌, String, Bool, false, List, [], ◌∷◌, Option, some, leb, ltb, if◌then◌else◌,
}
use riki.Session.Types.{Phase, MachineState, elapsed_hint_ms, cancel_hint_ms, enter_ms}

pub data ChipState : Type 0 where
  hidden armed listening processing speaking error muted : ChipState

pub data TrayGlyph : Type 0 where
  idle active muted attention : TrayGlyph

pub data GlyphId : Type 0 where
  dot dot_outline dot_segmented dot_ringed bang slashed : GlyphId

pub data AccentToken : Type 0 where
  listening working speaking error muted : AccentToken

pub data MotionSignature : Type 0 where
  none amplitude sweep envelope double_pulse_then_static : MotionSignature

pub data BarMode : Type 0 where
  none input output sweep static : BarMode

pub data Affordance : Type 0 where
  cancel fix : Affordance

pub data ChipPhase : Type 0 where
  entering settled leaving : ChipPhase

pub record ChipText : Type 0 where
  pub primary : String
  pub hint : Option String
  pub elapsed_ms : Option ℕ

pub record CaptionModel : Type 0 where
  pub you : Option String
  pub riki : Option String

pub record ChipViewModel : Type 0 where
  pub state : ChipState
  pub phase : ChipPhase
  pub glyph : GlyphId
  pub accent : AccentToken
  pub motion : MotionSignature
  pub bars : BarMode
  pub text : Option ChipText
  pub latched : Bool
  pub dimmed : Bool
  pub affordances : List Affordance
  pub captions : Option CaptionModel
  pub revision : ℕ

chip_state_in : Phase → Bool → ChipState
chip_state_in Phase.idle is_muted = if is_muted then ChipState.muted else ChipState.hidden
chip_state_in (Phase.armed gesture) is_muted = ChipState.armed
chip_state_in (Phase.listening gesture silent_since) is_muted = ChipState.listening
chip_state_in (Phase.processing started_at) is_muted = ChipState.processing
chip_state_in Phase.speaking is_muted = ChipState.speaking
chip_state_in (Phase.error fault) is_muted = ChipState.error

unfoldable pub chip_state_of : MachineState → ChipState
unfolding chip_state_in
chip_state_of state = chip_state_in state.phase state.muted

unfoldable pub glyphs : ChipState → GlyphId
glyphs ChipState.hidden = GlyphId.dot_outline
glyphs ChipState.armed = GlyphId.dot_outline
glyphs ChipState.listening = GlyphId.dot
glyphs ChipState.processing = GlyphId.dot_segmented
glyphs ChipState.speaking = GlyphId.dot_ringed
glyphs ChipState.error = GlyphId.bang
glyphs ChipState.muted = GlyphId.slashed

unfoldable pub accents : ChipState → AccentToken
accents ChipState.hidden = AccentToken.muted
accents ChipState.armed = AccentToken.listening
accents ChipState.listening = AccentToken.listening
accents ChipState.processing = AccentToken.working
accents ChipState.speaking = AccentToken.speaking
accents ChipState.error = AccentToken.error
accents ChipState.muted = AccentToken.muted

unfoldable pub motions : ChipState → MotionSignature
motions ChipState.hidden = MotionSignature.none
motions ChipState.armed = MotionSignature.none
motions ChipState.listening = MotionSignature.amplitude
motions ChipState.processing = MotionSignature.sweep
motions ChipState.speaking = MotionSignature.envelope
motions ChipState.error = MotionSignature.double_pulse_then_static
motions ChipState.muted = MotionSignature.none

unfoldable pub bars_of : ChipState → BarMode
bars_of ChipState.hidden = BarMode.none
bars_of ChipState.armed = BarMode.none
bars_of ChipState.listening = BarMode.input
bars_of ChipState.processing = BarMode.sweep
bars_of ChipState.speaking = BarMode.output
bars_of ChipState.error = BarMode.none
bars_of ChipState.muted = BarMode.none

unfoldable pub chip_phase : MachineState → ChipState → ℕ → ChipPhase
chip_phase state ChipState.hidden now = ChipPhase.leaving
chip_phase state _ now =
    if ltb now (state.since + enter_ms) then ChipPhase.entering else ChipPhase.settled

dimmed_in : Phase → ℕ → ℕ → Bool
dimmed_in (Phase.listening gesture (some silent_since)) nudge now = leb (silent_since + nudge) now
dimmed_in _ nudge now = false

unfoldable pub is_dimmed : MachineState → ℕ → Bool
unfolding dimmed_in
is_dimmed state now = dimmed_in state.phase state.env.silence_nudge_ms now

abbrev pub fix_hint : String
fix_hint = "Fix ▸"

text_in : Phase → ℕ → Option ChipText
text_in (Phase.error fault) now = some (record {
  primary = fault.message;
  hint = if fault.persistent then some fix_hint else Option.none;
  elapsed_ms = Option.none;
})
text_in (Phase.processing started_at) now =
    if ltb now (started_at + elapsed_hint_ms)
    then Option.none
    else some (record { primary = ""; hint = Option.none; elapsed_ms = some (now - started_at) })
text_in _ now = Option.none

unfoldable pub chip_text : MachineState → ℕ → Option ChipText
unfolding text_in
chip_text state now = text_in state.phase now

affordances_in : Phase → ℕ → List Affordance
affordances_in (Phase.error fault) now = if fault.persistent then Affordance.fix ∷ [] else []
affordances_in (Phase.processing started_at) now =
    if leb (started_at + cancel_hint_ms) now then Affordance.cancel ∷ [] else []
affordances_in _ now = []

unfoldable pub affordances_of : MachineState → ℕ → List Affordance
unfolding affordances_in
affordances_of state now = affordances_in state.phase now

unfoldable pub project_chip : MachineState → ℕ → ChipViewModel
project_chip state now =
    let chip_state = chip_state_of state in
    record {
      state = chip_state;
      phase = chip_phase state chip_state now;
      glyph = glyphs chip_state;
      accent = accents chip_state;
      motion = motions chip_state;
      bars = bars_of chip_state;
      text = chip_text state now;
      latched = state.latched;
      dimmed = is_dimmed state now;
      affordances = affordances_of state now;
      captions = Option.none;
      revision = state.revision;
    }

tray_in : Phase → TrayGlyph
tray_in Phase.idle = TrayGlyph.idle
tray_in _ = TrayGlyph.active

unfoldable pub project_tray : MachineState → TrayGlyph
unfolding tray_in
project_tray state = elim state.reported [
  | [] ↦ if state.muted then TrayGlyph.muted else tray_in state.phase
  | _ ↦ TrayGlyph.attention
]
