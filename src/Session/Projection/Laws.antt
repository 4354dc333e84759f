-- ===== src/Session/Projection/Laws.antt =====
-- The projections of session/machine.ts: lemmas on `projectChip` and `projectTray`.
use riki.Prelude.{ℕ, ◌+◌, ◌≤◌, ◌<◌, ◌≡◌, ◌↔◌, Bool, true, false, List, [], ◌∷◌, some, none, arith}
use riki.Session.Types.{Phase, MachineState, processing}
use riki.Session.Projection.{
  ChipState, TrayGlyph, chip_state_of, glyphs, motions, accents, bars_of, project_chip,
  project_tray, chip_phase, ChipPhase, chip_text, affordances_of, Affordance,
}
use riki.Session.Surface.{visible_of}

-- Two states whose chips are both visible and have the same glyph have the same chip state, and so
-- the same accent, motion and bars: the glyph alone tells the visible states apart.
pub glyph_tells :
    (s t : MachineState) (now later : ℕ)
    → visible_of s.phase s.muted ≡ true
    → visible_of t.phase t.muted ≡ true
    → (project_chip s now).glyph ≡ (project_chip t later).glyph
    → ((project_chip s now).state ≡ (project_chip t later).state)
      × ((project_chip s now).motion ≡ (project_chip t later).motion)
      × ((project_chip s now).accent ≡ (project_chip t later).accent)
      × ((project_chip s now).bars ≡ (project_chip t later).bars)
unfolding project_chip chip_state_of glyphs motions accents bars_of
glyph_tells s t now later v w g = ground arith

-- The chip is hidden, and leaving, exactly when the window is to be invisible: in Idle, not muted.
pub hidden_iff_invisible :
    (s : MachineState) (now : ℕ)
    → (((project_chip s now).state ≡ ChipState.hidden) ↔ (visible_of s.phase s.muted ≡ false))
      × (((project_chip s now).phase ≡ ChipPhase.leaving) ↔ (visible_of s.phase s.muted ≡ false))
unfolding project_chip chip_state_of chip_phase
hidden_iff_invisible s now = ground arith

abbrev pub is_empty {ℓ} : {A : Type ℓ} → List A → Bool
is_empty [] = true
is_empty (x ∷ xs) = false

-- The tray asks for attention exactly while some fault is reported, in every phase and also muted;
-- it shows muted exactly if the machine is muted and nothing is reported, and idle exactly if
-- nothing is reported and the machine is in Idle and not muted.
pub tray_attention :
    (s : MachineState)
    → ((project_tray s ≡ TrayGlyph.attention) ↔ (is_empty s.reported ≡ false))
      × ((project_tray s ≡ TrayGlyph.muted) ↔ ((is_empty s.reported ≡ true) × (s.muted ≡ true)))
      × ((project_tray s ≡ TrayGlyph.idle)
          ↔ ((is_empty s.reported ≡ true) × (s.muted ≡ false) × (s.phase ≡ Phase.idle)))
unfolding project_tray
tray_attention s = ground arith

-- In Processing the chip has no text for 2.5 s; from then on it shows the time since the phase was
-- entered; and the way to cancel is offered exactly from 10 s on.
pub processing_hints :
    (s : MachineState) (started now d : ℕ)
    → s.phase ≡ processing started
    → ((chip_text s now ≡ none) ↔ (now < started + 2_500))
      × (chip_text s (started + 2_500 + d)
          ≡ some (record { primary = ""; hint = none; elapsed_ms = some (2_500 + d) }))
      × ((affordances_of s now ≡ Affordance.cancel ∷ []) ↔ (started + 10_000 ≤ now))
unfolding chip_text affordances_of
processing_hints s started now d e = (ground arith, ground arith, ground arith)
