-- ===== src/Sources/Tailer/Lines.antt =====
-- Splitting a text, whole or in chunks.
use riki.Prelude.{
  ℕ, ◌≡◌, inl, inr, refl, ◌∙◌, ap, sym, true, false, List, [], ◌∷◌, ◌++◌, ◌==◌, Bool-cases,
}
use riki.Sources.Tailer.{Text, newline, glue, split}

abbrev pub join : List Text → List Text × Text → List Text × Text
join lines (more, rest) = (lines ++ more, rest)

at_newline :
    (c : ℕ) (cs : Text) → (c == newline) ≡ true → split (c ∷ cs) ≡ ([] ∷ (split cs).0, (split cs).1)
unfolding split
at_newline c cs t = rw (split, t) refl

at_other : (c : ℕ) (cs : Text) → (c == newline) ≡ false → split (c ∷ cs) ≡ glue c (split cs)
unfolding split
at_other c cs t = rw (split, t) refl

glue-join :
    (c : ℕ) (b : Text) (parts : List Text × Text)
    → (c == newline) ≡ false
    → glue c (join parts.0 (split (parts.1 ++ b)))
      ≡ join (glue c parts).0 (split ((glue c parts).1 ++ b))
glue-join c b ([], rest) t = sym (at_other c (rest ++ b) t)
glue-join c b (line ∷ lines, rest) t = refl

-- The parts of a text, and what is left of it, are those of its beginning, and then those of what was
-- left of the beginning with the rest of the text.
pub split-append : (a b : Text) → split (a ++ b) ≡ join (split a).0 (split ((split a).1 ++ b))
unfolding split
split-append [] b = refl
split-append (c ∷ a) b = elim (Bool-cases (c == newline)) [
  | inl t ↦
      at_newline c (a ++ b) t
      ∙ ap (λ p. ([] ∷ p.0, p.1)) (split-append a b)
      ∙ ap (λ p. join p.0 (split (p.1 ++ b))) (sym (at_newline c a t))
  | inr t ↦
      at_other c (a ++ b) t
      ∙ ap (glue c) (split-append a b)
      ∙ glue-join c b (split a) t
      ∙ ap (λ p. join p.0 (split (p.1 ++ b))) (sym (at_other c a t))
]
