-- ===== src/Sources/Supervisor/Delays.antt =====
-- The backoff of supervisor.ts.
use riki.Prelude.{
  ℕ, zero, suc, ◌-◌, ◌≡◌, refl, ap, ◌∙◌, List, [], ◌∷◌, ◌++◌, min, arith, length, length-append,
}
use riki.Sources.Supervisor.{RestartPolicy, get_or_zero, delay_for}

-- The elements of a list one after another, and then `final` for ever.
abbrev pub then_hold : List ℕ → ℕ → ℕ → ℕ
then_hold [] final i = final
then_hold (x ∷ xs) final zero = x
then_hold (x ∷ xs) final (suc i) = then_hold xs final i

get_last :
    (xs : List ℕ) (final i : ℕ)
    → get_or_zero (xs ++ final ∷ []) (min i (length xs)) ≡ then_hold xs final i
get_last [] final i = let first : min i 0 ≡ 0 = omega arith in ap (get_or_zero (final ∷ [])) first
get_last (x ∷ xs) final zero =
    let first : min 0 (suc (length xs)) ≡ 0 = omega arith in
    ap (get_or_zero (x ∷ xs ++ final ∷ [])) first
get_last (x ∷ xs) final (suc i) =
    let shorter : min (suc i) (suc (length xs)) ≡ suc (min i (length xs)) = omega arith in
    ap (get_or_zero (x ∷ xs ++ final ∷ [])) shorter ∙ get_last xs final i

-- A backoff that is not empty is walked and then held at its last entry, however many restarts
-- came before; an empty one makes no delay.
pub delay_for-holds :
    (policy : RestartPolicy) (xs : List ℕ) (final attempt : ℕ)
    → (delay_for (record policy { backoff_ms = xs ++ final ∷ [] }) attempt
        ≡ then_hold xs final attempt)
      × (delay_for (record policy { backoff_ms = [] }) attempt ≡ 0)
unfolding delay_for
delay_for-holds policy xs final attempt =
    let long : length (xs ++ final ∷ []) ≡ suc (length xs) =
      length-append xs (final ∷ []) ∙ omega arith in
    let short : length (xs ++ final ∷ []) - 1 ≡ length xs = omega (arith, long) in
    let walked = get_last xs final attempt in
    let index = ap (λ n. get_or_zero (xs ++ final ∷ []) (min attempt n)) short in
    (ground (arith, long, walked, index), refl)
