-- ===== src/Session/Invariant/Fields.antt =====
-- What `enter` does to the fields of a draft.
use riki.Prelude.{
  ℕ, ◌≡◌, refl, ap, sym, ◌∙◌, Bool, true, false, not, ◌&&◌, List, [], ◌∷◌, arith, filter, any,
  same_self, if◌then◌else◌,
}
use riki.Session.Types.{TimerId, TimerId-discrete, PendingTimer, Phase}
use riki.Session.Draft.{Draft, has_id, without, schedule, cancel, includes, cancel_unkept, enter}

filter-filter {ℓ} :
    {A : Type ℓ} (p q : A → Bool) (xs : List A)
    → filter p (filter q xs) ≡ filter (λ x. q x && p x) xs
filter-filter p q [] = refl
filter-filter p q (x ∷ xs) = ground (arith, filter-filter p q xs)

filter_all {ℓ} : {A : Type ℓ} (xs : List A) → filter (λ _. true) xs ≡ xs
filter_all [] = refl
filter_all (x ∷ xs) = ap (λ r. x ∷ r) (filter_all xs)

without-absent :
    (id : TimerId) (ts : List PendingTimer) → any (has_id id) ts ≡ false → without id ts ≡ ts
without-absent id [] h = refl
without-absent id (t ∷ ts) h = ground (arith, without-absent id ts)

pub pending-cancel : (d : Draft) (id : TimerId) → (cancel d id).pending ≡ without id d.pending
unfolding cancel
pending-cancel d id = ground (arith, without-absent id d.pending)

without_all : List PendingTimer → List PendingTimer → List PendingTimer
without_all [] pending = pending
without_all (t ∷ ts) pending = without_all ts (without t.id pending)

pending-cancel_unkept :
    (d : Draft) (ts : List PendingTimer)
    → (cancel_unkept d [] ts).pending ≡ without_all ts d.pending
unfolding cancel_unkept without_all
pending-cancel_unkept d [] = refl
pending-cancel_unkept d (t ∷ ts) =
    pending-cancel_unkept (cancel d t.id) ts ∙ ap (without_all ts) (pending-cancel d t.id)

without_all-filter :
    (ts : List PendingTimer) (q : PendingTimer → Bool) → without_all ts (filter q ts) ≡ []
unfolding without_all
without_all-filter [] q = refl
without_all-filter (t ∷ ts) q =
    ap (without_all ts) (
      ground
        (arith, same_self TimerId-discrete t.id, filter-filter (λ u. not (has_id t.id u)) q ts))
    ∙ without_all-filter ts (λ u. q u && not (has_id t.id u))

-- What `cancel_unkept` leaves alone.
pub record Unmoved (d e : Draft) : Type 0 where
  pub phase_same : e.phase ≡ d.phase
  pub muted_same : e.muted ≡ d.muted
  pub latched_same : e.latched ≡ d.latched
  pub reported_same : e.reported ≡ d.reported
  pub env_same : e.env ≡ d.env

pub cancel-Unmoved : (d : Draft) (id : TimerId) → Unmoved d (cancel d id)
unfolding cancel
cancel-Unmoved d id = ground arith

pub schedule-Unmoved : (d : Draft) (id : TimerId) (ms now : ℕ) → Unmoved d (schedule d id ms now)
unfolding schedule
schedule-Unmoved d id ms now = ground arith

cancel_unkept-Unmoved :
    (d : Draft) (keep : List TimerId) (ts : List PendingTimer) → Unmoved d (cancel_unkept d keep ts)
unfolding cancel_unkept cancel
cancel_unkept-Unmoved d keep [] = ground arith
cancel_unkept-Unmoved d keep (t ∷ ts) =
    ground (arith, cancel_unkept-Unmoved (if includes keep t.id then d else cancel d t.id) keep ts)

-- `enter` moves to the phase, and leaves the settings alone.
pub record Entered (d : Draft) (next : Phase) (now : ℕ) (e : Draft) : Type 0 where
  pub phase_now : e.phase ≡ next
  pub since_now : e.since ≡ now
  pub muted_same : e.muted ≡ d.muted
  pub latched_same : e.latched ≡ d.latched
  pub reported_same : e.reported ≡ d.reported
  pub env_same : e.env ≡ d.env

pub enter-Entered :
    (d : Draft) (next : Phase) (now : ℕ) (keep : List TimerId)
    → Entered d next now (enter d next now keep)
unfolding enter
enter-Entered d next now keep = ground (arith, cancel_unkept-Unmoved d keep d.pending)

pending-enter_unkept :
    (d : Draft) (next : Phase) (now : ℕ) (keep : List TimerId)
    → (enter d next now keep).pending ≡ (cancel_unkept d keep d.pending).pending
unfolding enter
pending-enter_unkept d next now keep = ground arith

-- With nothing to keep, every pending timer is cancelled.
pub pending-enter : (d : Draft) (next : Phase) (now : ℕ) → (enter d next now []).pending ≡ []
pending-enter d next now =
    pending-enter_unkept d next now []
    ∙ pending-cancel_unkept d d.pending
    ∙ ap (without_all d.pending) (sym (filter_all d.pending))
    ∙ without_all-filter d.pending (λ _. true)

-- A single pending timer that is to be kept stays.
pub pending-enter_kept :
    (d : Draft) (next : Phase) (now : ℕ) (keep : List TimerId) (t : PendingTimer)
    → d.pending ≡ t ∷ []
    → includes keep t.id ≡ true
    → (enter d next now keep).pending ≡ t ∷ []
unfolding cancel_unkept
pending-enter_kept d next now keep t one kept =
    pending-enter_unkept d next now keep
    ∙ ap (λ ts. (cancel_unkept d keep ts).pending) one
    ∙ ground arith
