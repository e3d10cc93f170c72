-- ===== src/Domain/Status/Machine.antt =====
-- Paths through the state machine of repo/internal/domain/state.go.
use task.Base.{◌≡◌, refl, ◌≢◌, ◌⊎◌, inl, inr, true, not, none, arith, any, List, [], ◌∷◌}
use task.Domain.Status.{
  BookingStatus, pending_confirmation, waitlisted, checked_in, completed, canceled, other,
  is_active, is_terminal, allowed_transitions, can_transition, status_eq,
}

-- A sequence of transitions that `CanTransition` permits, the first one first.
pub data Trail : BookingStatus → BookingStatus → Type 0 where
  stay : {s : BookingStatus} → Trail s s
  move : {s t u : BookingStatus} → can_transition s t ≡ true → Trail t u → Trail s u

terminal_stuck : (s t : BookingStatus) → is_terminal s ≡ true → can_transition s t ≢ true
unfolding is_terminal can_transition
terminal_stuck completed t h = ground arith
terminal_stuck canceled t h = ground arith
terminal_stuck _ t h = ground arith

-- From a terminal status no sequence of transitions leads anywhere else.
Trail-terminal : {s t : BookingStatus} → is_terminal s ≡ true → Trail s t → t ≡ s
Trail-terminal h stay = refl
Trail-terminal {s} h (move {t} step rest) = absurd (terminal_stuck s t h step)

into_completed : (s t : BookingStatus) → can_transition s t ≡ true → t ≡ completed → s ≡ checked_in
unfolding can_transition
into_completed s pending_confirmation h e = ground arith
into_completed pending_confirmation completed h e = ground arith
into_completed waitlisted completed h e = ground arith
into_completed checked_in completed h e = refl
into_completed completed completed h e = ground arith
into_completed canceled completed h e = ground arith
into_completed (other n) completed h e = ground arith
into_completed s _ h e = ground arith

completed_cases : (s : BookingStatus) → (s ≡ completed) ⊎ (s ≢ completed)
completed_cases completed = inl refl
completed_cases _ = inr (λ e. cc)

-- The statuses that a sequence of transitions goes through, its first and last ones included.
pub visited : {s t : BookingStatus} → Trail s t → List BookingStatus
visited {s} stay = s ∷ []
visited {s} (move step rest) = s ∷ visited rest

first_visited :
    {s t : BookingStatus} (trail : Trail s t)
    → s ≡ checked_in
    → any (status_eq checked_in) (visited trail) ≡ true
unfolding visited status_eq
first_visited stay e = rw e refl
first_visited (move step rest) e = rw e refl

later_visited :
    (s : BookingStatus) {m t : BookingStatus} (rest : Trail m t)
    → any (status_eq checked_in) (visited rest) ≡ true
    → any (status_eq checked_in) (s ∷ visited rest) ≡ true
later_visited s rest h = ground (arith, h)

-- Every sequence of transitions that ends in completed and does not begin there goes through
-- checked_in.
pub completed_after_check_in :
    {s t : BookingStatus} (trail : Trail s t)
    → t ≡ completed
    → s ≢ completed
    → any (status_eq checked_in) (visited trail) ≡ true
unfolding visited
completed_after_check_in stay e ne = absurd (ne e)
completed_after_check_in {s} (move {t = m} step rest) e ne = elim (completed_cases m) [
  | inl done ↦ first_visited (move step rest) (into_completed s m step done)
  | inr more ↦ later_visited s rest (completed_after_check_in rest e more)
]

-- A status that the state machine knows is active exactly when it may still be canceled, and
-- terminal exactly when it is not active.
active_or_terminal :
    (s : BookingStatus)
    → allowed_transitions s ≢ none
    → (is_active s ≡ can_transition s canceled) × (is_terminal s ≡ not (is_active s))
unfolding is_active is_terminal can_transition
active_or_terminal pending_confirmation h = (refl, refl)
active_or_terminal (other n) h = absurd (h refl)
active_or_terminal _ h = (refl, refl)
