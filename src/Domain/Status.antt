-- ===== src/Domain/Status.antt =====
-- The booking state machine: repo/internal/domain/state.go and the statuses of models.go.
pub mod Machine
use task.Base.{Bool, true, false, ◌||◌, Option, none, some, List, [], ◌∷◌, any, String, str_eq}

-- `BookingStatus` is a string in the source, and a request may name any: `other` is one that is
-- none of the five constants.
pub data BookingStatus : Type 0 where
  pending_confirmation waitlisted checked_in completed canceled : BookingStatus
  other : String → BookingStatus

-- `==` on the strings.
unfoldable pub status_eq : BookingStatus → BookingStatus → Bool
status_eq pending_confirmation pending_confirmation = true
status_eq waitlisted waitlisted = true
status_eq checked_in checked_in = true
status_eq completed completed = true
status_eq canceled canceled = true
status_eq (other s) (other t) = str_eq s t
status_eq _ _ = false

unfoldable pub is_active : BookingStatus → Bool
is_active pending_confirmation = true
is_active waitlisted = true
is_active checked_in = true
is_active _ = false

unfoldable pub is_terminal : BookingStatus → Bool
unfolding status_eq
is_terminal s = status_eq s completed || status_eq s canceled

-- The map of maps: `none` is a missing key.
unfoldable pub allowed_transitions : BookingStatus → Option (List BookingStatus)
allowed_transitions pending_confirmation = some (waitlisted ∷ checked_in ∷ canceled ∷ [])
allowed_transitions waitlisted = some (pending_confirmation ∷ canceled ∷ [])
allowed_transitions checked_in = some (completed ∷ canceled ∷ [])
allowed_transitions completed = some []
allowed_transitions canceled = some []
allowed_transitions (other s) = none

unfoldable pub can_transition : BookingStatus → BookingStatus → Bool
unfolding allowed_transitions status_eq
can_transition from to = elim (allowed_transitions from) [
  | none ↦ false
  | some dests ↦ any (status_eq to) dests
]

-- The order in which Go walks the map is not fixed: any order of this list may come back.
unfoldable pub allowed_next : BookingStatus → List BookingStatus
unfolding allowed_transitions
allowed_next from = elim (allowed_transitions from) [ none ↦ [] | some dests ↦ dests ]
