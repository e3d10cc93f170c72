-- ===== src/Booking/Outcomes.antt =====
-- What `Transition` of repo/internal/service/booking.go answers, by the state of the booking.
use task.Base.{
  ℕ, ◌+◌, ◌≤◌, ◌<◌, ◌≡◌, refl, ◌⊎◌, inl, inr, true, false, ◌&&◌, ltb, if◌then◌else◌, Bool-cases,
  some, arith, fetch, fetch-has, change, ◌==◌, ==_refl, ==_iff, not, ◌∙◌,
}
use mathlib.Core.Path.{subst}
use task.Domain.Errors.{Result, ok, err, cutoff, forbidden, invalid_transition}
use task.Domain.Status.{
  BookingStatus, pending_confirmation, waitlisted, checked_in, canceled, status_eq, can_transition,
  is_active,
}
use task.Domain.Models.{Booking}
use task.Booking.Table.{Db, update_status}
use task.Booking.Service.{
  BookingService, Faults, Call, bookings_get, transition, promotes, locked_by_cutoff,
}
use task.Booking.Seats.{booking_key, with_status}

promotes_not_canceled : (from : BookingStatus) → promotes from canceled ≡ false
unfolding status_eq
promotes_not_canceled from = ground arith

cancelable : (from : BookingStatus) → is_active from ≡ true → can_transition from canceled ≡ true
unfolding is_active can_transition
cancelable pending_confirmation h = refl
cancelable waitlisted h = refl
cancelable checked_in h = refl
cancelable _ h = ground arith

checkable :
    (from : BookingStatus)
    → can_transition from checked_in ≡ true
    → promotes from checked_in ≡ false
unfolding can_transition status_eq
checkable from h = ground arith

locks_canceled : locked_by_cutoff canceled ≡ true
unfolding status_eq
locks_canceled = refl

check_in_from :
    (from : BookingStatus) → can_transition from checked_in ≡ status_eq from pending_confirmation
unfolding can_transition status_eq
check_in_from pending_confirmation = refl
check_in_from _ = refl

check_in_unlocked : locked_by_cutoff checked_in ≡ false
unfolding status_eq
check_in_unlocked = refl

late_or_early :
    (now start_time window : ℕ)
    → (ltb now start_time && ltb start_time (now + window)) ≡ false
    → (start_time ≤ now) ⊎ (now + window ≤ start_time)
late_or_early now start_time window h = elim (Bool-cases (ltb now start_time)) [
  | inl later ↦ inr (ground arith)
  | inr sooner ↦ inl (ground arith)
]

module _ (s : BookingService) (down : Faults) (now stamp id : ℕ) (db : Db) {b : Booking}
    (old : fetch booking_key id db.bookings ≡ some b) (up : (c : Call) → down c ≡ false) where
  -- Nobody but the owner moves a booking, whatever the target.
  stranger_refused :
      (actor : ℕ) (target : BookingStatus)
      → (b.user_id == actor) ≡ false
      → transition s down now stamp actor id target db ≡ err forbidden
  unfolding transition
  stranger_refused actor target h = ground (arith, up bookings_get, old)

  -- The owner of an active booking can cancel it at any time but in the cutoff window before its
  -- start; the one row gets the new status.
  cancel_succeeds :
      is_active b.status ≡ true
      → (b.start_time ≤ now) ⊎ (now + s.policy.change_cutoff ≤ b.start_time)
      → transition s down now stamp b.user_id id canceled db
        ≡ ok (
          with_status canceled now b,
          record db { bookings = change booking_key id (with_status canceled stamp) db.bookings },
        )
  unfolding transition update_status
  cancel_succeeds active outside = ground (
    arith,
    up bookings_get,
    up Call.update,
    old,
    fetch-has booking_key id db.bookings {a = b} old,
    ==_refl b.user_id,
    promotes_not_canceled b.status,
    cancelable b.status active,
  )

  -- In the cutoff window before the start the owner's cancellation is refused.
  cancel_in_cutoff :
      is_active b.status ≡ true
      → now < b.start_time
      → b.start_time < now + s.policy.change_cutoff
      → transition s down now stamp b.user_id id canceled db ≡ err cutoff
  unfolding transition
  cancel_in_cutoff active early late =
      ground
        (arith, up bookings_get, old, ==_refl b.user_id, cancelable b.status active, locks_canceled)

  -- The owner's cancellation of an active booking is refused for the cutoff exactly in the window before
  -- the start, which is shorter than the cutoff and ends at the start; at any other time it succeeds, and
  -- the one row gets the new status. No call of the database fails.
  pub cancel_outcome :
      is_active b.status ≡ true
      → transition s down now stamp b.user_id id canceled db ≡ (
          if ltb now b.start_time && ltb b.start_time (now + s.policy.change_cutoff)
          then err cutoff
          else ok (
            with_status canceled now b,
            record db { bookings = change booking_key id (with_status canceled stamp) db.bookings },
          ))
  cancel_outcome active =
      elim (Bool-cases (ltb now b.start_time && ltb b.start_time (now + s.policy.change_cutoff))) [
        | inl inside ↦ rw inside (cancel_in_cutoff active (ground arith) (ground arith))
        | inr outside ↦
            rw outside (
              cancel_succeeds active
                (late_or_early now b.start_time s.policy.change_cutoff outside))
      ]

  abbrev checked : Result (Booking × Db)
  checked = ok (
    with_status checked_in now b,
    record db { bookings = change booking_key id (with_status checked_in stamp) db.bookings },
  )

  check_in_succeeds :
      can_transition b.status checked_in ≡ true
      → transition s down now stamp b.user_id id checked_in db
        ≡ ok (
          with_status checked_in now b,
          record db { bookings = change booking_key id (with_status checked_in stamp) db.bookings },
        )
  unfolding transition update_status
  check_in_succeeds permitted = ground (
    arith,
    up bookings_get,
    up Call.update,
    old,
    fetch-has booking_key id db.bookings {a = b} old,
    ==_refl b.user_id,
    checkable b.status permitted,
    check_in_unlocked,
  )

  check_in_refused :
      can_transition b.status checked_in ≡ false
      → transition s down now stamp b.user_id id checked_in db ≡ err invalid_transition
  unfolding transition
  check_in_refused stuck = ground (arith, up bookings_get, old, ==_refl b.user_id)

  -- When no call of the database fails, a check-in of a booking that exists is refused as forbidden
  -- for anyone but its owner, is refused as an invalid transition if the booking is in any status but
  -- pending_confirmation, and else succeeds, at whatever time it comes, in the cutoff window before the
  -- start too: the one row gets the new status.
  pub check_in_outcome :
      (actor : ℕ)
      → transition s down now stamp actor id checked_in db ≡ (
          if not (b.user_id == actor)
          then err forbidden
          else if not (status_eq b.status pending_confirmation)
          then err invalid_transition
          else ok (
            with_status checked_in now b,
            record db {
              bookings = change booking_key id (with_status checked_in stamp) db.bookings;
            },
          ))
  check_in_outcome actor = elim (Bool-cases (b.user_id == actor)) [
    | inr other ↦ rw other (stranger_refused actor checked_in other)
    | inl own ↦ elim (Bool-cases (status_eq b.status pending_confirmation)) [
      | inl waiting ↦
          rw (own, waiting)
            (subst (λ who. transition s down now stamp who id checked_in db ≡ checked)
              ((==_iff b.user_id actor).0 own)
              (check_in_succeeds (check_in_from b.status ∙ waiting)))
      | inr past ↦
          rw (own, past)
            (subst
              (λ who. transition s down now stamp who id checked_in db ≡ err invalid_transition)
              ((==_iff b.user_id actor).0 own) (check_in_refused (check_in_from b.status ∙ past)))
    ]
  ]
