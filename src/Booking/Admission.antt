-- ===== src/Booking/Admission.antt =====
-- What `Create` of repo/internal/service/booking.go has checked when it reaches the INSERT.
use task.Base.{
  [], ◌∷◌, ◌++◌, ◌∙◌, refl, true, any, any-some, find_first, ltb, Option-cases, ◌==◌, ℕ, ◌+◌, ◌≤◌,
  ◌<◌, ◌≡◌, false, arith, inl, inr, none,
}
use task.Base.Int.{or_one}
use task.Domain.Errors.{ok, Result-cases}
use task.Domain.Models.{User, Resource, Booking, validate_booking, nil_id}
use task.Booking.Table.{
  Db, get_user, get_resource, known_group, has_window, is_storable, stamped, insert_booking,
  count_active_by_user_on_date, user_has_overlap, sum_active_party_sizes_in_window,
}
use task.Booking.Service.{
  BookingService, Faults, CreateInput, admit_booking, initial_status, encrypt_notes,
}

-- The gates that a booking has passed, and the row that it becomes.
pub record Admitted (s : BookingService) (now : ℕ) (input : CreateInput) (db : Db) (b : Booking)
    : Type 0 where
  pub user : User
  pub known_user : get_user input.user_id db ≡ ok user
  pub welcome : user.is_blacklisted ≡ false
  pub resource : Resource
  pub known_resource : get_resource input.resource_id db ≡ ok resource
  pub owner : b.user_id ≡ input.user_id
  pub place : b.resource_id ≡ input.resource_id
  pub starts : b.start_time ≡ input.start_time
  pub ends : b.end_time ≡ input.end_time
  pub forward : b.start_time < b.end_time
  pub party : b.party_size ≡ or_one input.party_size
  pub party_fits : b.party_size ≤ resource.capacity
  pub lead : now + s.policy.min_lead_time ≤ b.start_time
  pub under_limit :
      count_active_by_user_on_date b.user_id b.start_time db.bookings < s.policy.max_active_per_day
  pub free : user_has_overlap b.user_id b.start_time b.end_time none db.bookings ≡ false
  pub status :
      b.status
      ≡ initial_status resource.capacity
          (sum_active_party_sizes_in_window b.resource_id b.start_time b.end_time db.bookings)
          b.party_size

pub admit-Admitted :
    (s : BookingService) (down : Faults) (now : ℕ) (input : CreateInput) (db : Db) {b : Booking}
    → admit_booking s down now input db ≡ ok b
    → Admitted s now input db b
unfolding admit_booking validate_booking
admit-Admitted s down now input db h = elim (Result-cases (get_user input.user_id db)) [
  | inr (e, eq) ↦ absurd (ground arith)
  | inl (user, known_user) ↦ elim (Result-cases (get_resource input.resource_id db)) [
    | inr (e, eq) ↦ absurd (ground arith)
    | inl (resource, known_resource) ↦ record {
      user = user;
      known_user = known_user;
      resource = resource;
      known_resource = known_resource;
      welcome = ground arith;
      owner = ground arith;
      place = ground arith;
      starts = ground arith;
      ends = ground arith;
      forward = ground arith;
      party = ground arith;
      party_fits = ground arith;
      lead = ground arith;
      under_limit = ground arith;
      free = ground arith;
      status = ground arith;
    }
  ]
]

-- What an admitted booking refers to is in the tables.
pub record Refers (input : CreateInput) (db : Db) (b : Booking) : Type 0 where
  pub fresh : b.id ≡ nil_id
  pub user : any (λ (u : User). u.id == b.user_id) db.users ≡ true
  pub resource : any (λ (r : Resource). r.id == b.resource_id) db.resources ≡ true
  pub group : b.group_id ≡ input.group_id
  pub forward : ltb b.start_time b.end_time ≡ true
  pub starts : b.start_time ≡ input.start_time
  pub ends : b.end_time ≡ input.end_time
  pub notes : b.notes ≡ input.notes

pub admit_booking-Refers :
    (s : BookingService) (down : Faults) (now : ℕ) (input : CreateInput) (db : Db) (b : Booking)
    → admit_booking s down now input db ≡ ok b
    → Refers input db b
unfolding admit_booking
admit_booking-Refers s down now input db b h =
    elim (Option-cases (find_first (λ (u : User). u.id == input.user_id) db.users)) [
      | inl gone ↦ absurd (ground arith)
      | inr (user, known_user) ↦
          elim (Option-cases
            (find_first (λ (r : Resource). r.id == input.resource_id) db.resources)) [
              | inl gone ↦ absurd (ground arith)
              | inr (resource, known_resource) ↦
                  elim (Result-cases (encrypt_notes s.encrypter input.secure_notes)) [
                    | inr (e, eq) ↦ absurd (ground arith)
                    | inl (blob, eq) ↦ record {
                      fresh = ground arith;
                      user = ground (
                        arith,
                        any-some (λ (u : User). u.id == input.user_id) db.users known_user,
                      );
                      resource = ground (
                        arith,
                        any-some (λ (r : Resource). r.id == input.resource_id) db.resources
                            known_resource,
                      );
                      group = ground arith;
                      forward = ground arith;
                      starts = ground arith;
                      ends = ground arith;
                      notes = ground arith;
                    }
                  ]
            ]
    ]

-- What the INSERT asks of an input beside what `Create` has checked: the group is known, the notes can
-- be stored, and a window that is not empty is not empty in microseconds.
pub record Acceptable (input : CreateInput) (db : Db) : Type 0 where
  pub group : known_group input.group_id db.groups ≡ true
  pub window : has_window input.start_time input.end_time ≡ ltb input.start_time input.end_time
  pub text : is_storable input.notes ≡ true

-- An admitted booking is inserted under an unused identifier.
pub insert_admitted :
    (new_id stamp : ℕ) (input : CreateInput) (db : Db) (b : Booking)
    → Refers input db b
    → any (λ (c : Booking). c.id == new_id) db.bookings ≡ false
    → Acceptable input db
    → insert_booking new_id stamp b db
      ≡ ok (
        stamped new_id stamp b,
        record db { bookings = db.bookings ++ stamped new_id stamp b ∷ [] },
      )
unfolding insert_booking stamped
insert_admitted new_id stamp input db b r free fine =
    let window : has_window b.start_time b.end_time ≡ true =
      rw (r.starts, r.ends) (fine.window ∙ rw (← r.starts, ← r.ends) r.forward) in
    let text : is_storable b.notes ≡ true = rw r.notes fine.text in
    rw (r.fresh, free, r.user, r.resource, r.group, fine.group, window, text) refl
