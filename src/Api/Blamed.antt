-- ===== src/Api/Blamed.antt =====
-- Which errors Create of repo/internal/service/booking.go can meet when nothing around it fails.
use task.Base.{
  ℕ, ◌+◌, ◌≡◌, ◌≢◌, refl, inl, inr, Bool, true, false, not, ◌||◌, Option, none, some, [], String,
  Bool-cases, Option-cases, any, find_first, str_eq, ◌==◌, ltb, leb,
}
use task.Base.Int.{or_one}
use task.Domain.Errors.{
  Error, ok, not_found, blacklisted, invalid_input, capacity_exceed, lead_time, daily_limit,
  overlap, query, found, ◌>>◌,
}
use task.Domain.Models.{User, Booking, Resource, validate_booking}
use task.Booking.Table.{
  Db, get_user, get_resource, insert_booking, count_active_by_user_on_date, user_has_overlap,
  sum_active_party_sizes_in_window,
}
use task.Booking.Service.{
  BookingService, NotesEncrypter, Call, users_get, resources_get, count_active, user_overlap,
  sum_active, create as create_call, Faults, CreateInput, encrypt_notes, admit_booking,
  create_booking,
}
use task.Booking.Admission.{Refers, admit_booking-Refers, Acceptable, insert_admitted}
use task.Api.Refusals.{write_service_error}
use task.Api.Spared.{Spared, bind-Spared, ok-Spared, err-Spared, guard-Spared, query-Spared}
use task.Api.Bookings.{Meets}

-- The client is to blame: 400, 403, 404 or 409.
abbrev pub is_client_error : ℕ → Bool
is_client_error n = n == 400 || n == 403 || n == 404 || n == 409

abbrev pub Blames : Error → Type 0
Blames e = is_client_error (write_service_error e) ≡ true

found-Spared : {A : Type 0} (row : Option A) → Spared Blames (found row)
unfolding write_service_error
found-Spared none = err-Spared not_found refl
found-Spared (some a) = ok-Spared a

read-Spared :
    {A : Type 0} (b : Bool) (row : Option A) → b ≡ false → Spared Blames (query b tt >> found row)
read-Spared true row h = absurd (cc)
read-Spared false row h = found-Spared row

-- A cipher that never fails.
abbrev pub Ciphers : NotesEncrypter → Type 0
Ciphers e = (text : String) → e.encrypt text ≢ none

encrypt_notes-Spared :
    (e : NotesEncrypter) (text : String) → Ciphers e → Spared Blames (encrypt_notes (some e) text)
unfolding encrypt_notes
encrypt_notes-Spared e text c = elim (Bool-cases (str_eq text "")) [
  | inl empty ↦ rw empty (ok-Spared [])
  | inr given ↦ elim (Option-cases (e.encrypt text)) [
    | inl failed ↦ absurd (c text failed)
    | inr (blob, eq) ↦ rw (given, eq) (ok-Spared blob)
  ]
]

validate_booking-Spared : (b : Booking) → Spared Blames (validate_booking b)
unfolding validate_booking write_service_error
validate_booking-Spared b = search (ok-Spared, guard-Spared)

checked : (b : Booking) → Spared Blames (validate_booking b >> ok b)
checked b = bind-Spared (validate_booking b) _ (validate_booking-Spared b) λ _ _. ok-Spared b

admit_booking-Spared :
    (s : BookingService) (down : Faults) (now : ℕ) (input : CreateInput) (db : Db)
    {e : NotesEncrypter}
    → ((c : Call) → down c ≡ false)
    → s.encrypter ≡ some e
    → Ciphers e
    → Spared Blames (admit_booking s down now input db)
unfolding admit_booking write_service_error
admit_booking-Spared s down now input db {e} up with_e c =
    bind-Spared (query (down users_get) tt >> get_user input.user_id db) _
      (read-Spared _ (find_first (λ (u : User). u.id == input.user_id) db.users) (up users_get))
      λ user _. guard-Spared user.is_blacklisted blacklisted _ refl (
        bind-Spared (query (down resources_get) tt >> get_resource input.resource_id db) _
          (read-Spared _ (find_first (λ (r : Resource). r.id == input.resource_id) db.resources)
            (up resources_get))
          λ resource _.
            guard-Spared (not (ltb input.start_time input.end_time)) invalid_input _ refl (
              guard-Spared (ltb resource.capacity (or_one input.party_size)) capacity_exceed _ refl
                (guard-Spared (ltb input.start_time (now + s.policy.min_lead_time)) lead_time _ refl
                  (bind-Spared
                    (query (down count_active)
                      (count_active_by_user_on_date input.user_id input.start_time db.bookings))
                    _ (query-Spared _ _ (up count_active))
                    λ count _.
                      guard-Spared (leb s.policy.max_active_per_day count) daily_limit _ refl (
                        bind-Spared
                          (query (down user_overlap) (
                            user_has_overlap input.user_id input.start_time input.end_time none
                              db.bookings))
                          _ (query-Spared _ _ (up user_overlap))
                          λ busy _. guard-Spared busy overlap _ refl (
                            bind-Spared
                              (query (down sum_active) (
                                sum_active_party_sizes_in_window input.resource_id input.start_time
                                  input.end_time db.bookings))
                              _ (query-Spared _ _ (up sum_active))
                              λ active _.
                                bind-Spared (encrypt_notes s.encrypter input.secure_notes) _
                                  (rw with_e (encrypt_notes-Spared e input.secure_notes c))
                                  λ blob _. checked _))))))

insert_booking-Spared :
    (new_id stamp : ℕ) (input : CreateInput) (db : Db) (b : Booking)
    → Refers input db b
    → any (λ (c : Booking). c.id == new_id) db.bookings ≡ false
    → Acceptable input db
    → Spared Blames (insert_booking new_id stamp b db)
insert_booking-Spared new_id stamp input db b r free fine =
    rw (insert_admitted new_id stamp input db b r free fine) (ok-Spared _)

pub create_booking-Spared :
    (s : BookingService) (w : Meets) (input : CreateInput) (db : Db) {e : NotesEncrypter}
    → ((c : Call) → w.down c ≡ false)
    → s.encrypter ≡ some e
    → Ciphers e
    → any (λ (c : Booking). c.id == w.new_id) db.bookings ≡ false
    → Acceptable input db
    → Spared Blames (create_booking s w.down w.now w.stamp w.new_id input db)
unfolding create_booking
create_booking-Spared s w input db {e} up with_e c free fine =
    bind-Spared (admit_booking s w.down w.now input db) _
      (admit_booking-Spared s w.down w.now input db up with_e c)
      λ b admitted.
        bind-Spared (query (w.down create_call) tt) _ (query-Spared _ _ (up create_call)) λ _ _.
          insert_booking-Spared w.new_id w.stamp input db b
            (admit_booking-Refers s w.down w.now input db b admitted) free fine
