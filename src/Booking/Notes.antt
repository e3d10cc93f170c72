-- ===== src/Booking/Notes.antt =====
-- Secure notes of repo/internal/service/booking.go: what the owner wrote comes back to the owner
-- alone.
use text.Mathlib.TextEquality.{eq_iff}
use task.Base.{
  ℕ, ◌≡◌, refl, ◌≢◌, true, false, ◌&&◌, String, str_eq, some, List, [], ◌∷◌, arith, ◌==◌,
  if◌then◌else◌, ==_refl, fetch-insert, Bool-cases, inl, inr, Option-cases, length, ltb,
}
use task.Domain.Errors.{ok, Result-cases}
use task.Domain.Models.{Booking}
use task.Booking.Table.{Db, get_user, get_resource, stamped}
use task.Booking.Service.{
  BookingService, NotesEncrypter, Faults, CreateInput, create_booking, admit_booking, encrypt_notes,
  get_for_owner, bookings_get, reveal_notes,
}
use task.Booking.Insertion.{create-Inserted}
use task.Booking.Seats.{booking_key}

-- What the service relies on for a text: its ciphertext deciphers to it, and is not empty unless it is.
pub record Deciphers (e : NotesEncrypter) (text : String) : Type 0 where
  pub back : (blob : List ℕ) → e.encrypt text ≡ some blob → e.decrypt blob ≡ some text
  pub nonempty : (blob : List ℕ) → text ≢ "" → e.encrypt text ≡ some blob → blob ≢ []

admitted_notes :
    (s : BookingService) (down : Faults) (now : ℕ) (input : CreateInput) (db : Db) {b : Booking}
    → admit_booking s down now input db ≡ ok b
    → (encrypt_notes s.encrypter input.secure_notes ≡ ok b.secure_notes)
      × (b.secure_notes_plain ≡ "")
unfolding admit_booking
admitted_notes s down now input db h = elim (Result-cases (get_user input.user_id db)) [
  | inr (e, eq) ↦ absurd (ground arith)
  | inl (user, known_user) ↦ elim (Result-cases (get_resource input.resource_id db)) [
    | inr (e, eq) ↦ absurd (ground arith)
    | inl (resource, known_resource) ↦
        elim (Result-cases (encrypt_notes s.encrypter input.secure_notes)) [
          | inr (e, eq) ↦ absurd (ground arith)
          | inl (blob, eq) ↦ ground arith
        ]
  ]
]

-- The row with the notes as `GetForOwner` shows them to an actor.
abbrev pub shown : ℕ → String → Booking → Booking
shown actor text row =
    if row.user_id == actor then record row { secure_notes_plain = text } else row

length_pos : (xs : List ℕ) → xs ≢ [] → ltb 0 (length xs) ≡ true
length_pos [] h = absurd (h refl)
length_pos (x ∷ xs) h = ground arith

shows :
    (e : NotesEncrypter) (actor : ℕ) (text : String) (row : Booking)
    → Deciphers e text
    → encrypt_notes (some e) text ≡ ok row.secure_notes
    → row.secure_notes_plain ≡ ""
    → (if row.user_id == actor && ltb 0 (length row.secure_notes)
        then reveal_notes (some e) row
        else row)
      ≡ shown actor text row
unfolding encrypt_notes reveal_notes
shows e actor text row d enc plain = elim (Bool-cases (str_eq text "")) [
  | inl no_notes ↦ ground (arith, eq_iff text "")
  | inr notes ↦
      let written : text ≢ "" = ground (arith, eq_iff text "") in
      elim (Option-cases (e.encrypt text)) [
        | inl failed ↦ absurd (ground arith)
        | inr (blob, eq) ↦
            ground (arith, d.back blob eq, d.nonempty blob written eq, length_pos row.secure_notes)
      ]
]

-- A booking that `Create` returned is read back by `GetForOwner` with the notes of the request in
-- clear for its owner, and with none in clear for anyone else.
pub create_then_read :
    (s : BookingService) (down down' : Faults) (now stamp new_id actor : ℕ) (input : CreateInput)
    (db : Db) {e : NotesEncrypter} {row : Booking} {db' : Db}
    → s.encrypter ≡ some e
    → Deciphers e input.secure_notes
    → down' bookings_get ≡ false
    → create_booking s down now stamp new_id input db ≡ ok (row, db')
    → (row.secure_notes_plain ≡ "")
      × (get_for_owner s down' actor row.id db' ≡ ok (shown actor input.secure_notes row))
unfolding get_for_owner stamped
create_then_read s down down' now stamp new_id actor input db {e} {row} with_e d up h =
    let ins = create-Inserted s down now stamp new_id input db h in
    let b = ins.b in
    let notes = admitted_notes s down now input db ins.admitted in
    rw ins.after (
      ground (
        arith,
        notes,
        ins.row_stamped,
        fetch-insert booking_key row.id db.bookings row ins.fresh,
        ==_refl row.id,
        shows e actor input.secure_notes row d,
      ))
