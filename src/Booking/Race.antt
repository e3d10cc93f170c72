-- ===== src/Booking/Race.antt =====
-- Two calls of `Create` of repo/internal/service/booking.go whose reads both come before the INSERTs:
-- no transaction or lock joins the reads of a call to its INSERT.
use task.Base.{ℕ, ◌+◌, ◌≤◌, ◌<◌, ◌≡◌, List, [], ◌∷◌, ◌++◌, arith, any, false, ◌==◌, ==_refl}
use task.Domain.Errors.{ok}
use task.Domain.Status.{pending_confirmation}
use task.Domain.Models.{Resource, Booking, nil_id}
use task.Booking.Table.{Db, get_resource, stamped, insert_booking, holds_seats}
use task.Booking.Service.{BookingService, Faults, CreateInput, admit_booking}
use task.Booking.Admission.{Refers, admit_booking-Refers, Acceptable, insert_admitted}
use task.Booking.Seats.{seats_of, seats_at, seats_at-insert}

-- A row with seats takes them at every moment of its window.
taken :
    (id now t : ℕ) (b : Booking)
    → b.status ≡ pending_confirmation
    → b.start_time ≤ t
    → t < b.end_time
    → b.party_size ≤ seats_of b.resource_id t (stamped id now b)
unfolding stamped holds_seats
taken id now t b p q r = ground (arith, ==_refl b.resource_id)

later-Refers :
    (s : BookingService) (down : Faults) (now : ℕ) (input : CreateInput) (db : Db) (b row : Booking)
    → admit_booking s down now input db ≡ ok b
    → Refers input (record db { bookings = db.bookings ++ row ∷ [] }) b
later-Refers s down now input db b row h =
    let r = admit_booking-Refers s down now input db b h in
    record {
      fresh = r.fresh;
      user = r.user;
      resource = r.resource;
      group = r.group;
      forward = r.forward;
      starts = r.starts;
      ends = r.ends;
      notes = r.notes;
    }

unused_later :
    (id id' stamp : ℕ) (b : Booking) (rows : List Booking)
    → b.id ≡ nil_id
    → any (λ (c : Booking). c.id == id') rows ≡ false
    → (id == id') ≡ false
    → any (λ (c : Booking). c.id == id') (rows ++ stamped id stamp b ∷ []) ≡ false
unfolding stamped
unused_later id id' stamp b [] fresh free differ = rw fresh (ground arith)
unused_later id id' stamp b (c ∷ rows) fresh free differ =
    ground (arith, unused_later id id' stamp b rows fresh)

-- Two requests are admitted against the same rows, for one resource, both with seats, with a moment in
-- common and too large together. If what they say can be stored and their new identifiers are unused and
-- differ, then both INSERTs succeed, one after the other, and at that moment the bookings with seats
-- take more of the resource than its capacity.
pub admitted_together_oversell :
    (s : BookingService) (down : Faults) (now stamp id id' : ℕ) (input input' : CreateInput)
    (db : Db) {b b' : Booking} {r : Resource} (t : ℕ)
    → admit_booking s down now input db ≡ ok b
    → admit_booking s down now input' db ≡ ok b'
    → b.status ≡ pending_confirmation
    → b'.status ≡ pending_confirmation
    → b'.resource_id ≡ b.resource_id
    → (b.start_time ≤ t) × (t < b.end_time) × (b'.start_time ≤ t) × (t < b'.end_time)
    → get_resource b.resource_id db ≡ ok r
    → r.capacity < b.party_size + b'.party_size
    → Acceptable input db
    → Acceptable input' db
    → any (λ (c : Booking). c.id == id) db.bookings ≡ false
    → any (λ (c : Booking). c.id == id') db.bookings ≡ false
    → (id == id') ≡ false
    → (row row' : Booking) × (db' db'' : Db) × (insert_booking id stamp b db ≡ ok (row, db'))
      × (insert_booking id' stamp b' db' ≡ ok (row', db''))
      × (r.capacity < seats_at b.resource_id t db''.bookings)
admitted_together_oversell s down now stamp id id' input input' db {b} {b'} {r = r} t h h' p p' same
      at known big fine fine' free free' differ =
    let refers = admit_booking-Refers s down now input db b h in
    let row = stamped id stamp b in
    let row' = stamped id' stamp b' in
    let db' : Db = record db { bookings = db.bookings ++ row ∷ [] } in
    (
      row,
      row',
      db',
      record db { bookings = db'.bookings ++ row' ∷ [] },
      insert_admitted id stamp input db b refers free fine,
      insert_admitted id' stamp input' db' b' (later-Refers s down now input' db b' row h')
          (unused_later id id' stamp b db.bookings refers.fresh free' differ)
          (record { group = fine'.group; window = fine'.window; text = fine'.text }),
      ground (
        arith,
        taken id stamp t b p at.0 at.1,
        taken id' stamp t b' p' at.2 at.3,
        seats_at-insert b.resource_id t db.bookings row,
        seats_at-insert b.resource_id t db'.bookings row',
      ),
    )
