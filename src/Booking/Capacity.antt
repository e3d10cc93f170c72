-- ===== src/Booking/Capacity.antt =====
-- Seat capacity under repo/internal/service/booking.go: no moment is sold out twice.
use task.Base.{
  ℕ, ◌+◌, ◌≤◌, ◌<◌, ◌≡◌, ◌⊎◌, inl, inr, true, false, some, arith, fetch, Distinct, insert-Distinct,
  fetch-insert, Bool-cases, ◌==◌, ==_iff, ==_refl,
}
use task.Domain.Errors.{ok}
use task.Domain.Models.{Resource, Booking}
use task.Booking.Table.{Db, get_resource, stamped, holds_seats}
use task.Booking.Service.{BookingService, Faults, CreateInput, create_booking, initial_status}
use task.Booking.Admission.{Admitted, admit-Admitted}
use task.Booking.Insertion.{create-Inserted}
use task.Booking.Seats.{booking_key, seats_of, seats_at, seats_at-le-sum, seats_at-insert}

-- Keys are distinct, no booking is larger than its resource, and at no moment are more seats of a
-- resource taken than it has.
pub record IsSeated (db : Db) : Type 0 where
  pub distinct : Distinct booking_key db.bookings
  pub sized :
      (id : ℕ) (b : Booking) (r : Resource)
      → fetch booking_key id db.bookings ≡ some b
      → get_resource b.resource_id db ≡ ok r
      → b.party_size ≤ r.capacity
  pub seated :
      (id : ℕ) (r : Resource) (t : ℕ)
      → get_resource id db ≡ ok r
      → seats_at id t db.bookings ≤ r.capacity

stamped_seats :
    (resource t id now : ℕ) (b : Booking)
    → 0 < b.party_size
    → seats_of resource t (stamped id now b) ≡ seats_of resource t b
unfolding stamped
stamped_seats resource t id now b h = ground arith

-- A new row leaves room for itself, at every moment at which it takes seats.
Admitted-fits :
    {s : BookingService} {now : ℕ} {input : CreateInput} {db : Db} {b : Booking}
    (adm : Admitted s now input db b) (t : ℕ)
    → (seats_of b.resource_id t b ≡ 0)
      ⊎ (seats_at b.resource_id t db.bookings + seats_of b.resource_id t b ≤ adm.resource.capacity)
unfolding initial_status holds_seats
Admitted-fits {db = db} {b = b} adm t =
    ground (arith, seats_at-le-sum b.resource_id b.start_time b.end_time t db.bookings)

seats_elsewhere :
    (resource t : ℕ) (b : Booking) → (b.resource_id == resource) ≡ false → seats_of resource t b ≡ 0
seats_elsewhere resource t b h = ground arith

Admitted-pos :
    {s : BookingService} {now : ℕ} {input : CreateInput} {db : Db} {b : Booking}
    → Admitted s now input db b
    → 0 < b.party_size
Admitted-pos adm = ground arith

same_resource :
    {s : BookingService} {now : ℕ} {input : CreateInput} {db : Db} {b : Booking}
    → IsSeated db
    → (adm : Admitted s now input db b) (id : ℕ) (r : Resource) → get_resource id db ≡ ok r
    → (b.resource_id == id) ≡ true
    → adm.resource ≡ r
same_resource {input = input} {b = b} v adm id r e here =
    ground (arith, (==_iff b.resource_id id).0 here)

-- The row as inserted takes the seats that were found free.
inserted_fits :
    {s : BookingService} {now : ℕ} {input : CreateInput} {db : Db} {b : Booking}
    → IsSeated db
    → Admitted s now input db b
    → (stamp new_id id : ℕ) (r : Resource) (t : ℕ) → get_resource id db ≡ ok r
    → seats_at id t db.bookings + seats_of id t (stamped new_id stamp b) ≤ r.capacity
inserted_fits {input = input} {db = db} {b = b} v adm stamp new_id id r t e =
    elim (Bool-cases (b.resource_id == id)) [
      | inl here ↦ ground (
        arith,
        same_resource v adm id r e here,
        stamped_seats id t new_id stamp b (Admitted-pos adm),
        Admitted-fits adm t,
        (==_iff b.resource_id id).0 here,
        v.seated id r t e,
      )
      | inr away ↦ ground (
        arith,
        stamped_seats id t new_id stamp b (Admitted-pos adm),
        seats_elsewhere id t b away,
        v.seated id r t e,
      )
    ]

inserted_sized :
    {s : BookingService} {now : ℕ} {input : CreateInput} {db : Db} {b : Booking}
    → IsSeated db
    → Admitted s now input db b
    → (stamp new_id : ℕ) (r : Resource)
    → get_resource (stamped new_id stamp b).resource_id db ≡ ok r
    → (stamped new_id stamp b).party_size ≤ r.capacity
unfolding stamped
inserted_sized {b = b} v adm stamp new_id r e =
    ground (arith, same_resource v adm b.resource_id r e (==_refl b.resource_id), Admitted-pos adm)

-- A successful `Create` keeps the seats within the capacity.
pub create-IsSeated :
    (s : BookingService) (down : Faults) (now stamp new_id : ℕ) (input : CreateInput) (db : Db)
    {row : Booking} {db' : Db}
    → IsSeated db
    → create_booking s down now stamp new_id input db ≡ ok (row, db')
    → IsSeated db'
create-IsSeated s down now stamp new_id input db {row} v h =
    let ins = create-Inserted s down now stamp new_id input db h in
    let adm = admit-Admitted s down now input db ins.admitted in
    rw ins.after (record {
      distinct = insert-Distinct booking_key db.bookings row v.distinct ins.fresh;
      sized = λ id c r e place. ground (
        arith,
        fetch-insert booking_key id db.bookings row ins.fresh,
        v.sized id c r,
        ins.row_stamped,
        inserted_sized v adm stamp new_id r,
      );
      seated = λ id r t e.
          rw (seats_at-insert id t db.bookings row, ins.row_stamped)
            (inserted_fits v adm stamp new_id id r t e);
    })
