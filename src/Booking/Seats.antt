-- ===== src/Booking/Seats.antt =====
-- Seats of a resource at a moment, and what an insert or a change of status does to them.
use task.Base.{
  ℕ, ◌+◌, ◌≤◌, ◌<◌, ◌≡◌, false, ◌&&◌, some, List, [], ◌∷◌, ◌++◌, arith, ltb, leb, ◌==◌,
  if◌then◌else◌, sum_of, sum_of_mono, sum_of-append, change, fetch, Distinct, besides,
  sum_of-change, sum_of-besides, sum_of-eq-zero,
}
use task.Domain.Status.{BookingStatus}
use task.Domain.Models.{Booking}
use task.Booking.Table.{
  holds_seats, overlaps, seats_in_window, sum_active_party_sizes_in_window, resource_has_overlap,
  not_excluded,
}

-- The seats that a booking takes of a resource at the moment `t`.
abbrev pub seats_of : ℕ → ℕ → Booking → ℕ
seats_of resource t b =
    if b.resource_id == resource && holds_seats b.status && leb b.start_time t && ltb t b.end_time
    then b.party_size
    else 0

-- The seats that are taken at the moment `t`: an independent count, moment by moment, of what the
-- service counts window by window.
unfoldable pub seats_at : ℕ → ℕ → List Booking → ℕ
seats_at resource t rows = sum_of (seats_of resource t) rows

abbrev pub booking_key : Booking → ℕ
booking_key b = b.id

seats_of-le :
    (resource start end t : ℕ)
    → start ≤ t
    → t < end
    → (b : Booking) → seats_of resource t b ≤ seats_in_window resource start end b
seats_of-le resource start end t p q b = ground arith

-- The sum over a window is at least what is taken at each moment of it.
pub seats_at-le-sum :
    (resource start end t : ℕ) (rows : List Booking)
    → start ≤ t
    → t < end
    → seats_at resource t rows ≤ sum_active_party_sizes_in_window resource start end rows
unfolding seats_at sum_active_party_sizes_in_window
seats_at-le-sum resource start end t rows p q =
    sum_of_mono (seats_of resource t) (seats_in_window resource start end)
      (seats_of-le resource start end t p q) rows

pub seats_at-insert :
    (resource t : ℕ) (rows : List Booking) (b : Booking)
    → seats_at resource t (rows ++ b ∷ []) ≡ seats_at resource t rows + seats_of resource t b
unfolding seats_at
seats_at-insert resource t rows b = omega (arith, sum_of-append (seats_of resource t) rows (b ∷ []))

-- The row with a changed status.
abbrev pub with_status : BookingStatus → ℕ → Booking → Booking
with_status status now b = record b { status = status; updated_at = now }

-- With distinct keys, an UPDATE by the key trades the seats of one row for those of its new form.
pub seats_at-update :
    (resource t id now : ℕ) (status : BookingStatus) (rows : List Booking) {b : Booking}
    → Distinct booking_key rows
    → fetch booking_key id rows ≡ some b
    → seats_at resource t (change booking_key id (with_status status now) rows)
        + seats_of resource t b
      ≡ seats_at resource t rows + seats_of resource t (with_status status now b)
unfolding seats_at
seats_at-update resource t id now status rows {b} d e =
    sum_of-change booking_key (seats_of resource t) id (with_status status now) rows {a = b} d e

others_away :
    (resource start end t id : ℕ)
    → start ≤ t
    → t < end
    → (c : Booking)
    → (c.resource_id == resource
        && holds_seats c.status
        && overlaps start end c
        && not_excluded (some id) c)
      ≡ false
    → besides booking_key (seats_of resource t) id c ≡ 0
others_away resource start end t id p q c h = ground arith

-- When no other row with a seat overlaps the window, all that is taken in it is the row's own.
pub seats_at-free :
    (resource start end t id : ℕ) (rows : List Booking) {b : Booking}
    → Distinct booking_key rows
    → fetch booking_key id rows ≡ some b
    → resource_has_overlap resource start end (some id) rows ≡ false
    → start ≤ t
    → t < end
    → seats_at resource t rows ≡ seats_of resource t b
unfolding seats_at resource_has_overlap
seats_at-free resource start end t id rows {b} d e free p q = omega (
  arith,
  sum_of-besides booking_key (seats_of resource t) id rows {a = b} d e,
  sum_of-eq-zero _ (besides booking_key (seats_of resource t) id)
      (others_away resource start end t id p q) rows free,
)
