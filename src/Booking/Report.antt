-- ===== src/Booking/Report.antt =====
-- The availability report of repo/internal/service/resource.go against the count that bookings are
-- admitted by.
use task.Base.{
  ℕ, zero, suc, ◌+◌, ◌-◌, ◌≤◌, ◌<◌, ◌≡◌, refl, ◌∙◌, true, false, not, ◌&&◌, ◌||◌, List, [], ◌∷◌,
  ltb, ◌==◌, if◌then◌else◌, All, arith, inl, inr, Bool-cases, sum_of, sum_of-sort_by, sum_of-select,
  sum_of_congr,
}
use task.Domain.Status.{
  BookingStatus, pending_confirmation, waitlisted, checked_in, canceled, is_active, status_eq,
}
use task.Domain.Models.{Booking, day}
use task.Booking.Table.{
  day_start, overlaps, holds_seats, seats_in_window, sum_active_party_sizes_in_window,
}
use task.Booking.Slots.{
  SlotCapacity, active_in_slot, slot_at, slot_end, slots_from, compute_slot_capacities,
  list_by_resource_on_date, peak_from,
}

-- The slots follow one another without a gap from `start` to `close`, none is empty, and each shows
-- the seats left of `capacity`.
pub data Tiles (close capacity : ℕ) : ℕ → List SlotCapacity → Type 0 where
  done : Tiles close capacity close []
  next :
      {sl : SlotCapacity} {slots : List SlotCapacity}
      → sl.start_time < sl.end_time
      → sl.remaining_seats ≡ capacity - sl.active_party_size
      → sl.available ≡ ltb 0 sl.remaining_seats
      → Tiles close capacity sl.end_time slots
      → Tiles close capacity sl.start_time (sl ∷ slots)

slots_from_past :
    (fuel cur close slot capacity : ℕ) (booked : List Booking)
    → close ≤ cur
    → slots_from fuel cur close slot capacity booked ≡ []
unfolding slots_from
slots_from_past zero cur close slot capacity booked h = refl
slots_from_past (suc fuel) cur close slot capacity booked h = ground arith

slots_from_step :
    (fuel cur close slot capacity : ℕ) (booked : List Booking)
    → cur < close
    → slots_from (suc fuel) cur close slot capacity booked
      ≡ slot_at cur (slot_end cur close slot) capacity booked
        ∷ slots_from fuel (cur + slot) close slot capacity booked
unfolding slots_from
slots_from_step fuel cur close slot capacity booked h = ground arith

slot_end_inner :
    (cur close slot : ℕ) → ltb (cur + slot) close ≡ true → slot_end cur close slot ≡ cur + slot
slot_end_inner cur close slot h = ground arith

slot_end_last :
    (cur close slot : ℕ) → ltb (cur + slot) close ≡ false → slot_end cur close slot ≡ close
slot_end_last cur close slot h = ground arith

slots_from-Tiles :
    (fuel cur close slot capacity : ℕ) (booked : List Booking)
    → 0 < slot
    → cur < close
    → close ≤ cur + fuel
    → Tiles close capacity cur (slots_from fuel cur close slot capacity booked)
unfolding slot_at
slots_from-Tiles zero cur close slot capacity booked p q r = absurd (omega arith)
slots_from-Tiles (suc fuel) cur close slot capacity booked p q r =
    rw (slots_from_step fuel cur close slot capacity booked q)
      (elim (Bool-cases (ltb (cur + slot) close)) [
        | inl more ↦
            next {sl = slot_at cur (slot_end cur close slot) capacity booked} (ground arith) refl
              refl
              (rw (slot_end_inner cur close slot more) (
                slots_from-Tiles fuel (cur + slot) close slot capacity booked p (ground arith)
                  (omega arith)))
        | inr last ↦
            next {sl = slot_at cur (slot_end cur close slot) capacity booked} (ground arith) refl
              refl
              (rw
                (
                  slot_end_last cur close slot last,
                  slots_from_past fuel (cur + slot) close slot capacity booked (ground arith),
                )
                done)
      ])

seat_status : (s : BookingStatus) → holds_seats s ≡ (is_active s && not (status_eq s waitlisted))
unfolding holds_seats is_active status_eq
seat_status pending_confirmation = refl
seat_status waitlisted = refl
seat_status _ = refl

active_in_slot-eq-sum :
    (cur end : ℕ) (booked : List Booking)
    → active_in_slot cur end booked
      ≡ sum_of (λ b. if holds_seats b.status && overlaps cur end b then b.party_size else 0) booked
unfolding active_in_slot
active_in_slot-eq-sum cur end [] = refl
active_in_slot-eq-sum cur end (b ∷ booked) =
    ground (arith, seat_status b.status, active_in_slot-eq-sum cur end booked)

-- For slots that are not empty, in a window that is not: the slots follow one another without a gap
-- from its opening to its close, and each shows what its active bookings leave of the capacity.
pub compute_slot_capacities-Tiles :
    (open_ close slot capacity : ℕ) (booked : List Booking)
    → 0 < slot
    → open_ < close
    → Tiles close capacity open_ (compute_slot_capacities open_ close slot capacity booked)
unfolding compute_slot_capacities
compute_slot_capacities-Tiles open_ close slot capacity booked p q =
    rw window (slots_from-Tiles (close - open_) open_ close slot capacity booked p q (omega arith))
  where
    window :
        (if not (ltb open_ close) || slot == 0
          then []
          else slots_from (close - open_) open_ close slot capacity booked)
        ≡ slots_from (close - open_) open_ close slot capacity booked
    window = ground arith

-- One row of the table as the report counts it: listed for the day, and overlapping the slot.
listed_share : (resource t cur end : ℕ) → Booking → ℕ
listed_share resource t cur end b =
    if b.resource_id == resource
      && not (status_eq b.status canceled)
      && overlaps (day_start t) (day_start t + day) b
    then (if holds_seats b.status && overlaps cur end b then b.party_size else 0)
    else 0

holds_uncanceled : (s : BookingStatus) → holds_seats s ≡ true → status_eq s canceled ≡ false
unfolding holds_seats status_eq
holds_uncanceled pending_confirmation h = refl
holds_uncanceled checked_in h = refl
holds_uncanceled _ h = ground arith

listed_share-eq :
    (resource t cur end : ℕ)
    → day_start t ≤ cur
    → end ≤ day_start t + day
    → (b : Booking) → listed_share resource t cur end b ≡ seats_in_window resource cur end b
unfolding listed_share
listed_share-eq resource t cur end p q b = ground (arith, holds_uncanceled b.status)

-- For a slot within the day, the seats that the report shows as active are exactly those that
-- `Create` would count for the same window.
pub active_in_slot-eq-sum_active :
    (resource t cur end : ℕ) (rows : List Booking)
    → day_start t ≤ cur
    → end ≤ day_start t + day
    → active_in_slot cur end (list_by_resource_on_date resource t rows)
      ≡ sum_active_party_sizes_in_window resource cur end rows
unfolding list_by_resource_on_date sum_active_party_sizes_in_window listed_share
active_in_slot-eq-sum_active resource t cur end rows p q =
    active_in_slot-eq-sum cur end _
    ∙ sum_of-sort_by _ _ _
    ∙ sum_of-select _ _ rows
    ∙ sum_of_congr _ (seats_in_window resource cur end) (listed_share-eq resource t cur end p q)
        rows

-- The least remainder is what the peak leaves of the capacity.
pub peak_from_least :
    (capacity close peak least cur : ℕ) (slots : List SlotCapacity)
    → least ≡ capacity - peak
    → Tiles close capacity cur slots
    → (peak_from peak least slots).1 ≡ capacity - (peak_from peak least slots).0
unfolding peak_from
peak_from_least capacity close peak least cur slots e done = e
peak_from_least capacity close peak least cur slots e (next {sl} {slots = rest} a b c tiles) =
    peak_from_least capacity close
      (if ltb peak sl.active_party_size then sl.active_party_size else peak)
      (if ltb sl.remaining_seats least then sl.remaining_seats else least) sl.end_time rest
      (ground arith) tiles

-- What holds of every turn of the loop holds of every slot.
slots_from-All :
    (P : SlotCapacity → Type 0) (lo fuel cur close slot capacity : ℕ) (booked : List Booking)
    → ((c e : ℕ) → lo ≤ c → e ≤ close → P (slot_at c e capacity booked))
    → lo ≤ cur
    → All P (slots_from fuel cur close slot capacity booked)
unfolding slots_from
slots_from-All P lo zero cur close slot capacity booked h p = tt
slots_from-All P lo (suc fuel) cur close slot capacity booked h p =
    elim (ltb cur close)
      as (λ x. All P (elim x [
        | false ↦ []
        | true ↦
            slot_at cur (slot_end cur close slot) capacity booked
            ∷ slots_from fuel (cur + slot) close slot capacity booked
      ])) [
        | false ↦ tt
        | true ↦ (
          h cur (slot_end cur close slot) p (ground arith),
          slots_from-All P lo fuel (cur + slot) close slot capacity booked h (omega arith),
        )
      ]

pub compute_slot_capacities-All :
    (P : SlotCapacity → Type 0) (open_ close slot capacity : ℕ) (booked : List Booking)
    → ((c e : ℕ) → open_ ≤ c → e ≤ close → P (slot_at c e capacity booked))
    → All P (compute_slot_capacities open_ close slot capacity booked)
unfolding compute_slot_capacities
compute_slot_capacities-All P open_ close slot capacity booked h =
    elim (not (ltb open_ close) || slot == 0)
      as (λ x.
        All P (if x then [] else slots_from (close - open_) open_ close slot capacity booked)) [
          | true ↦ tt
          | false ↦
              slots_from-All P open_ (close - open_) open_ close slot capacity booked h
                (omega arith)
        ]
