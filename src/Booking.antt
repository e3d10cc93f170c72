-- ===== src/Booking.antt =====
-- Bookings: repo/internal/repository/booking.go, the parts of resource.go and user.go that they use,
-- repo/internal/service/booking.go and the slot report of repo/internal/service/resource.go.
pub mod Table
pub mod Service
pub mod Admission
pub mod Seats
pub mod Insertion
pub mod Capacity
pub mod Promotion
pub mod Limits
pub mod Overlaps
pub mod System
pub mod Race
pub mod Notes
pub mod Slots
pub mod Report
pub mod Outcomes
pub mod Availability
pub mod Examples
