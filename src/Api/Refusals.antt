-- ===== src/Api/Refusals.antt =====
-- The status codes of repo/internal/api/handlers/booking.go and groupbuy.go.
use task.Base.{ℕ}
use task.Domain.Errors.{
  Error, not_found, invalid_input, lead_time, cutoff, daily_limit, overlap, invalid_transition,
  capacity_exceed, conflict, blacklisted, forbidden, oversold, already_joined, deadline_passed,
  optimistic_lock,
}

unfoldable pub write_service_error : Error → ℕ
write_service_error not_found = 404
write_service_error invalid_input = 400
write_service_error lead_time = 409
write_service_error cutoff = 409
write_service_error daily_limit = 409
write_service_error overlap = 409
write_service_error invalid_transition = 409
write_service_error capacity_exceed = 409
write_service_error conflict = 409
write_service_error blacklisted = 403
write_service_error forbidden = 403
write_service_error _ = 500

unfoldable pub write_group_buy_error : Error → ℕ
write_group_buy_error oversold = 409
write_group_buy_error already_joined = 409
write_group_buy_error deadline_passed = 409
write_group_buy_error optimistic_lock = 409
write_group_buy_error e = write_service_error e
