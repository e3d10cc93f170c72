-- ===== src/Domain/Models.antt =====
-- The records and checks of repo/internal/domain/models.go. A UUID is a number, and 0 is
-- `uuid.Nil`; a time or a duration is a number of nanoseconds, a time since the Unix epoch in UTC.
use task.Base.{ℕ, ◌*◌, Bool, false, not, String, Option, none, some, List, ltb, leb, ◌==◌}
use task.Domain.Errors.{Result, ok, invalid_input, ◌>>◌, fail_if}
use task.Domain.Status.{BookingStatus}

abbrev pub second : ℕ
second = 1_000_000_000

abbrev pub minute : ℕ
minute = 60 * second

abbrev pub hour : ℕ
hour = 60 * minute

-- In UTC a day has 24 hours and midnight is a multiple of it.
abbrev pub day : ℕ
day = 24 * hour

abbrev pub nil_id : ℕ
nil_id = 0

pub record User : Type 0 where
  pub id : ℕ
  pub username : String
  pub password_hash : String
  pub is_blacklisted : Bool
  pub blacklist_reason : String
  pub is_admin : Bool
  pub must_rotate_password : Bool
  pub anonymized_at : Option ℕ
  pub failed_attempts : ℕ
  pub locked_until : Option ℕ
  pub last_login_at : Option ℕ
  pub created_at : ℕ
  pub updated_at : ℕ

unfoldable pub captcha_required_for : User → Bool
captcha_required_for u = leb 2 u.failed_attempts

-- `u.LockedUntil != nil && u.LockedUntil.After(now)`
unfoldable pub is_locked : User → ℕ → Bool
is_locked u now = elim u.locked_until [ none ↦ false | some until ↦ ltb now until ]

pub record Session : Type 0 where
  pub id : String
  pub user_id : ℕ
  pub created_at : ℕ
  pub last_activity_at : ℕ
  pub expires_at : ℕ
  pub user_agent : String
  pub ip : String

pub record CaptchaChallenge : Type 0 where
  pub token : String
  pub question : String
  pub answer : String
  pub created_at : ℕ
  pub expires_at : ℕ
  pub consumed : Bool

pub record Resource : Type 0 where
  pub id : ℕ
  pub name : String
  pub description : String
  pub capacity : ℕ
  pub created_at : ℕ

-- `secure_notes` is the ciphertext, and [] is no ciphertext.
pub record Booking : Type 0 where
  pub id : ℕ
  pub user_id : ℕ
  pub resource_id : ℕ
  pub group_id : Option ℕ
  pub party_size : ℕ
  pub start_time : ℕ
  pub end_time : ℕ
  pub status : BookingStatus
  pub notes : String
  pub secure_notes : List ℕ
  pub secure_notes_plain : String
  pub created_at : ℕ
  pub updated_at : ℕ

-- `(*Booking).Validate`
unfoldable pub validate_booking : Booking → Result (Unit {0})
validate_booking b = do
  fail_if (b.user_id == nil_id) invalid_input
  fail_if (b.resource_id == nil_id) invalid_input
  fail_if (b.party_size == 0) invalid_input
  fail_if (not (ltb b.start_time b.end_time)) invalid_input
  ok tt
