-- ===== src/Server/Runs.antt =====
-- A run of the booking service across a restart of repo/cmd/server/main.go.
use task.Base.{
  ℕ, ◌*◌, ◌≡◌, refl, false, Option, some, none, List, [], ◌∷◌, arith, str_eq, if◌then◌else◌,
}
use task.Base.Int.{pos}
use task.Domain.Errors.{ok}
use task.Domain.Models.{User, Resource, Booking, hour, validate_booking}
use task.Domain.Status.{pending_confirmation}
use task.Booking.Table.{
  Db, insert_booking, stamped, count_active_by_user_on_date, user_has_overlap,
  sum_active_party_sizes_in_window,
}
use task.Booking.Service.{
  Faults, CreateInput, default_booking_policy, create_booking, admit_booking, encrypt_notes,
  initial_status, get_for_owner,
}
use task.Booking.Notes.{shown}
use task.Server.Keys.{
  Gcm, KeyManager, missing, holds, World, load_or_create, encrypt, Utf8, notes_encrypter,
}
use task.Server.Restart.{Opens, notes_outlive_restart}

abbrev key : List ℕ
key =
    1 ∷ 2 ∷ 3 ∷ 4 ∷ 5 ∷ 6 ∷ 7 ∷ 8 ∷ 1 ∷ 2 ∷ 3 ∷ 4 ∷ 5 ∷ 6 ∷ 7 ∷ 8 ∷ 1 ∷ 2 ∷ 3 ∷ 4 ∷ 5 ∷ 6 ∷ 7 ∷ 8
    ∷ 1 ∷ 2 ∷ 3 ∷ 4 ∷ 5 ∷ 6 ∷ 7 ∷ 8 ∷ []

-- A cipher that adds a mark in front, under a nonce of one byte.
abbrev marking : Gcm
marking = record {
  nonce_size = 1;
  seal = λ nonce plaintext. 9 ∷ plaintext;
  unseal = λ nonce ciphertext. elim ciphertext [ [] ↦ none | mark ∷ rest ↦ some rest ];
}

abbrev new_gcm : List ℕ → Option Gcm
new_gcm bytes = some marking

new_gcm-Opens : (k : List ℕ) (gcm : Gcm) → new_gcm k ≡ some gcm → Opens gcm
new_gcm-Opens k gcm made =
    let same : marking ≡ gcm = cc in
    rw (← same) (record { sized = omega arith; back = λ nonce plaintext sized. refl })

abbrev one_text : Utf8
one_text = record {
  bytes = λ text. if str_eq text "" then [] else 7 ∷ [];
  text = λ bytes. "gate 7";
}

abbrev first : World
first = record { mkdir_down = false; write_down = false; key = some key }

abbrev second : World
second = record { mkdir_down = false; write_down = false; key = none }

abbrev manager : KeyManager
manager = record { key_path = "master.key"; key = key; gcm = marking }

abbrev person : User
person = record {
  id = 1;
  username = "ann";
  password_hash = "";
  is_blacklisted = false;
  blacklist_reason = "";
  is_admin = false;
  must_rotate_password = false;
  anonymized_at = none;
  failed_attempts = 0;
  locked_until = none;
  last_login_at = none;
  created_at = 0;
  updated_at = 0;
}

abbrev slip : Resource
slip = record { id = 9; name = "slip"; description = ""; capacity = 4; created_at = 0 }

abbrev rows : Db
rows = record { users = person ∷ []; resources = slip ∷ []; groups = []; bookings = [] }

abbrev wish : CreateInput
wish = record {
  user_id = 1;
  resource_id = 9;
  group_id = none;
  party_size = pos 3;
  start_time = 10 * hour;
  end_time = 12 * hour;
  notes = "";
  secure_notes = "gate 7";
}

abbrev booked : Booking
booked = record {
  id = 5;
  user_id = 1;
  resource_id = 9;
  group_id = none;
  party_size = 3;
  start_time = 10 * hour;
  end_time = 12 * hour;
  status = pending_confirmation;
  notes = "";
  secure_notes = 4 ∷ 9 ∷ 7 ∷ [];
  secure_notes_plain = "";
  created_at = 0;
  updated_at = 0;
}

abbrev up : Faults
up c = false

notes_outlive_restart_example :
    (k' : KeyManager) × (load_or_create new_gcm second "master.key" (holds key)
      ≡ ok (k', holds key))
    × (get_for_owner
          (record {
            encrypter = some (notes_encrypter one_text k' none);
            policy = default_booking_policy;
          })
          up
          1
          5
          (record rows { bookings = booked ∷ [] })
        ≡ ok (shown 1 "gate 7" booked))
unfolding create_booking admit_booking count_active_by_user_on_date user_has_overlap
    sum_active_party_sizes_in_window encrypt_notes initial_status validate_booking insert_booking
    stamped load_or_create notes_encrypter encrypt
notes_outlive_restart_example =
    notes_outlive_restart one_text new_gcm first second "master.key" missing (holds key) manager
      (4 ∷ []) none default_booking_policy up up 0 0 5 1 wish rows
      (record rows { bookings = booked ∷ [] }) booked
      (record { back = refl; written = λ some_text. ground arith }) new_gcm-Opens
      (λ bytes drawn. let same : key ≡ bytes = cc in rw (← same) refl) refl refl refl refl refl
