-- ===== src/Domain/Password.antt =====
-- repo/internal/domain/password.go. The classes of code points are the tables of the package
-- `unicode`, which is not part of the repository.
pub mod Policy
use Prim.Native.String.{len}
use task.Base.{
  ℕ, Bool, true, false, not, ◌&&◌, ◌||◌, List, [], ◌∷◌, String, codes, ltb, if◌then◌else◌,
}
use task.Domain.Errors.{Result, ok, password_policy, fail_if, ◌>>◌}

pub record Unicode : Type 0 where
  pub is_lower : ℕ → Bool
  pub is_upper : ℕ → Bool
  pub is_digit : ℕ → Bool
  pub is_space : ℕ → Bool
  pub is_punct : ℕ → Bool
  pub is_symbol : ℕ → Bool

abbrev pub password_min_length : ℕ
password_min_length = 12

-- The four flags that the loop sets.
pub record Classes : Type 0 where
  pub has_lower : Bool
  pub has_upper : Bool
  pub has_digit : Bool
  pub has_symbol : Bool

-- The switch of one turn of the loop: the first case that applies.
unfoldable pub classify : Unicode → ℕ → Classes → Classes
classify u r seen =
    if u.is_lower r
    then record seen { has_lower = true }
    else if u.is_upper r
    then record seen { has_upper = true }
    else if u.is_digit r
    then record seen { has_digit = true }
    else if u.is_space r
    then seen
    else if u.is_punct r || u.is_symbol r
    then record seen { has_symbol = true }
    else seen

unfoldable pub classes_of : Unicode → List ℕ → Classes → Classes
classes_of u [] seen = seen
classes_of u (r ∷ rs) seen = classes_of u rs (classify u r seen)

abbrev pub none_seen : Classes
none_seen = record { has_lower = false; has_upper = false; has_digit = false; has_symbol = false }

-- `ValidatePassword`: `len` counts bytes.
unfoldable pub validate_password : Unicode → String → Result (Unit {0})
validate_password u pw =
    let seen = classes_of u (codes pw) none_seen in
    fail_if
      (ltb (len pw) password_min_length
        || not seen.has_lower
        || not seen.has_upper
        || not seen.has_digit
        || not seen.has_symbol)
      password_policy
    >> ok tt
