-- ===== src/Domain/Password/Policy.antt =====
-- The password policy as one condition: repo/internal/domain/password.go.
use Prim.Native.String.{len}
use task.Base.{
  ℕ, ◌≤◌, ◌≡◌, ◌↔◌, Bool, true, not, ◌&&◌, ◌||◌, List, [], ◌∷◌, String, arith, any, codes,
}
use task.Domain.Errors.{ok}
use task.Domain.Password.{Unicode, Classes, classify, classes_of, none_seen, validate_password}

-- The case of the switch that a code point takes.
abbrev pub counts_upper : Unicode → ℕ → Bool
counts_upper u r = not (u.is_lower r) && u.is_upper r

abbrev pub counts_digit : Unicode → ℕ → Bool
counts_digit u r = not (u.is_lower r) && not (u.is_upper r) && u.is_digit r

abbrev pub counts_symbol : Unicode → ℕ → Bool
counts_symbol u r =
    not (u.is_lower r)
    && not (u.is_upper r)
    && not (u.is_digit r)
    && not (u.is_space r)
    && (u.is_punct r || u.is_symbol r)

classes_of_lem :
    (u : Unicode) (rs : List ℕ) (seen : Classes)
    → classes_of u rs seen ≡ record {
      has_lower = seen.has_lower || any u.is_lower rs;
      has_upper = seen.has_upper || any (counts_upper u) rs;
      has_digit = seen.has_digit || any (counts_digit u) rs;
      has_symbol = seen.has_symbol || any (counts_symbol u) rs;
    }
unfolding classes_of classify
classes_of_lem u [] seen = ground arith
classes_of_lem u (r ∷ rs) seen = ground (arith, classes_of_lem u rs (classify u r seen))

-- A password is accepted exactly if it has at least twelve bytes and one code point of each kind: a
-- lowercase letter, an uppercase letter, a digit, and a mark of punctuation or a symbol, where the first
-- kind that a code point has is the one that it counts for. A code point of none of these kinds, such as
-- a control character, counts for nothing.
pub validate_password_iff :
    (u : Unicode) (pw : String)
    → (validate_password u pw ≡ ok tt) ↔ (
        (12 ≤ len pw)
        × (any u.is_lower (codes pw) ≡ true)
        × (any (counts_upper u) (codes pw) ≡ true)
        × (any (counts_digit u) (codes pw) ≡ true)
        × (any (counts_symbol u) (codes pw) ≡ true))
unfolding validate_password
validate_password_iff u pw = ground (arith, classes_of_lem u (codes pw) none_seen)
