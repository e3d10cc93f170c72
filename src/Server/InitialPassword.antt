-- ===== src/Server/InitialPassword.antt =====
-- Whether the password of generateInitialPassword in repo/cmd/server/main.go meets the policy of
-- repo/internal/domain/password.go.
use Prim.Native.String.{String, ◌++◌ as append, len}
use Prim.Native.String.append as appending
use text.Mathlib.TextPositions.{len-append}
use task.Base.{ℕ, ◌≡◌, ◌↔◌, refl, Bool, true, false, ◌||◌, List, [], ◌∷◌, ◌++◌, codes, any, arith}
use task.Domain.Errors.{ok}
use task.Domain.Password.{Unicode, validate_password}
use task.Domain.Password.Policy.{counts_upper, counts_digit, counts_symbol, validate_password_iff}
use task.Server.FirstBoot.{initial_password}

codes-append : (s t : String) → codes (append s t) ≡ codes s ++ codes t
codes-append String.[] t = rw (appending.nil t) refl
codes-append (String.◌∷◌ c s) t = rw (appending.cons c s t, codes-append s t) refl

any-append : (p : ℕ → Bool) (xs ys : List ℕ) → any p (xs ++ ys) ≡ (any p xs || any p ys)
any-append p [] ys = refl
any-append p (x ∷ xs) ys = ground (arith, any-append p xs ys)

-- What `unicode` says of the three characters that every initial password ends in.
pub record Latin (u : Unicode) : Type 0 where
  pub upper_a : (u.is_upper b'A' ≡ true) × (u.is_lower b'A' ≡ false)
  pub digit_one : (u.is_digit b'1' ≡ true) × (u.is_lower b'1' ≡ false) × (u.is_upper b'1' ≡ false)
  pub mark : (u.is_punct b'!' ≡ true) × (u.is_space b'!' ≡ false)
  pub mark_only : (u.is_lower b'!' ≡ false) × (u.is_upper b'!' ≡ false) × (u.is_digit b'!' ≡ false)

abbrev ending : List ℕ
ending = b'A' ∷ b'1' ∷ b'!' ∷ []

-- With the 24 characters that base64 makes of 18 bytes, the password that is made for the first admin
-- meets the policy exactly if there is a lowercase letter among those characters.
pub initial_password_iff :
    (u : Unicode) (encode : List ℕ → String) (buf : List ℕ)
    → Latin u
    → len (encode buf) ≡ 24
    → (validate_password u (initial_password encode buf) ≡ ok tt)
      ↔ (any u.is_lower (codes (encode buf)) ≡ true)
initial_password_iff u encode buf l sized =
    let policy = validate_password_iff u (initial_password encode buf) in
    let parts : codes (initial_password encode buf) ≡ codes (encode buf) ++ ending =
      codes-append (encode buf) "A1!" in
    let three : len "A1!" ≡ 3 = refl in
    (
      λ valid. ground (
        arith,
        (policy.0 valid).1,
        parts,
        any-append u.is_lower (codes (encode buf)) ending,
        l.upper_a,
        l.digit_one,
        l.mark_only,
      ),
      λ low. policy.1 (
        omega (arith, len-append (encode buf) "A1!", sized, three),
        ground (arith, parts, any-append u.is_lower (codes (encode buf)) ending),
        ground (arith, parts, any-append (counts_upper u) (codes (encode buf)) ending, l.upper_a),
        ground (arith, parts, any-append (counts_digit u) (codes (encode buf)) ending, l.digit_one),
        ground (
          arith,
          parts,
          any-append (counts_symbol u) (codes (encode buf)) ending,
          l.mark,
          l.mark_only,
        ),
      ),
    )
