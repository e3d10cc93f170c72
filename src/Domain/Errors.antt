-- ===== src/Domain/Errors.antt =====
-- The sentinel errors of repo/internal/domain/models.go, and results that may carry one.
-- `errors.Join(ErrX, detail)` is read by `errors.Is` as `ErrX`, so the detail is left out.
-- `database` stands for an error of the database driver, `internal` for one with no sentinel.
use task.Base.{◌≡◌, refl, ◌⊎◌, inl, inr, Bool, true, false, Option, none, some}

pub data Error : Type 0 where
  not_found invalid_input capacity_exceed conflict unauthorized forbidden blacklisted locked : Error
  captcha_required captcha_invalid password_policy credential_invalid session_expired : Error
  idempotency_mismatch oversold optimistic_lock deadline_passed already_joined lead_time : Error
  cutoff daily_limit overlap invalid_transition database internal : Error

-- The pair of a value and an error that a Go function returns: one of the two is nil.
pub data Result {ℓ} (V : Type ℓ) : Type ℓ where
  err : Error → Result V
  ok : V → Result V

-- `if c { return nil, e }`
abbrev pub fail_if : Bool → Error → Result (Unit {0})
fail_if true e = err e
fail_if false e = ok tt

-- `if err != nil { return nil, err }`
infixl 5 ◌>>=◌ ◌>>◌
abbrev pub ◌>>=◌ {ℓ κ} : {V : Type ℓ} {W : Type κ} → Result V → (V → Result W) → Result W
err e >>= next = err e
ok v >>= next = next v

-- A call of the database that either fails in the driver, with no effect, or answers.
abbrev pub query {ℓ} : {V : Type ℓ} → Bool → V → Result V
query true v = err database
query false v = ok v

abbrev pub ◌>>◌ {ℓ} : {W : Type ℓ} → Result (Unit {0}) → Result W → Result W
checked >> rest = checked >>= λ _. rest

-- A row, or ErrNotFound where pgx.ErrNoRows came back.
abbrev pub found {ℓ} : {V : Type ℓ} → Option V → Result V
found none = err not_found
found (some row) = ok row

-- To split on a result and keep the equation.
pub Result-cases {ℓ} :
    {V : Type ℓ} (res : Result V) → ((v : V) × (res ≡ ok v)) ⊎ ((e : Error) × (res ≡ err e))
Result-cases (err e) = inr (e, refl)
Result-cases (ok v) = inl (v, refl)
