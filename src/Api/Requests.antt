-- ===== src/Api/Requests.antt =====
-- What the handlers of repo/internal/api/handlers share: the parsers of identifiers, times and numbers,
-- which are uuid.Parse, time.Parse with one layout each, and strconv.Atoi, and the answers.
use task.Base.{ℕ, Option, none, some, String}
use task.Base.Int.{ℤ, pos}
use task.Domain.Errors.{Error, Result, ok, err}

pub record Parsers : Type 0 where
  pub uuid : String → Option ℕ
  pub rfc3339 : String → Option ℕ
  pub datetime_local : String → Option ℕ
  pub date_only : String → Option ℕ
  pub atoi : String → Option ℤ

-- `parseTime`
unfoldable pub parse_time : Parsers → String → Option ℕ
parse_time p s = elim (p.rfc3339 s) [ some t ↦ some t | none ↦ p.datetime_local s ]

-- An answer with a status and a body, or with a status and the text of an error.
pub data Response (A : Type 0) : Type 0 where
  answer : (status : ℕ) → A → Response A
  refuse : (status : ℕ) → Response A

abbrev pub status_of : {A : Type 0} → Response A → ℕ
status_of (answer n a) = n
status_of (refuse n) = n

-- `if err != nil { c.JSON(http.StatusBadRequest, ...); return }`
infixl 5 ◌or_400◌
abbrev pub ◌or_400◌ {ℓ} : {V : Type ℓ} {A : Type 0} → Option V → (V → Response A) → Response A
none or_400 next = refuse 400
some v or_400 next = next v

-- What a call of a service gives, with the map of its errors to a status.
abbrev pub respond : {A B : Type 0} → (Error → ℕ) → (status : ℕ) → (A → B) → Result A → Response B
respond status_of_error status body (ok a) = answer status (body a)
respond status_of_error status body (err e) = refuse (status_of_error e)

-- `limit, _ := strconv.Atoi(c.DefaultQuery(key, def))`: a text that is no number counts as 0.
abbrev pub int_or_zero : Parsers → Option String → (def : ℤ) → ℤ
int_or_zero p none def = def
int_or_zero p (some s) def = elim (p.atoi s) [ none ↦ pos 0 | some n ↦ n ]
