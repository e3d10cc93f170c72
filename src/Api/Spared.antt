-- ===== src/Api/Spared.antt =====
-- Which errors a chain of calls may answer with.
use task.Base.{◌≡◌, refl, Bool, true, false}
use task.Domain.Errors.{Error, Result, ok, err, fail_if, query, ◌>>=◌, ◌>>◌}

-- If the call refuses, it is with an error that has the property.
pub record Spared {ℓ} (P : Error → Type 0) {A : Type ℓ} (r : Result A) : Type ℓ where
  pub spares : (e : Error) → r ≡ err e → P e

module _ {P : Error → Type 0} where
  pub ok-Spared {ℓ} : {A : Type ℓ} (a : A) → Spared P (ok a)
  ok-Spared a = record { spares = λ e h. absurd (cc) }

  pub err-Spared {ℓ} : {A : Type ℓ} (e : Error) → P e → Spared P {A = A} (err e)
  err-Spared e h = record { spares = λ e' same. let eq : e ≡ e' = cc in rw (← eq) h }

  pub bind-Spared {ℓ κ} :
      {A : Type ℓ} {B : Type κ} (m : Result A) (f : A → Result B)
      → Spared P m
      → ((a : A) → m ≡ ok a → Spared P (f a))
      → Spared P (m >>= f)
  bind-Spared (err e) f h k = err-Spared e (h.spares e refl)
  bind-Spared (ok a) f h k = k a refl

  -- A guard before the rest.
  pub guard-Spared {ℓ} :
      {B : Type ℓ} (b : Bool) (e : Error) (rest : Result B)
      → P e
      → Spared P rest
      → Spared P (fail_if b e >> rest)
  guard-Spared true e rest h k = err-Spared e h
  guard-Spared false e rest h k = k

  -- A call of the database that does not fail in the driver.
  pub query-Spared {ℓ} : {A : Type ℓ} (b : Bool) (a : A) → b ≡ false → Spared P (query b a)
  query-Spared true a h = absurd (cc)
  query-Spared false a h = ok-Spared a
