-- ===== src/Base/Loops.antt =====
-- A state after a list of events, and what every event keeps.
use mathlib.Core.List.{List, [], ◌∷◌}

module _ {ℓ κ} {S : Type ℓ} {E : Type κ} where
  abbrev pub run : (S → E → S) → S → List E → S
  run step s [] = s
  run step s (e ∷ es) = run step (step s e) es

  pub run-keeps {μ} :
      (P : S → Type μ) (step : S → E → S)
      → ((s : S) (e : E) → P s → P (step s e))
      → (s : S) (es : List E) → P s
      → P (run step s es)
  run-keeps P step keep s [] h = h
  run-keeps P step keep s (e ∷ es) h = run-keeps P step keep (step s e) es (keep s e h)
