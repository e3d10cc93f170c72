-- ===== src/Webhooks/Mapping.antt =====
-- applyFieldMapping of repo/internal/service/webhook.go. The package encoding/json is a parameter; a
-- mapping is the list of its entries in the order in which `range` visits them.
use task.Base.{ℕ, Option, none, some, List, [], ◌∷◌, String, str_eq, if◌then◌else◌}

-- The top-level fields of a decoded body, and the two directions of the codec.
pub record Json : Type 1 where
  pub Value : Type 0
  pub unmarshal : List ℕ → Option (List (String × Value))
  pub marshal : List (String × Value) → Option (List ℕ)

module _ {V : Type 0} where
  abbrev pub lookup : String → List (String × V) → Option V
  lookup k [] = none
  lookup k ((j, v) ∷ m) = if str_eq j k then some v else lookup k m

  abbrev pub remove : String → List (String × V) → List (String × V)
  remove k [] = []
  remove k ((j, v) ∷ m) = let rest = remove k m in if str_eq j k then rest else (j, v) ∷ rest

  -- `m[k] = v`
  abbrev pub store : String → V → List (String × V) → List (String × V)
  store k v m = (k, v) ∷ remove k m

  abbrev pub rename_found : String → String → Option V → List (String × V) → List (String × V)
  rename_found src tgt none m = m
  rename_found src tgt (some v) m =
      if str_eq src tgt then store tgt v m else remove src (store tgt v m)

  abbrev pub rename : String → String → List (String × V) → List (String × V)
  rename src tgt m = rename_found src tgt (lookup src m) m

  unfoldable pub rename_all : List (String × String) → List (String × V) → List (String × V)
  rename_all [] m = m
  rename_all ((src, tgt) ∷ mapping) m = rename_all mapping (rename src tgt m)

module _ (json : Json) where
  open json use {Value, unmarshal, marshal}

  abbrev pub encoded : List ℕ → Option (List ℕ) → List ℕ
  encoded body none = body
  encoded body (some out) = out

  abbrev pub mapped : List ℕ → List (String × String) → Option (List (String × Value)) → List ℕ
  mapped body mapping none = body
  mapped body mapping (some m) = encoded body (marshal (rename_all mapping m))

  unfoldable pub apply_field_mapping : List ℕ → List (String × String) → List ℕ
  apply_field_mapping body [] = body
  apply_field_mapping body (entry ∷ mapping) = mapped body (entry ∷ mapping) (unmarshal body)
