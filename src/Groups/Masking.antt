-- ===== src/Groups/Masking.antt =====
-- MaskName and MaskEmail of repo/internal/domain/models.go. A text is the sequence of its code points;
-- MaskEmail works on bytes, which are the code points if the part before the @ is ASCII.
use task.Base.{Option, none, some, String, if◌then◌else◌, ◌==◌}
use Prim.Native.Char.{Char, code}
use Prim.Native.String.{[], ◌∷◌, ◌++◌}

abbrev pub stars : String → String
stars [] = []
stars (c ∷ s) = "*" ++ stars s

unfoldable pub mask_name : String → String
mask_name [] = []
mask_name (c ∷ []) = c ∷ "*"
mask_name (c ∷ d ∷ s) = c ∷ stars (d ∷ s)

-- The part before the first @, and the rest from the @ on.
abbrev pub push : Char → Option (String × String) → Option (String × String)
push c none = none
push c (some (local, domain)) = some (c ∷ local, domain)

unfoldable pub split_at : String → Option (String × String)
split_at [] = none
split_at (c ∷ s) = let rest = push c (split_at s) in if code c == 64 then some ([], c ∷ s) else rest

abbrev pub mask_local : String → Option (String × String) → String
mask_local email none = mask_name email
mask_local email (some ([], domain)) = mask_name email
mask_local email (some (c ∷ [], domain)) = c ∷ ("*" ++ domain)
mask_local email (some (c ∷ d ∷ s, domain)) = c ∷ (stars (d ∷ s) ++ domain)

unfoldable pub mask_email : String → String
mask_email email = mask_local email (split_at email)
