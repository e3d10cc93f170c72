-- ===== src/Documents/Escaping.antt =====
-- escapePDFString of repo/internal/service/document.go against a reader of PDF string literals.
use task.Base.{
  ℕ, ◌+◌, ◌-◌, ◌≡◌, refl, inl, inr, Bool, true, false, List, [], ◌∷◌, ◌++◌, ◌==◌, if◌then◌else◌,
  Bool-cases, arith, Option, some, none,
}
use task.Documents.Pdf.{backslash, opening, closing, special, escape_pdf_string}

abbrev pub prepend : ℕ → Option (List ℕ × List ℕ) → Option (List ℕ × List ℕ)
prepend c none = none
prepend c (some (text, rest)) = some (c ∷ text, rest)

-- A literal from behind its first parenthesis, as PDF 1.4 reads it: an escaped special character
-- stands for itself, parentheses nest, and the one that closes the first ends the literal. The
-- answer is the text and what follows; other escapes are refused.
unfoldable pub read_literal : (escaped : Bool) (depth : ℕ) → List ℕ → Option (List ℕ × List ℕ)
read_literal escaped depth [] = none
read_literal true depth (c ∷ s) =
    let rest = prepend c (read_literal false depth s) in if special c then rest else none
read_literal false depth (c ∷ s) =
    let escape = read_literal true depth s in
    let deeper = prepend c (read_literal false (depth + 1) s) in
    let shallower = prepend c (read_literal false (depth - 1) s) in
    let plain = prepend c (read_literal false depth s) in
    if c == backslash
    then escape
    else if c == opening
    then deeper
    else if c == closing
    then if depth == 0 then some ([], s) else shallower
    else plain

-- A reader of PDF literals that is given an escaped text, the closing parenthesis and anything
-- behind it reads exactly the text and stops before what is behind.
pub read_literal-escape_pdf_string :
    (s rest : List ℕ)
    → read_literal false 0 (escape_pdf_string s ++ closing ∷ rest) ≡ some (s, rest)
unfolding read_literal escape_pdf_string
read_literal-escape_pdf_string [] rest = refl
read_literal-escape_pdf_string (c ∷ s) rest = elim (Bool-cases (special c)) [
  | inl hit ↦ ground (arith, read_literal-escape_pdf_string s rest)
  | inr miss ↦ ground (arith, read_literal-escape_pdf_string s rest)
]
