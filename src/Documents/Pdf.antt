-- ===== src/Documents/Pdf.antt =====
-- RenderSimplePDF of repo/internal/service/document.go. A text is the list of its bytes. `generated`
-- is the formatted time, and `fields` the map in the order in which `range` visits it.
use task.Base.{
  ℕ, zero, suc, ◌+◌, ◌-◌, ◌/◌, ◌%◌, Bool, List, [], ◌∷◌, ◌++◌, String, codes, length, ltb, ◌==◌,
  ◌||◌, if◌then◌else◌,
}

-- `strings.NewReplacer` with one-byte keys replaces byte by byte.
abbrev pub backslash : ℕ
backslash = 92

abbrev pub opening : ℕ
opening = 40

abbrev pub closing : ℕ
closing = 41

abbrev pub special : ℕ → Bool
special c = c == backslash || c == opening || c == closing

unfoldable pub escape_pdf_string : List ℕ → List ℕ
escape_pdf_string [] = []
escape_pdf_string (c ∷ s) =
    let rest = escape_pdf_string s in if special c then backslash ∷ c ∷ rest else c ∷ rest

-- `%d`
unfoldable pub digits : (fuel : ℕ) → ℕ → List ℕ
digits zero n = []
digits (suc fuel) n =
    let front = digits fuel (n / 10) in
    if ltb n 10 then (48 + n) ∷ [] else front ++ (48 + n % 10) ∷ []

unfoldable pub decimal : ℕ → List ℕ
unfolding digits
decimal n = digits (suc n) n

abbrev pub zeros : ℕ → List ℕ
zeros zero = []
zeros (suc n) = 48 ∷ zeros n

-- `%010d`
unfoldable pub padded : ℕ → List ℕ
padded n = zeros (10 - length (decimal n)) ++ decimal n

-- The fixed texts are ASCII.
abbrev pub bytes : String → List ℕ
bytes s = codes s

abbrev pub shown_text : List ℕ → List ℕ
shown_text s = bytes "(" ++ (escape_pdf_string s ++ bytes ") Tj\n")

abbrev pub field_lines : List (List ℕ × List ℕ) → List ℕ
field_lines [] = []
field_lines ((k, v) ∷ fields) =
    bytes "0 -18 Td\n" ++ (shown_text (k ++ (bytes ": " ++ v)) ++ field_lines fields)

unfoldable pub content_stream : List ℕ → List ℕ → List (List ℕ × List ℕ) → List ℕ
content_stream title generated fields =
    bytes "BT\n/F1 18 Tf\n72 760 Td\n"
    ++ (shown_text title
        ++ (bytes
              "/F1 11 Tf\n0 -28 Td\n(HarborWorks confirmation document) Tj\n0 -22 Td\n(Generated: "
            ++ (escape_pdf_string generated
                ++ (bytes ") Tj\n" ++ (field_lines fields ++ bytes "ET\n")))))

-- `buf` and `offsets`.
pub record Writer : Type 0 where
  pub buf : List ℕ
  pub offsets : List ℕ

unfoldable pub write : List ℕ → Writer → Writer
write s w = record w { buf = w.buf ++ s }

unfoldable pub write_obj : List ℕ → Writer → Writer
write_obj s w = record { buf = w.buf ++ s; offsets = w.offsets ++ length w.buf ∷ [] }

abbrev pub catalog : List ℕ
catalog = bytes "1 0 obj\n<< /Type /Catalog /Pages 2 0 R >>\nendobj\n"

abbrev pub pages : List ℕ
pages = bytes "2 0 obj\n<< /Type /Pages /Kids [3 0 R] /Count 1 >>\nendobj\n"

abbrev pub page : List ℕ
page =
    bytes
      "3 0 obj\n<< /Type /Page /Parent 2 0 R /MediaBox [0 0 612 792] /Contents 4 0 R /Resources << /Font << /F1 5 0 R >> >> >>\nendobj\n"

abbrev pub stream_head : ℕ → List ℕ
stream_head stream_len =
    bytes "4 0 obj\n<< /Length " ++ (decimal stream_len ++ bytes " >>\nstream\n")

abbrev pub font : List ℕ
font = bytes "5 0 obj\n<< /Type /Font /Subtype /Type1 /BaseFont /Helvetica >>\nendobj\n"

abbrev pub header : List ℕ
header = bytes "%PDF-1.4\n%" ++ (255 ∷ 255 ∷ 255 ∷ 255 ∷ 10 ∷ [])

-- The buffer before the cross-reference table.
unfoldable pub objects : List ℕ → Writer
objects stream =
    let w₀ : Writer = record { buf = header; offsets = [] } in
    let w₃ = write_obj page (write_obj pages (write_obj catalog w₀)) in
    let w₄ =
      write (bytes "\nendstream\nendobj\n")
        (write stream (write_obj (stream_head (length stream)) w₃)) in
    write_obj font w₄

abbrev pub xref_entry : ℕ → List ℕ
xref_entry off = padded off ++ bytes " 00000 n \n"

abbrev pub xref_entries : List ℕ → List ℕ
xref_entries [] = []
xref_entries (off ∷ offsets) = xref_entry off ++ xref_entries offsets

abbrev pub xref_table : List ℕ → List ℕ
xref_table offsets =
    bytes "xref\n0 "
    ++ (decimal (length offsets + 1) ++ (bytes "\n0000000000 65535 f \n" ++ xref_entries offsets))

abbrev pub trailer : List ℕ → ℕ → List ℕ
trailer offsets xref_offset =
    bytes "trailer\n<< /Size "
    ++ (decimal (length offsets + 1)
        ++ (bytes " /Root 1 0 R >>\nstartxref\n" ++ (decimal xref_offset ++ bytes "\n%%EOF\n")))

unfoldable pub finish : Writer → List ℕ
finish w = w.buf ++ (xref_table w.offsets ++ trailer w.offsets (length w.buf))

unfoldable pub render_simple_pdf : List ℕ → List ℕ → List (List ℕ × List ℕ) → List ℕ
render_simple_pdf title generated fields = finish (objects (content_stream title generated fields))
