-- ===== src/Documents/PdfLayout.antt =====
-- The offsets that RenderSimplePDF of repo/internal/service/document.go collects.
use task.Base.{
  ℕ, zero, suc, ◌+◌, ◌-◌, ◌*◌, ◌/◌, ◌%◌, ◌≤◌, ◌<◌, ◌≡◌, refl, ◌∙◌, arith, inl, inr, Bool, true,
  ◌&&◌, leb, Bool-cases, ltb, List, [], ◌∷◌, ◌++◌, length,
}
use mathlib.Core.List.{append_assoc, append-nil}
use task.Documents.Pdf.{
  bytes, content_stream, Writer, write, write_obj, digits, decimal, zeros, padded, xref_entries,
  catalog, pages, page, stream_head, font, header, objects, finish, render_simple_pdf,
}

newline : bytes "a\n" ≡ 97 ∷ 10 ∷ []
newline = refl

-- The text stands in the file at the offset.
pub record StandsAt (file : List ℕ) (offset : ℕ) (text : List ℕ) : Type 0 where
  pub front : List ℕ
  pub back : List ℕ
  pub split : file ≡ front ++ (text ++ back)
  pub at : length front ≡ offset

-- Each offset is the place of its text.
abbrev pub Placed : List ℕ → List ℕ → List (List ℕ) → Type 0
Placed file [] [] = Unit
Placed file (off ∷ offsets) (text ∷ texts) = StandsAt file off text × Placed file offsets texts
Placed file _ _ = ⊥

StandsAt-append :
    (file more : List ℕ) (off : ℕ) (text : List ℕ)
    → StandsAt file off text
    → StandsAt (file ++ more) off text
StandsAt-append file more off text s = record {
  front = s.front;
  back = s.back ++ more;
  split = rw s.split (simp append_assoc);
  at = s.at;
}

Placed-append :
    (file more : List ℕ) (offsets : List ℕ) (texts : List (List ℕ))
    → Placed file offsets texts
    → Placed (file ++ more) offsets texts
Placed-append file more [] [] p = tt
Placed-append file more [] (text ∷ texts) p = absurd p
Placed-append file more (off ∷ offsets) [] p = absurd p
Placed-append file more (off ∷ offsets) (text ∷ texts) p =
    (StandsAt-append file more off text p.0, Placed-append file more offsets texts p.1)

Placed-snoc :
    (file : List ℕ) (offsets : List ℕ) (texts : List (List ℕ)) (off : ℕ) (text : List ℕ)
    → Placed file offsets texts
    → StandsAt file off text
    → Placed file (offsets ++ off ∷ []) (texts ++ text ∷ [])
Placed-snoc file [] [] off text p s = (s, tt)
Placed-snoc file [] (t ∷ texts) off text p s = absurd p
Placed-snoc file (o ∷ offsets) [] off text p s = absurd p
Placed-snoc file (o ∷ offsets) (t ∷ texts) off text p s =
    (p.0, Placed-snoc file offsets texts off text p.1 s)

-- A writer whose offsets are the places of the objects written.
abbrev pub Wrote : Writer → List (List ℕ) → Type 0
Wrote w texts = Placed w.buf w.offsets texts

write-Wrote :
    (s : List ℕ) (w : Writer) (texts : List (List ℕ)) → Wrote w texts → Wrote (write s w) texts
unfolding write
write-Wrote s w texts p = Placed-append w.buf s w.offsets texts p

write_obj-Wrote :
    (s : List ℕ) (w : Writer) (texts : List (List ℕ))
    → Wrote w texts
    → Wrote (write_obj s w) (texts ++ s ∷ [])
unfolding write_obj
write_obj-Wrote s w texts p =
    Placed-snoc (w.buf ++ s) w.offsets texts (length w.buf) s
      (Placed-append w.buf s w.offsets texts p)
      (record { front = w.buf; back = []; split = simp append-nil; at = refl })

-- The five objects, as far as they are written at once.
abbrev pub object_texts : ℕ → List (List ℕ)
object_texts stream_len = catalog ∷ pages ∷ page ∷ stream_head stream_len ∷ font ∷ []

objects-Wrote : (stream : List ℕ) → Wrote (objects stream) (object_texts (length stream))
unfolding objects
objects-Wrote stream = write_obj-Wrote font _ _ (
    write-Wrote _ _ _ (
      write-Wrote stream _ _ (
        write_obj-Wrote (stream_head (length stream)) _ _ (
          write_obj-Wrote page _ _ (
            write_obj-Wrote pages _ _
              (write_obj-Wrote catalog (record { buf = header; offsets = [] }) [] tt))))))

abbrev pub every : (ℕ → Bool) → List ℕ → Bool
every p [] = true
every p (c ∷ text) = p c && every p text

-- The number that decimal digits stand for.
abbrev pub number_from : ℕ → List ℕ → ℕ
number_from n [] = n
number_from n (c ∷ text) = number_from (n * 10 + (c - 48)) text

abbrev pub number : List ℕ → ℕ
number text = number_from 0 text

number_from-append :
    (n : ℕ) (text : List ℕ) (c : ℕ)
    → number_from n (text ++ c ∷ []) ≡ number_from n text * 10 + (c - 48)
number_from-append n [] c = refl
number_from-append n (d ∷ text) c = number_from-append (n * 10 + (d - 48)) text c

number-digits : (fuel n : ℕ) → n < fuel → number (digits fuel n) ≡ n
unfolding digits
number-digits zero n h = absurd (omega (arith, h))
number-digits (suc fuel) n h = elim (Bool-cases (ltb n 10)) [
  | inl small ↦ rw small (ground arith)
  | inr large ↦
      let front = number-digits fuel (n / 10) (ground arith) in
      rw large (number_from-append 0 (digits fuel (n / 10)) (48 + n % 10) ∙ rw front (omega arith))
]

number-decimal : (n : ℕ) → number (decimal n) ≡ n
unfolding decimal
number-decimal n = number-digits (suc n) n (omega arith)

number-zeros : (k : ℕ) (text : List ℕ) → number (zeros k ++ text) ≡ number text
number-zeros zero text = refl
number-zeros (suc k) text = number-zeros k text

abbrev pub is_digit : ℕ → Bool
is_digit c = leb 48 c && leb c 57

-- The text is a decimal of the number, made of the digits 0 to 9 alone.
pub record Shows (n : ℕ) (text : List ℕ) : Type 0 where
  pub value : number text ≡ n
  pub decimal_digits : every is_digit text ≡ true

every-append :
    (a b : List ℕ)
    → every is_digit a ≡ true
    → every is_digit b ≡ true
    → every is_digit (a ++ b) ≡ true
every-append [] b h k = k
every-append (c ∷ a) b h k = ground (arith, every-append a b)

every-digits : (fuel n : ℕ) → every is_digit (digits fuel n) ≡ true
unfolding digits
every-digits zero n = refl
every-digits (suc fuel) n = elim (Bool-cases (ltb n 10)) [
  | inl small ↦ rw small (ground arith)
  | inr large ↦ rw large (
      every-append (digits fuel (n / 10)) ((48 + n % 10) ∷ []) (every-digits fuel (n / 10))
        (ground arith))
]

every-zeros : (k : ℕ) → every is_digit (zeros k) ≡ true
every-zeros zero = refl
every-zeros (suc k) = every-zeros k

decimal-Shows : (n : ℕ) → Shows n (decimal n)
unfolding decimal
decimal-Shows n = record { value = number-decimal n; decimal_digits = every-digits (suc n) n }

padded-Shows : (n : ℕ) → Shows n (padded n)
unfolding padded
padded-Shows n = record {
  value = number-zeros (10 - length (decimal n)) (decimal n) ∙ number-decimal n;
  decimal_digits =
      every-append (zeros (10 - length (decimal n))) (decimal n)
        (every-zeros (10 - length (decimal n))) (decimal-Shows n).decimal_digits;
}

-- The entries of the table, each with an offset in at least ten digits.
pub data Entries : List ℕ → List ℕ → Type 0 where
  no_entry : Entries [] []
  entry :
      {off : ℕ} {offsets texts : List ℕ} (text : List ℕ)
      → Shows off text
      → 10 ≤ length text
      → Entries offsets texts
      → Entries (off ∷ offsets) ((text ++ bytes " 00000 n \n") ++ texts)

length-zeros : (k : ℕ) (text : List ℕ) → length (zeros k ++ text) ≡ k + length text
length-zeros zero text = omega arith
length-zeros (suc k) text = ground (arith, length-zeros k text)

xref_entries-Entries : (offsets : List ℕ) → Entries offsets (xref_entries offsets)
unfolding padded
xref_entries-Entries [] = no_entry
xref_entries-Entries (off ∷ offsets) =
    entry (padded off) (padded-Shows off)
      (omega (arith, length-zeros (10 - length (decimal off)) (decimal off)))
      (xref_entries-Entries offsets)

finish-Wrote :
    (w : Writer) (texts : List (List ℕ)) → Wrote w texts → Placed (finish w) w.offsets texts
unfolding finish
finish-Wrote w texts p = Placed-append w.buf _ w.offsets texts p

five : (stream : List ℕ) → decimal (length (objects stream).offsets + 1) ≡ bytes "6"
unfolding objects write write_obj decimal digits
five stream = refl

-- Behind all else in the rendered document stand a cross-reference table and a trailer whose numbers,
-- read as decimals of the digits 0 to 9, are these: each entry of the table, in the order of the five
-- objects, is the offset in the file at which the text of that object begins, in at least ten digits,
-- and the number after startxref is the offset at which the table begins.
pub render_simple_pdf-Placed :
    (title generated : List ℕ) (fields : List (List ℕ × List ℕ))
    → let stream = content_stream title generated fields in
      (offsets entries start : List ℕ) × (table : ℕ) × Placed
        (render_simple_pdf title generated fields)
        offsets
        (object_texts (length stream))
      × Entries offsets entries
      × Shows table start
      × StandsAt (render_simple_pdf title generated fields) table (
          bytes "xref\n0 6\n0000000000 65535 f \n"
          ++ (entries
              ++ (bytes "trailer\n<< /Size 6 /Root 1 0 R >>\nstartxref\n"
                  ++ (start ++ bytes "\n%%EOF\n"))))
unfolding render_simple_pdf finish
render_simple_pdf-Placed title generated fields =
    let stream = content_stream title generated fields in
    let w = objects stream in
    (
      w.offsets,
      xref_entries w.offsets,
      decimal (length w.buf),
      length w.buf,
      finish-Wrote w _ (objects-Wrote stream),
      xref_entries-Entries w.offsets,
      decimal-Shows (length w.buf),
      record {
        front = w.buf;
        back = [];
        split = simp (five stream, append_assoc, append-nil);
        at = refl;
      },
    )
