-- ===== src/Export/RoundTrip.antt =====
-- A file that was written is read back as the table it was made of.
use mathlib.Core.List.{append_assoc, append-nil}
use backend_foundation.Prelude.{
  ℕ, ◌==◌, ◌≡◌, refl, sym, ◌∙◌, ap, false, Bool-cases, inl, inr, Option, none, some, List, [], ◌∷◌,
  ◌++◌, map, find, arith, Option-cases,
}
use backend_foundation.Export.{
  Text, comma, quote, line_feed, carriage_return, is_special, double_quotes, text_of,
  escape_csv_field, join, ExportColumn, header_line, row_line, to_csv,
}
use backend_foundation.Export.Reader.{Table, add_char, end_field, readings, read_csv}

-- A text in front of the first field.
abbrev add_text : Text → Table → Table
add_text [] rows = rows
add_text (c ∷ cs) rows = add_char c (add_text cs rows)

-- What can stand after a field: the end, a comma, or the end of the line.
data Boundary : Text → Type 0 where
  at_end : {t : Text} → t ≡ [] → Boundary t
  at_comma : {t : Text} (rest : Text) → t ≡ comma ∷ rest → Boundary t
  at_line : {t : Text} (rest : Text) → t ≡ carriage_return ∷ line_feed ∷ rest → Boundary t

-- After a field neither a line feed nor a quote stands.
abbrev NotFirst : ℕ → Text → Type 0
NotFirst d [] = Unit
NotFirst d (c ∷ cs) = (c == d) ≡ false

Boundary-NotFirst : (t : Text) → Boundary t → NotFirst line_feed t × NotFirst quote t
Boundary-NotFirst t (at_end e) = rw e (tt, tt)
Boundary-NotFirst t (at_comma rest e) = rw e (refl, refl)
Boundary-NotFirst t (at_line rest e) = rw e (refl, refl)

after_cr-plain :
    (x : Text)
    → NotFirst line_feed x
    → (readings x).after_cr ≡ add_char carriage_return (readings x).plain
unfolding readings
after_cr-plain [] n = refl
after_cr-plain (c ∷ cs) n = rw n refl

at_start-plain : (x : Text) → NotFirst quote x → (readings x).at_start ≡ (readings x).plain
unfolding readings
at_start-plain [] n = refl
at_start-plain (c ∷ cs) n = rw n refl

after_quote-plain : (x : Text) → NotFirst quote x → (readings x).after_quote ≡ (readings x).plain
unfolding readings
after_quote-plain [] n = refl
after_quote-plain (c ∷ cs) n = rw n refl

-- A text without special characters.
abbrev Plain : Text → Type 0
Plain [] = Unit
Plain (c ∷ cs) = (is_special c ≡ false) × Plain cs

find-Plain : (f : Text) → find is_special f ≡ none → Plain f
find-Plain [] e = tt
find-Plain (c ∷ cs) e = elim (Bool-cases (is_special c)) [
  | inl s ↦ absurd (cc (rw s at e))
  | inr n ↦ (n, find-Plain cs (rw n at e))
]

append-NotFirst :
    (d : ℕ) (f t : Text)
    → ((c : ℕ) → is_special c ≡ false → (c == d) ≡ false)
    → Plain f
    → NotFirst d t
    → NotFirst d (f ++ t)
append-NotFirst d [] t h p n = n
append-NotFirst d (c ∷ cs) t h p n = h c p.0

not_line_feed : (c : ℕ) → is_special c ≡ false → (c == line_feed) ≡ false
not_line_feed c n = ground (arith, n)

not_quote : (c : ℕ) → is_special c ≡ false → (c == quote) ≡ false
not_quote c n = ground (arith, n)

not_comma : (c : ℕ) → is_special c ≡ false → (c == comma) ≡ false
not_comma c n = ground (arith, n)

plain-reads :
    (f t : Text)
    → Plain f
    → NotFirst line_feed t
    → (readings (f ++ t)).plain ≡ add_text f (readings t).plain
unfolding readings
plain-reads [] t p n = refl
plain-reads (c ∷ cs) t p n =
    let rest = plain-reads cs t p.1 n in
    let follows = append-NotFirst line_feed cs t not_line_feed p.1 n in
    elim (Bool-cases (c == carriage_return)) [
      | inl cr ↦
          let same : c ≡ carriage_return = ground arith in
          rw (not_comma c p.0, cr)
            (after_cr-plain (cs ++ t) follows
              ∙ ap (add_char carriage_return) rest
              ∙ ap (λ x. add_char x (add_text cs (readings t).plain)) (sym same))
      | inr other ↦ rw (not_comma c p.0, other) (ap (add_char c) rest)
    ]

quoted-reads :
    (f t : Text)
    → (readings (double_quotes f ++ quote ∷ t)).quoted ≡ add_text f (readings t).after_quote
unfolding readings
quoted-reads [] t = refl
quoted-reads (c ∷ cs) t = elim (Bool-cases (c == quote)) [
  | inl q ↦
      let same : c ≡ quote = ground arith in
      rw q (
        ap (add_char quote) (quoted-reads cs t)
        ∙ ap (λ x. add_char x (add_text cs (readings t).after_quote)) (sym same))
  | inr other ↦ rw other (rw other (ap (add_char c) (quoted-reads cs t)))
]

-- A field that was escaped is read as its text, in front of what comes after it.
escaped-reads :
    (v : Option Text) (t : Text)
    → Boundary t
    → (readings (escape_csv_field v ++ t)).at_start ≡ add_text (text_of v) (readings t).plain
unfolding escape_csv_field readings
escaped-reads v t b =
    let (no_line_feed, no_quote) = Boundary-NotFirst t b in
    elim (Option-cases (find is_special (text_of v))) [
      | inl e ↦
          let p = find-Plain (text_of v) e in
          rw e (
            at_start-plain (text_of v ++ t)
              (append-NotFirst quote (text_of v) t not_quote p no_quote)
            ∙ plain-reads (text_of v) t p no_line_feed)
      | inr (c, e) ↦ rw e (
          ap (λ x. (readings x).quoted) (append_assoc (double_quotes (text_of v)) (quote ∷ []) t)
          ∙ quoted-reads (text_of v) t
          ∙ ap (add_text (text_of v)) (after_quote-plain t no_quote))
    ]

add_text-field :
    (f : Text) (fs : List Text) (rows : Table) → add_text f (([] ∷ fs) ∷ rows) ≡ (f ∷ fs) ∷ rows
add_text-field [] fs rows = refl
add_text-field (c ∷ f) fs rows = ap (add_char c) (add_text-field f fs rows)

after_comma : (x : Text) → (readings (comma ∷ x)).plain ≡ end_field (readings x).at_start
unfolding readings
after_comma x = refl

after_line :
    (x : Text)
    → (readings (carriage_return ∷ line_feed ∷ x)).plain ≡ ([] ∷ []) ∷ (readings x).at_start
unfolding readings
after_line x = refl

after_end : (readings []).plain ≡ ([] ∷ []) ∷ []
unfolding readings
after_end = refl

module _ {A : Type 0} (value : ExportColumn A → Option Text) where
  -- The line of one row.
  abbrev line : List (ExportColumn A) → Text
  line columns = join (comma ∷ []) (map (λ c. escape_csv_field (value c)) columns)

  abbrev fields : List (ExportColumn A) → List Text
  fields columns = map (λ c. text_of (value c)) columns

  line-reads :
      (c : ExportColumn A) (cs : List (ExportColumn A)) (t : Text) (rows : Table)
      → Boundary t
      → (readings t).plain ≡ ([] ∷ []) ∷ rows
      → (readings (line (c ∷ cs) ++ t)).at_start ≡ fields (c ∷ cs) ∷ rows
  line-reads c [] t rows b e =
      escaped-reads (value c) t b
      ∙ ap (add_text (text_of (value c))) e
      ∙ add_text-field (text_of (value c)) [] rows
  line-reads c (d ∷ cs) t rows b e =
      let rest = line-reads d cs t rows b e in
      ap (λ x. (readings x).at_start)
        (append_assoc (escape_csv_field (value c)) (comma ∷ line (d ∷ cs)) t)
      ∙ escaped-reads (value c) (comma ∷ (line (d ∷ cs) ++ t)) (at_comma _ refl)
      ∙ ap (add_text (text_of (value c))) (after_comma (line (d ∷ cs) ++ t) ∙ ap end_field rest)
      ∙ add_text-field (text_of (value c)) (fields (d ∷ cs)) rows

abbrev CrLf : Text
CrLf = carriage_return ∷ line_feed ∷ []

module _ {A : Type 0} (column : ExportColumn A) (columns : List (ExportColumn A)) where
  abbrev row_values : A → List Text
  row_values row = fields (λ c. c.value row) (column ∷ columns)

  -- The lines of the rows, after a line that has been read.
  rows-read :
      (value : ExportColumn A → Option Text) (rows : List A)
      → (readings (
          join CrLf
            (line value (column ∷ columns) ∷ map (row_line (column ∷ columns)) rows))).at_start
        ≡ fields value (column ∷ columns) ∷ map row_values rows
  unfolding row_line
  rows-read value [] =
      ap (λ x. (readings x).at_start) (sym (append-nil (line value (column ∷ columns))))
      ∙ line-reads value column columns [] [] (at_end refl) after_end
  rows-read value (row ∷ rows) =
      let rest = rows-read (λ c. c.value row) rows in
      line-reads value column columns _ _ (at_line _ refl)
        (after_line _ ∙ ap (λ x. ([] ∷ []) ∷ x) rest)

-- A CSV file with at least one column is read back as what it was made of: the header, and for each
-- row the text of each of its values, a null being the empty text. This holds for every text, also
-- with commas, quotes and ends of lines in it.
pub csv_round_trip :
    {A : Type 0} (rows : List A) (column : ExportColumn A) (columns : List (ExportColumn A))
    → read_csv (to_csv rows (column ∷ columns))
      ≡ map (λ c. c.header) (column ∷ columns)
        ∷ map (λ row. map (λ c. text_of (c.value row)) (column ∷ columns)) rows
unfolding read_csv to_csv header_line row_line
csv_round_trip rows column columns = rows-read column columns (λ c. some c.header) rows
