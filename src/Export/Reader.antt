-- ===== src/Export/Reader.antt =====
-- A reader of CSV files as RFC 4180 describes them, independent of the writer: lines end with CR LF,
-- fields with a comma, and a field in quotes has each of its quotes twice.
use backend_foundation.Prelude.{ℕ, ◌==◌, List, [], ◌∷◌, if◌then◌else◌}
use backend_foundation.Export.{Text, comma, quote, line_feed, carriage_return}

abbrev pub Table : Type 0
Table = List (List Text)

-- One more character in the first field.
abbrev pub add_char : ℕ → Table → Table
add_char c [] = []
add_char c ([] ∷ rows) = [] ∷ rows
add_char c ((f ∷ fs) ∷ rows) = ((c ∷ f) ∷ fs) ∷ rows

-- The field that ends here, in front of the fields of the same line.
abbrev pub end_field : Table → Table
end_field [] = []
end_field (row ∷ rows) = ([] ∷ row) ∷ rows

abbrev pub end_row : Table → Table
end_row rows = ([] ∷ []) ∷ rows

-- What a text is read as, by the place where it stands: at the start of a field, in a field without
-- quotes, there after a CR, in quotes, and in quotes after a quote.
pub record Readings : Type 0 where
  pub at_start : Table
  pub plain : Table
  pub after_cr : Table
  pub quoted : Table
  pub after_quote : Table

abbrev pub one_empty : Table
one_empty = ([] ∷ []) ∷ []

abbrev pub read_plain : ℕ → Readings → Table
read_plain c r =
    if c == comma
    then end_field r.at_start
    else if c == carriage_return
    then r.after_cr
    else add_char c r.plain

unfoldable pub readings : Text → Readings
readings [] = record {
  at_start = one_empty;
  plain = one_empty;
  after_cr = add_char carriage_return one_empty;
  quoted = one_empty;
  after_quote = one_empty;
}
readings (c ∷ cs) =
    let r = readings cs in
    record {
      at_start = if c == quote then r.quoted else read_plain c r;
      plain = read_plain c r;
      after_cr =
          if c == line_feed then end_row r.at_start else add_char carriage_return (read_plain c r);
      quoted = if c == quote then r.after_quote else add_char c r.quoted;
      after_quote = if c == quote then add_char quote r.quoted else read_plain c r;
    }

unfoldable pub read_csv : Text → Table
unfolding readings
read_csv text = (readings text).at_start
