-- ===== src/Export.antt =====
-- src/shared/utils/export.ts: the text of a CSV file. A text is a list of character codes; `String` of
-- a number or a Boolean is left to the caller.
use backend_foundation.Prelude.{
  ℕ, ◌==◌, ◌||◌, Bool, true, false, Option, none, some, List, [], ◌∷◌, ◌++◌, map, find, is_some,
  if◌then◌else◌,
}
pub mod Reader
pub mod RoundTrip
mod Tests

abbrev pub Text : Type 0
Text = List ℕ

abbrev pub comma : ℕ
comma = 44

abbrev pub quote : ℕ
quote = 34

abbrev pub line_feed : ℕ
line_feed = 10

abbrev pub carriage_return : ℕ
carriage_return = 13

-- `str.includes(',') || str.includes('"') || str.includes('\n')`
abbrev pub is_special : ℕ → Bool
is_special c = c == comma || c == quote || c == line_feed

-- `str.replace(/"/g, '""')`
abbrev pub double_quotes : Text → Text
double_quotes [] = []
double_quotes (c ∷ cs) =
    let rest = double_quotes cs in if c == quote then quote ∷ quote ∷ rest else c ∷ rest

abbrev pub text_of : Option Text → Text
text_of none = []
text_of (some t) = t

unfoldable pub escape_csv_field : Option Text → Text
escape_csv_field value =
    if is_some (find is_special (text_of value))
    then quote ∷ (double_quotes (text_of value) ++ quote ∷ [])
    else text_of value

-- Array.prototype.join
abbrev pub join : Text → List Text → Text
join separator [] = []
join separator (x ∷ []) = x
join separator (x ∷ y ∷ rest) = x ++ (separator ++ join separator (y ∷ rest))

-- ExportColumn
pub record ExportColumn (A : Type 0) : Type 0 where
  pub header : Text
  pub value : A → Option Text

unfoldable pub header_line : {A : Type 0} → List (ExportColumn A) → Text
unfolding escape_csv_field
header_line columns = join (comma ∷ []) (map (λ c. escape_csv_field (some c.header)) columns)

unfoldable pub row_line : {A : Type 0} → List (ExportColumn A) → A → Text
unfolding escape_csv_field
row_line columns row = join (comma ∷ []) (map (λ c. escape_csv_field (c.value row)) columns)

unfoldable pub to_csv : {A : Type 0} → List A → List (ExportColumn A) → Text
unfolding header_line row_line
to_csv rows columns =
    join (carriage_return ∷ line_feed ∷ []) (header_line columns ∷ map (row_line columns) rows)
