-- ===== src/Export/Tests.antt =====
-- A file with a comma, a quote, a carriage return and a null in it.
use backend_foundation.Prelude.{◌≡◌, Option, none, some, List, [], ◌∷◌}
use backend_foundation.Export.{Text, ExportColumn, to_csv}
use backend_foundation.Export.Reader.{read_csv}
use backend_foundation.Export.RoundTrip.{csv_round_trip}

abbrev name_column : ExportColumn (Option Text)
name_column = record { header = 110 ∷ 44 ∷ []; value = λ row. row }

abbrev kind_column : ExportColumn (Option Text)
kind_column = record { header = 107 ∷ []; value = λ row. some (13 ∷ []) }

abbrev names : List (Option Text)
names = some (97 ∷ 34 ∷ 10 ∷ []) ∷ none ∷ []

csv_round_trip_example :
    read_csv (to_csv names (name_column ∷ kind_column ∷ []))
    ≡ ((110 ∷ 44 ∷ []) ∷ (107 ∷ []) ∷ [])
      ∷ ((97 ∷ 34 ∷ 10 ∷ []) ∷ (13 ∷ []) ∷ [])
      ∷ ([] ∷ (13 ∷ []) ∷ [])
      ∷ []
csv_round_trip_example = csv_round_trip names name_column (kind_column ∷ [])
