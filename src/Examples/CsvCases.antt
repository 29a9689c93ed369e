-- ===== src/Examples/CsvCases.antt =====
-- CSV: a report with a quote, a comma and a missing value.
use mdm.Base.{◌≡◌, refl, Option, none, some, List, [], ◌∷◌, map, length}
use mdm.Base.Text.{Text, codes, drop}
use mdm.Csv.Exporter.{export_csv}
use mdm.Csv.Reading.{cell_text, read_rows, read_rows-export_csv}

abbrev labels : List (Option Text)
labels = some (codes "Device") ∷ some (codes "Note") ∷ []

abbrev rows : List (List (Option Text))
rows = (some (codes "Pixel, 8") ∷ none ∷ []) ∷ (some (codes "a\"b") ∷ some (codes "ok") ∷ []) ∷ []

read_rows-export_csv_example :
    read_rows (map length (labels ∷ rows)) (drop 1 (export_csv labels rows))
    ≡ map (map cell_text) (labels ∷ rows)
read_rows-export_csv_example = read_rows-export_csv labels rows refl
