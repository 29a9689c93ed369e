-- ===== src/Csv/Exporter.antt =====
-- What `exportCsv` writes. A cell is the text that `String` gives of its value, or `none` for a
-- value that is null or undefined.
use mdm.Base.{ℕ, Bool, ◌||◌, Option, none, some, List, [], ◌∷◌, ◌++◌, map, ◌==◌, any, if◌then◌else◌}
use mdm.Base.Text.{Text, join}

abbrev pub double_quote : ℕ
double_quote = 34

abbrev pub comma : ℕ
comma = 44

-- `str.replace(/"/g, '""')`
unfoldable pub doubled : Text → Text
doubled [] = []
doubled (c ∷ cs) =
    let rest = doubled cs in
    if c == double_quote then double_quote ∷ double_quote ∷ rest else c ∷ rest

-- Whether a field wants quotes: it has a comma, a quote, a line feed or a carriage return.
abbrev pub is_special : ℕ → Bool
is_special c = c == comma || (c == double_quote || (c == 10 || c == 13))

unfoldable pub escape_csv_field : Option Text → Text
unfolding doubled
escape_csv_field none = []
escape_csv_field (some t) =
    if any is_special t then double_quote ∷ (doubled t ++ (double_quote ∷ [])) else t

-- `headers.join(',') + '\r\n'`
unfoldable pub csv_line : List (Option Text) → Text
unfolding escape_csv_field
csv_line cells = join (comma ∷ []) (map escape_csv_field cells) ++ (13 ∷ 10 ∷ [])

unfoldable pub csv_lines : List (List (Option Text)) → Text
unfolding csv_line
csv_lines [] = []
csv_lines (row ∷ rows) = csv_line row ++ csv_lines rows

-- The text of the file: the byte order mark, the labels of the columns, and the rows.
unfoldable pub export_csv : List (Option Text) → List (List (Option Text)) → Text
unfolding csv_lines
export_csv labels rows = 65279 ∷ csv_lines (labels ∷ rows)
