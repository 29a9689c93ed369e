-- ===== src/Csv/Reading.antt =====
-- A reader of CSV text in the manner of RFC 4180, the independent description of what
-- csv-exporter.ts writes.
use mdm.Base.{
  ℕ, zero, suc, ◌≡◌, refl, ap, sym, ◌∙◌, Bool, true, false, ◌||◌, Option, none, some, List, [], ◌∷◌,
  ◌++◌, map, arith, ◌==◌, ==_iff, any, all, length, get_or, if◌then◌else◌, Bool-cases, inl, inr,
}
use mathlib.Core.List.{append_assoc}
use mdm.Base.Text.{Text, join, drop}
use mdm.Csv.Exporter.{
  double_quote, comma, doubled, is_special, escape_csv_field, csv_line, csv_lines, export_csv,
}

abbrev pub put : ℕ → Text × Text → Text × Text
put c r = (c ∷ r.0, r.1)

-- The rest of a quoted field, and what stands behind its closing quote.
unfoldable pub read_quoted : Text → Text × Text
read_quoted [] = ([], [])
read_quoted (c ∷ []) = if c == double_quote then ([], []) else (c ∷ [], [])
read_quoted (c ∷ d ∷ cs) =
    let pair = read_quoted cs in
    let next = read_quoted (d ∷ cs) in
    if c == double_quote
    then (if d == double_quote then put double_quote pair else ([], d ∷ cs))
    else put c next

-- A field without quotes ends before a comma or a line end.
abbrev pub is_end : ℕ → Bool
is_end c = c == comma || (c == 10 || c == 13)

unfoldable pub read_plain : Text → Text × Text
read_plain [] = ([], [])
read_plain (c ∷ cs) = let rest = read_plain cs in if is_end c then ([], c ∷ cs) else put c rest

unfoldable pub read_field : Text → Text × Text
read_field [] = ([], [])
read_field (c ∷ cs) = if c == double_quote then read_quoted cs else read_plain (c ∷ cs)

-- So many fields, each with the character behind it.
unfoldable pub read_row : ℕ → Text → List Text × Text
read_row zero s = ([], s)
read_row (suc n) s =
    let field = read_field s in let rest = read_row n (drop 1 field.1) in (field.0 ∷ rest.0, rest.1)

-- What may follow a field: a comma or a line end.
abbrev ends : Text → Bool
ends [] = false
ends (c ∷ cs) = is_end c

read_quoted-put :
    (c : ℕ) (s : Text) → (c == double_quote) ≡ false → read_quoted (c ∷ s) ≡ put c (read_quoted s)
unfolding read_quoted
read_quoted-put c [] h = rw h
read_quoted-put c (d ∷ s) h = rw h

read_quoted_pair :
    (s : Text) → read_quoted (double_quote ∷ double_quote ∷ s) ≡ put double_quote (read_quoted s)
unfolding read_quoted
read_quoted_pair s = refl

read_quoted_end : (rest : Text) → ends rest ≡ true → read_quoted (double_quote ∷ rest) ≡ ([], rest)
unfolding read_quoted
read_quoted_end [] h = ground arith
read_quoted_end (d ∷ rest) h = ground arith

read_quoted-doubled :
    (t rest : Text)
    → ends rest ≡ true
    → read_quoted (doubled t ++ (double_quote ∷ rest)) ≡ (t, rest)
unfolding doubled
read_quoted-doubled [] rest h = read_quoted_end rest h
read_quoted-doubled (c ∷ t) rest h = elim (Bool-cases (c == double_quote)) [
  | inl quote ↦
      rw (quote, doubled)
        (read_quoted_pair (doubled t ++ (double_quote ∷ rest))
          ∙ (ap (put double_quote) (read_quoted-doubled t rest h)
              ∙ ap (λ x. (x ∷ t, rest)) (sym ((==_iff c double_quote).0 quote))))
  | inr other ↦
      rw (other, doubled)
        (read_quoted-put c (doubled t ++ (double_quote ∷ rest)) other
          ∙ ap (put c) (read_quoted-doubled t rest h))
]

read_plain_all :
    (t rest : Text)
    → ends rest ≡ true
    → any is_special t ≡ false
    → read_plain (t ++ rest) ≡ (t, rest)
unfolding read_plain
read_plain_all [] [] h k = refl
read_plain_all [] (c ∷ rest) h k = rw h
read_plain_all (c ∷ t) rest h k = ground (arith, read_plain_all t rest h)

read_field_plain :
    (t rest : Text)
    → ends rest ≡ true
    → any is_special t ≡ false
    → read_field (t ++ rest) ≡ (t, rest)
unfolding read_field
read_field_plain [] [] h k = ground arith
read_field_plain [] (c ∷ rest) h k =
    let unquoted : (c == double_quote) ≡ false = ground arith in
    rw unquoted (read_plain_all [] (c ∷ rest) h refl)
read_field_plain (c ∷ t) rest h k =
    let unquoted : (c == double_quote) ≡ false = ground arith in
    rw unquoted (read_plain_all (c ∷ t) rest h k)

-- A field that was escaped, and what stands behind it.
read_field-escape_csv_field :
    (cell : Option Text) (rest : Text)
    → ends rest ≡ true
    → read_field (escape_csv_field cell ++ rest) ≡ (get_or cell [], rest)
unfolding escape_csv_field read_field
read_field-escape_csv_field none rest h = read_field_plain [] rest h refl
read_field-escape_csv_field (some t) rest h = elim (Bool-cases (any is_special t)) [
  | inl special ↦
      rw (special, escape_csv_field)
        (rw (append_assoc (doubled t) (double_quote ∷ []) rest) (read_quoted-doubled t rest h))
  | inr plain ↦ rw (plain, escape_csv_field) (read_field_plain t rest h plain)
]

abbrev pub cell_text : Option Text → Text
cell_text cell = get_or cell []

read_row-cells :
    (cell : Option Text) (cells : List (Option Text)) (rest : Text)
    → read_row
        (suc (length cells))
        (join (comma ∷ []) (map escape_csv_field (cell ∷ cells)) ++ (13 ∷ rest))
      ≡ (map cell_text (cell ∷ cells), rest)
unfolding read_row
read_row-cells cell [] rest = rw (read_field-escape_csv_field cell (13 ∷ rest) refl)
read_row-cells cell (next ∷ cells) rest =
    let later = join (comma ∷ []) (map escape_csv_field (next ∷ cells)) in
    rw (append_assoc (escape_csv_field cell) (comma ∷ later) (13 ∷ rest)) (
      rw (read_field-escape_csv_field cell (comma ∷ (later ++ (13 ∷ rest))) refl)
        (ap (λ r. (cell_text cell ∷ r.0, r.1)) (read_row-cells next cells rest)))

-- Rows with so many fields each, with the line feed behind the carriage return.
unfoldable pub read_rows : List ℕ → Text → List (List Text)
read_rows [] s = []
read_rows (n ∷ ns) s =
    let row = read_row n s in let rest = read_rows ns (drop 1 row.1) in row.0 ∷ rest

abbrev pub has_cells : List (Option Text) → Bool
has_cells [] = false
has_cells (cell ∷ cells) = true

read_rows-csv_lines :
    (rows : List (List (Option Text)))
    → all has_cells rows ≡ true
    → read_rows (map length rows) (csv_lines rows) ≡ map (map cell_text) rows
unfolding read_rows csv_lines csv_line
read_rows-csv_lines [] h = refl
read_rows-csv_lines ([] ∷ rows) h = ground arith
read_rows-csv_lines ((cell ∷ cells) ∷ rows) h =
    rw
      (append_assoc (join (comma ∷ []) (map escape_csv_field (cell ∷ cells))) (13 ∷ 10 ∷ [])
        (csv_lines rows))
      (rw (read_row-cells cell cells (10 ∷ csv_lines rows))
        (ap (λ rest. map cell_text (cell ∷ cells) ∷ rest) (read_rows-csv_lines rows h)))

-- What `exportCsv` writes for at least one column, with no empty row, reads back behind the byte
-- order mark as the labels and the rows, where a missing value reads as the empty text.
pub read_rows-export_csv :
    (labels : List (Option Text)) (rows : List (List (Option Text)))
    → all has_cells (labels ∷ rows) ≡ true
    → read_rows (map length (labels ∷ rows)) (drop 1 (export_csv labels rows))
      ≡ map (map cell_text) (labels ∷ rows)
unfolding export_csv
read_rows-export_csv labels rows h = read_rows-csv_lines (labels ∷ rows) h
