-- ===== src/Screens/Csv/RoundTrip.antt =====
-- The text of a CSV file against a reader of quoted fields, as in RFC 4180.
use mentorio.Prelude.{
  ◌≢◌, All, ℕ, Option, none, some, List, [], ◌∷◌, ◌++◌, if◌then◌else◌, ◌==◌, ◌≡◌, refl, sym, ap,
  ◌∙◌, arith,
}
use mentorio.Prelude.Text.{Text}
use mathlib.Core.List.{append_assoc, append-nil}
use mentorio.Screens.Csv.{doubled, quote, join, csv_line, csv_text}

-- A line that is read, its first field apart, and the lines behind it.
abbrev Records : Type 0
Records = Text × List Text × List (List Text)

-- Where the reader stands: before a field, within its quotes, or behind a quote within them.
data Place : Type 0 where
  before within behind : Place

in_field : ℕ → Option Records → Option Records
in_field c none = none
in_field c (some (field, fields, lines)) = some (c ∷ field, fields, lines)

next_field : Option Records → Option Records
next_field none = none
next_field (some (field, fields, lines)) = some ([], field ∷ fields, lines)

next_line : Option Records → Option Records
next_line none = none
next_line (some (field, fields, lines)) = some ([], [], (field ∷ fields) ∷ lines)

-- Every field stands in quotes, with the quotes within it doubled; `none` for any other text.
read : Place → Text → Option Records
read before [] = none
read before (c ∷ s) = let field = read within s in if c == b'"' then field else none
read within [] = none
read within (c ∷ s) =
    let closed = read behind s in
    let more = read within s in if c == b'"' then closed else in_field c more
read behind [] = some ([], [], [])
read behind (c ∷ s) =
    let more = read within s in
    let field = read before s in
    if c == b'"'
    then in_field c more
    else if c == b','
    then next_field field
    else if c == 10
    then next_line field
    else none

lines_of : Option Records → Option (List (List Text))
lines_of none = none
lines_of (some (field, fields, lines)) = some ((field ∷ fields) ∷ lines)

pub read_csv : Text → Option (List (List Text))
read_csv text = lines_of (read before text)

field_onto : Text → Option Records → Option Records
field_onto [] r = r
field_onto (c ∷ s) r = in_field c (field_onto s r)

field_onto-some :
    (s : Text) (fields : List Text) (lines : List (List Text))
    → field_onto s (some ([], fields, lines)) ≡ some (s, fields, lines)
unfolding field_onto in_field
field_onto-some [] fields lines = refl
field_onto-some (c ∷ s) fields lines = ap (in_field c) (field_onto-some s fields lines)

-- A quoted field is read whole, and the reader goes on behind its closing quote.
read-quoted :
    (cell rest : Text)
    → read within (doubled cell ++ b'"' ∷ rest) ≡ field_onto cell (read behind rest)
unfolding read doubled field_onto
read-quoted [] rest = refl
read-quoted (c ∷ cell) rest = ground (arith, read-quoted cell rest)

quote-append : (cell tail : Text) → quote cell ++ tail ≡ b'"' ∷ (doubled cell ++ b'"' ∷ tail)
quote-append cell tail = ap (λ s. b'"' ∷ s) (append_assoc (doubled cell) (b'"' ∷ []) tail)

read_quote_start :
    (cell tail : Text)
    → read before (b'"' ∷ (doubled cell ++ b'"' ∷ tail)) ≡ field_onto cell (read behind tail)
unfolding read
read_quote_start cell tail = read-quoted cell tail

read-quote :
    (cell tail : Text) → read before (quote cell ++ tail) ≡ field_onto cell (read behind tail)
read-quote cell tail = ap (read before) (quote-append cell tail) ∙ read_quote_start cell tail

read_end : read behind [] ≡ some ([], [], [])
unfolding read
read_end = refl

read_comma : (s : Text) → read behind (b',' ∷ s) ≡ next_field (read before s)
unfolding read
read_comma s = refl

read_newline : (s : Text) → read behind (10 ∷ s) ≡ next_line (read before s)
unfolding read
read_newline s = refl

-- A line is read, if behind it the text ends or the next line begins.
read-csv_line :
    (t : Text) (ts : List Text) (tail : Text) (lines : List (List Text))
    → read behind tail ≡ some ([], [], lines)
    → read before (csv_line (t ∷ ts) ++ tail) ≡ some (t, ts, lines)
unfolding join next_field
read-csv_line t [] tail lines h =
    read-quote t tail ∙ ap (field_onto t) h ∙ field_onto-some t [] lines
read-csv_line t (u ∷ us) tail lines h =
    let rest : Text = csv_line (u ∷ us) ++ tail in
    ap (read before) (append_assoc (quote t) (b',' ∷ csv_line (u ∷ us)) tail)
    ∙ read-quote t (b',' ∷ rest)
    ∙ ap (field_onto t) (read_comma rest ∙ ap next_field (read-csv_line u us tail lines h))
    ∙ field_onto-some t (u ∷ us) lines

read-csv_text :
    (t : Text) (ts : List Text) (rows : List (List Text))
    → All (λ row. row ≢ []) rows
    → read before (csv_text ((t ∷ ts) ∷ rows)) ≡ some (t, ts, rows)
unfolding csv_text join next_line
read-csv_text t ts [] h =
    ap (read before) (sym (append-nil (csv_line (t ∷ ts)))) ∙ read-csv_line t ts [] [] read_end
read-csv_text t ts ([] ∷ rows) (full, h) = absurd (full refl)
read-csv_text t ts ((u ∷ us) ∷ rows) (full, h) =
    let rest : Text = csv_text ((u ∷ us) ∷ rows) in
    read-csv_line t ts (10 ∷ rest) ((u ∷ us) ∷ rows)
      (read_newline rest ∙ ap next_line (read-csv_text u us rows h))

-- The text of a CSV file reads as the rows that it was made of, whatever commas, quotes and line
-- breaks stand in their cells, if there is a row and none is empty.
pub read_csv-csv_text :
    (rows : List (List Text))
    → rows ≢ []
    → All (λ row. row ≢ []) rows
    → read_csv (csv_text rows) ≡ some rows
unfolding read_csv lines_of
read_csv-csv_text [] some_row h = absurd (some_row refl)
read_csv-csv_text ([] ∷ rows) some_row (full, h) = absurd (full refl)
read_csv-csv_text ((t ∷ ts) ∷ rows) some_row (full, h) = ap lines_of (read-csv_text t ts rows h)
