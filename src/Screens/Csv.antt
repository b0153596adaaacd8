-- ===== src/Screens/Csv.antt =====
-- The text of the CSV files that frontend/app/super-admin/payments/page.tsx saves.
pub mod RoundTrip
use mentorio.Prelude.{List, [], ◌∷◌, ◌++◌, if◌then◌else◌, ◌==◌, map}
use mentorio.Prelude.Text.{Text}

-- `cell.replace(/"/g, '""')`
unfoldable pub doubled : Text → Text
doubled [] = []
doubled (c ∷ s) = let rest = doubled s in if c == b'"' then c ∷ c ∷ rest else c ∷ rest

abbrev pub quote : Text → Text
quote cell = b'"' ∷ (doubled cell ++ b'"' ∷ [])

-- `texts.join(sep)` for a separator of one character.
unfoldable pub join : List Text → Text → Text
join [] sep = []
join (t ∷ []) sep = t
join (t ∷ u ∷ ts) sep = t ++ (sep ++ join (u ∷ ts) sep)

abbrev pub csv_line : List Text → Text
csv_line row = join (map quote row) (b',' ∷ [])

-- The text of `downloadCsv`.
unfoldable pub csv_text : List (List Text) → Text
unfolding doubled join
csv_text rows = join (map csv_line rows) (10 ∷ [])
