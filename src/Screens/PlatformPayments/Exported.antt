-- ===== src/Screens/PlatformPayments/Exported.antt =====
-- The file that the invoices are exported to.
use mentorio.Prelude.{some, List, [], ◌∷◌, map, All, ◌≡◌, ◌≢◌}
use mentorio.Prelude.Text.{Text}
use mentorio.Screens.Csv.RoundTrip.{read_csv, read_csv-csv_text}
use mentorio.Screens.PlatformPayments.{
  Invoice, export_row, filtered_invoices, export_rows, handle_export_csv,
}

rows_full : (invoices : List Invoice) → All (λ row. row ≢ []) (map export_row invoices)
rows_full [] = tt
rows_full (i ∷ is) = (λ e. cc, rows_full is)

-- A reader of quoted fields with doubled quotes, as in RFC 4180, with line feeds between the lines,
-- gets from the exported file the header, of one column or more, and one row for each invoice that
-- matches the search, cell by cell, whatever commas, quotes and line breaks stand in the cells.
pub handle_export_csv-read_csv :
    (lower : Text → Text) (search : Text) (column : Text) (columns : List Text)
    (invoices : List Invoice)
    → read_csv (handle_export_csv lower search (column ∷ columns) invoices).0
      ≡ some ((column ∷ columns) ∷ map export_row (filtered_invoices lower search invoices))
unfolding handle_export_csv export_rows
handle_export_csv-read_csv lower search column columns invoices =
    read_csv-csv_text
      ((column ∷ columns) ∷ map export_row (filtered_invoices lower search invoices)) (λ e. cc)
      (λ e. cc, rows_full (filtered_invoices lower search invoices))
