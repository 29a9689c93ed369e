-- ===== src/Reports/Worker.antt =====
-- services/report-service/src/jobs/report-worker.ts: a job's report on its way through the states.
-- Whether the data can be generated, the format exported and the file written is given by the
-- outcome; Redis and the database answer.
use mdm.Base.{ℕ, String, Bool, Option, some, ◌++◌, opt_is, ◌||◌, if◌then◌else◌, Result, ok, err}
use mdm.Base.Text.{Text, codes, text_eq}
use mdm.Base.Table.{Table}
use mdm.Schema.{Uuid}
use mdm.Reports.Schedules.{Report}

-- `ReportJobData`, as far as the worker passes it on; a job that the scheduler repeats has no
-- `report_id`.
pub record ReportJob : Type 0 where
  pub report_id : Option Uuid
  pub format : Text

-- How the calls end: `generateReport`, then the making of the directory and the export.
pub data Outcome : Type 0 where
  finished : Outcome
  not_generated no_directory not_exported : Text → Outcome

abbrev pub is_supported : Text → Bool
is_supported format =
    text_eq format (codes "csv") || (text_eq format (codes "pdf") || text_eq format (codes "xlsx"))

abbrev pub set_status : String → ℕ → Report → Report
set_status status progress r = record r { status = status; progress = progress }

abbrev pub set_progress : ℕ → Report → Report
set_progress progress r = record r { progress = progress }

abbrev pub set_failed : Text → Report → Report
set_failed message r = record r { status = "failed"; error = some message }

abbrev pub set_completed : (Uuid → Text) → Report → Report
set_completed url r = record r { status = "completed"; progress = 100; file_url = some (url r.id) }

module _ (R : Table Report) where
  -- `UPDATE reports SET … WHERE id = $…`; without an id the comparison with NULL selects no row.
  abbrev pub set_report : Option Uuid → (Report → Report) → Table.State R → Table.State R
  set_report id f s = Table.update R (λ r. opt_is id r.id) f s

  -- The export, behind the progress of 60.
  abbrev pub export_report : Text → Outcome → Result Text (Unit {0})
  export_report format (not_exported message) = err message
  export_report format _ =
      if is_supported format then ok tt else err (codes "Unsupported format: " ++ format)

  -- Its end in `processReport`.
  abbrev pub complete :
      (Uuid → Text)
      → Option Uuid
      → Result Text (Unit {0})
      → Table.State R
      → Result Text (Unit {0}) × Table.State R
  complete url id (err message) s = (err message, s)
  complete url id (ok done) s =
      (ok done, set_report id (set_completed url) (set_report id (set_progress 90) s))

  abbrev pub generated :
      (Uuid → Text) → ReportJob → Outcome → Table.State R → Result Text (Unit {0}) × Table.State R
  generated url job (not_generated message) s = (err message, s)
  generated url job (no_directory message) s =
      (err message, set_report job.report_id (set_progress 50) s)
  generated url job outcome s =
      complete url job.report_id (export_report job.format outcome)
        (set_report job.report_id (set_progress 60) (set_report job.report_id (set_progress 50) s))

  unfoldable pub process_report :
      (Uuid → Text) → ReportJob → Outcome → Table.State R → Result Text (Unit {0}) × Table.State R
  process_report url job outcome s =
      generated url job outcome (set_report job.report_id (set_status "processing" 5) s)

  abbrev pub note_failure :
      Option Uuid → Result Text (Unit {0}) × Table.State R → Result Text (Unit {0}) × Table.State R
  note_failure id (ok done, s) = (ok done, s)
  note_failure id (err message, s) = (err message, set_report id (set_failed message) s)

  -- The worker's function, which throws again what it caught.
  unfoldable pub work :
      (Uuid → Text) → ReportJob → Outcome → Table.State R → Result Text (Unit {0}) × Table.State R
  unfolding process_report
  work url job outcome s = note_failure job.report_id (process_report url job outcome s)
