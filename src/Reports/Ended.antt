-- ===== src/Reports/Ended.antt =====
-- The report of a job behind the worker, and the other reports.
use mdm.Base.{
  ℕ, ◌≡◌, refl, ◌∙◌, Bool, true, false, not, ◌&&◌, Option, none, some, arith, ◌==◌, opt_is, str_eq,
  count_p, count_p-false, if◌then◌else◌, Result, ok, err, Bool-cases, inl, inr,
}
use mdm.Base.Text.{Text, text_eq, text_eq_iff}
use mdm.Base.Table.{Table, IsLawful, count_p_ext}
use mdm.Schema.{Uuid}
use mdm.Reports.Schedules.{Report}
use mdm.Reports.Worker.{
  Outcome, finished, not_generated, no_directory, not_exported, set_status, set_progress,
  set_failed, set_completed, set_report, export_report, complete, generated, process_report,
  note_failure, work,
}

abbrev pub is_error : Text → Option Text → Bool
is_error m none = false
is_error m (some e) = text_eq e m

-- The state that a report is to have behind a job that ended so.
abbrev pub has_ended : Result Text (Unit {0}) → Report → Bool
has_ended (ok done) r = str_eq r.status "completed" && r.progress == 100
has_ended (err m) r = str_eq r.status "failed" && is_error m r.error

module _ (R : Table Report) (L : IsLawful R) (url : Uuid → Text) (q : Report → Bool)
    (id : Option Uuid) where
  abbrev pub is_other : Report → Bool
  is_other r = not (opt_is id r.id) && q r

  -- An update of the report leaves the others.
  set_report-others :
      (f : Report → Report) (s : Table.State R)
      → ((r : Report) → (f r).id ≡ r.id)
      → count_p is_other (Table.rows R (set_report R id f s)) ≡ count_p is_other (Table.rows R s)
  set_report-others f s same =
      L.count-update is_other (λ r. opt_is id r.id) f s
      ∙ count_p_ext _ is_other (Table.rows R s) (λ r. one_row f same r)
    where
      one_row :
          (f : Report → Report)
          → ((r : Report) → (f r).id ≡ r.id)
          → (r : Report) → is_other (if opt_is id r.id then f r else r) ≡ is_other r
      one_row f same r = elim (Bool-cases (opt_is id r.id)) [
        | inl here ↦ rw here (rw (same r) (rw here refl))
        | inr there ↦ rw there (rw there refl)
      ]

  -- Behind an update that gives every row a property, the report has it.
  set_report-own :
      (p : Report → Bool) (f : Report → Report) (s : Table.State R)
      → ((r : Report) → p (f r) ≡ true)
      → ((r : Report) → (f r).id ≡ r.id)
      → count_p (λ r. opt_is id r.id && not (p r)) (Table.rows R (set_report R id f s)) ≡ 0
  set_report-own p f s h same =
      L.count-update (λ r. opt_is id r.id && not (p r)) (λ r. opt_is id r.id) f s
      ∙ (count_p_ext _ (λ r. false) (Table.rows R s) (λ r. one_row f h same r)
          ∙ count_p-false (Table.rows R s))
    where
      one_row :
          (f : Report → Report)
          → ((r : Report) → p (f r) ≡ true)
          → ((r : Report) → (f r).id ≡ r.id)
          → (r : Report)
          → (opt_is id (if opt_is id r.id then f r else r).id
              && not (p (if opt_is id r.id then f r else r)))
            ≡ false
      one_row f h same r = elim (Bool-cases (opt_is id r.id)) [
        | inl here ↦ rw (here, h r) (ground arith)
        | inr there ↦ rw there (rw there refl)
      ]

  -- How many other reports a query finds, and, of a job that ended well, the report.
  abbrev OwnEnded : Result Text (Unit {0}) → Table.State R → Type 0
  OwnEnded (err m) s = Unit
  OwnEnded (ok done) s =
      count_p (λ r. opt_is id r.id && not (has_ended (ok done) r)) (Table.rows R s) ≡ 0

  abbrev Ends : ℕ → Result Text (Unit {0}) × Table.State R → Type 0
  Ends n p = (count_p is_other (Table.rows R p.1) ≡ n) × OwnEnded p.0 p.1

  complete-Ends :
      (e : Result Text (Unit {0})) (s : Table.State R)
      → Ends (count_p is_other (Table.rows R s)) (complete R url id e s)
  complete-Ends (err m) s = (refl, tt)
  complete-Ends (ok done) s =
      let at_90 = set_report R id (set_progress 90) s in
      (
        set_report-others (set_completed url) at_90 (λ r. refl)
            ∙ set_report-others (set_progress 90) s (λ r. refl),
        set_report-own (has_ended (ok done)) (set_completed url) at_90 (λ r. refl) (λ r. refl),
      )

  note_failure-Ends :
      (n : ℕ) (p : Result Text (Unit {0}) × Table.State R)
      → Ends n p
      → (count_p is_other (Table.rows R (note_failure R id p).1) ≡ n)
        × (count_p
              (λ r. opt_is id r.id && not (has_ended (note_failure R id p).0 r))
              (Table.rows R (note_failure R id p).1)
            ≡ 0)
  note_failure-Ends n (ok done, s) h = h
  note_failure-Ends n (err m, s) h = (
    set_report-others (set_failed m) s (λ r. refl) ∙ h.0,
    set_report-own (has_ended (err m)) (set_failed m) s (λ r. (text_eq_iff m m).1 refl) (λ r. refl),
  )

  progress-others :
      (s : Table.State R)
      → count_p is_other
          (Table.rows R (set_report R id (set_progress 60) (set_report R id (set_progress 50) s)))
        ≡ count_p is_other (Table.rows R s)
  progress-others s =
      set_report-others (set_progress 60) (set_report R id (set_progress 50) s) (λ r. refl)
      ∙ set_report-others (set_progress 50) s (λ r. refl)

  generated-Ends :
      (format : Text) (outcome : Outcome) (s : Table.State R)
      → Ends
          (count_p is_other (Table.rows R s))
          (generated R url (record { report_id = id; format = format }) outcome s)
  generated-Ends format finished s =
      let ends =
        complete-Ends (export_report R format finished)
          (set_report R id (set_progress 60) (set_report R id (set_progress 50) s)) in
      (ends.0 ∙ progress-others s, ends.1)
  generated-Ends format (not_generated m) s = (refl, tt)
  generated-Ends format (no_directory m) s = (set_report-others (set_progress 50) s (λ r. refl), tt)
  generated-Ends format (not_exported m) s =
      let ends =
        complete-Ends (export_report R format (not_exported m))
          (set_report R id (set_progress 60) (set_report R id (set_progress 50) s)) in
      (ends.0 ∙ progress-others s, ends.1)

  -- However a job ends, its report is completed at 100 if it ended well and failed with the error
  -- that the worker throws if not, and no other report has changed: any query finds as many of them
  -- as before. Of a job without the id of a report, such as one that the scheduler repeats, all
  -- reports are others.
  pub work_lem :
      (format : Text) (outcome : Outcome) (s : Table.State R)
      → let after = work R url (record { report_id = id; format = format }) outcome s in
        (count_p is_other (Table.rows R after.1) ≡ count_p is_other (Table.rows R s))
        × (count_p (λ r. opt_is id r.id && not (has_ended after.0 r)) (Table.rows R after.1) ≡ 0)
  unfolding work process_report
  work_lem format outcome s =
      let started = set_report R id (set_status "processing" 5) s in
      let ends = generated-Ends format outcome started in
      note_failure-Ends (count_p is_other (Table.rows R s))
        (generated R url (record { report_id = id; format = format }) outcome started)
        (ends.0 ∙ set_report-others (set_status "processing" 5) s (λ r. refl), ends.1)
