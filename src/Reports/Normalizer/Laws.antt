-- ===== src/Reports/Normalizer/Laws.antt =====
-- The table of normalized reports: what a call leaves in it, and that a raw report is recorded once.
use yanzl.Prelude.{
  ℕ, ◌≡◌, refl, sym, Bool, true, false, none, some, ◌⊎◌, inl, inr, [], ◌∷◌, ◌++◌, String, arith,
}
use yanzl.Prelude.Tests.{Option-cases}
use yanzl.Prelude.Equality.{==_refl, ==_iff, String_eq, ℕ_eq, Option_eq}
use yanzl.Prelude.Int.{ℤ_eq}
use yanzl.Domain.Orders.{OrderId_eq}
use yanzl.Database.UnitOfWork.{Result, ok, with_uow}
use yanzl.Reports.Models.{
  ExecutionReportStatus_eq, ExecutionTarget_eq, RawExecutionReport, NormalizedExecutionReport,
  check_normalized,
}
use yanzl.Reports.Normalizer.{
  ReportHashes, normalized_fields, same_canonical_report, ReportDb, find_raw, find_report,
  NormalizeResult, normalized, duplicate_report, known_report, append_new, record_report,
  invalid_lineage_reason, normalize, build_order_event_candidate,
}

same_canonical_refl :
    (r : NormalizedExecutionReport) (t : ℕ)
    → same_canonical_report r (record r { normalized_at = t }) ≡ true
unfolding same_canonical_report
same_canonical_refl r t = simp ==_refl

-- The reports are valid, and each raw report and each report stands in the table once.
pub data IsLedger : ReportDb → Type 0 where
  empty : IsLedger []
  entry :
      {r : NormalizedExecutionReport} {rs : ReportDb}
      → check_normalized r ≡ none
      → find_raw r.raw_report_id rs ≡ none
      → find_report r.report_id rs ≡ none
      → IsLedger rs
      → IsLedger (r ∷ rs)

find_raw-append :
    (key : String) (d : ReportDb) (r : NormalizedExecutionReport)
    → find_raw key d ≡ none
    → (r.raw_report_id ≡ key → ⊥)
    → find_raw key (d ++ r ∷ []) ≡ none
unfolding find_raw
find_raw-append key [] r h other = ground (arith, ==_iff r.raw_report_id key)
find_raw-append key (x ∷ xs) r h other = ground (arith, find_raw-append key xs r)

find_report-append :
    (key : String) (d : ReportDb) (r : NormalizedExecutionReport)
    → find_report key d ≡ none
    → (r.report_id ≡ key → ⊥)
    → find_report key (d ++ r ∷ []) ≡ none
unfolding find_report
find_report-append key [] r h other = ground (arith, ==_iff r.report_id key)
find_report-append key (x ∷ xs) r h other = ground (arith, find_report-append key xs r)

find_raw-append_self :
    (d : ReportDb) (r : NormalizedExecutionReport)
    → find_raw r.raw_report_id d ≡ none
    → find_raw r.raw_report_id (d ++ r ∷ []) ≡ some r
unfolding find_raw
find_raw-append_self [] r h = ground (arith, ==_refl r.raw_report_id)
find_raw-append_self (x ∷ xs) r h = ground (arith, find_raw-append_self xs r)

head_raw :
    (key : String) (x : NormalizedExecutionReport) (xs : ReportDb)
    → find_raw key (x ∷ xs) ≡ none
    → (x.raw_report_id ≡ key → ⊥) × (find_raw key xs ≡ none)
unfolding find_raw
head_raw key x xs h = ground (arith, ==_iff x.raw_report_id key)

head_report :
    (key : String) (x : NormalizedExecutionReport) (xs : ReportDb)
    → find_report key (x ∷ xs) ≡ none
    → (x.report_id ≡ key → ⊥) × (find_report key xs ≡ none)
unfolding find_report
head_report key x xs h = ground (arith, ==_iff x.report_id key)

append-IsLedger :
    (d : ReportDb) (r : NormalizedExecutionReport)
    → check_normalized r ≡ none
    → find_raw r.raw_report_id d ≡ none
    → find_report r.report_id d ≡ none
    → IsLedger d
    → IsLedger (d ++ r ∷ [])
unfolding find_raw find_report
append-IsLedger [] r valid raw own l = entry valid refl refl empty
append-IsLedger (x ∷ xs) r valid raw own (entry v a b l) =
    let (other_raw, raw') = head_raw r.raw_report_id x xs raw in
    let (other, own') = head_report r.report_id x xs own in
    entry v (find_raw-append x.raw_report_id xs r a (λ e. other_raw (sym e)))
      (find_report-append x.report_id xs r b (λ e. other (sym e)))
      (append-IsLedger xs r valid raw' own' l)

-- Whether a call says that it recorded its report.
abbrev pub is_recording : Result NormalizeResult → Bool
is_recording (ok r) = elim r.status [ normalized ↦ true | _ ↦ false ]
is_recording _ = false

module _ (h : ReportHashes) (now : ℕ) (raw : RawExecutionReport) (d : ReportDb) where
  abbrev pub report : NormalizedExecutionReport
  report = normalized_fields h now raw

  abbrev pub new_result : NormalizeResult
  new_result = record {
    status = normalized;
    normalized_report = some report;
    order_event_candidate = build_order_event_candidate report;
    result_reason = none;
  }

  -- A call that records the report, of which every check passed and which the table did not have.
  pub record IsRecorded (res : Result NormalizeResult) (d' : ReportDb) : Type 0 where
    pub lineage : invalid_lineage_reason raw ≡ none
    pub valid : check_normalized report ≡ none
    pub raw_new : find_raw report.raw_report_id d ≡ none
    pub report_new : find_report report.report_id d ≡ none
    pub appended : d' ≡ d ++ report ∷ []
    pub answer : res ≡ ok new_result

  abbrev pub IsKept : Result NormalizeResult → ReportDb → Type 0
  IsKept res d' = (d' ≡ d) × (is_recording res ≡ false)

  record_outcome :
      let (res, d') = with_uow (record_report report) d in
      IsKept res d'
      ⊎ ((find_raw report.raw_report_id d ≡ none)
          × (find_report report.report_id d ≡ none)
          × (d' ≡ d ++ report ∷ [])
          × (res ≡ ok new_result))
  unfolding record_report known_report append_new
  record_outcome = ground arith

  -- A call of the normalizer leaves the table as it was, without saying that it recorded anything, or appends the
  -- valid report of a raw report, new under both of its keys, and says so.
  pub normalize-outcome : let (res, d') = normalize h now raw d in IsKept res d' ⊎ IsRecorded res d'
  unfolding normalize
  normalize-outcome = elim (Option-cases (invalid_lineage_reason raw)) [
    | inr bad ↦ rw bad.1 (inl (refl, refl))
    | inl lineage ↦ rw lineage (elim (Option-cases (check_normalized report)) [
      | inr bad ↦ rw bad.1 (inl (refl, refl))
      | inl valid ↦ rw valid (elim record_outcome [
        | inl kept ↦ inl kept
        | inr (raw_new, report_new, appended, answer) ↦ inr (record {
          lineage = lineage;
          valid = valid;
          raw_new = raw_new;
          report_new = report_new;
          appended = appended;
          answer = answer;
        })
      ])
    ])
  ]

  -- Every call keeps the reports of the table valid and each raw report and each report in it at most once.
  pub normalize-IsLedger : IsLedger d → IsLedger (normalize h now raw d).1
  normalize-IsLedger l = elim normalize-outcome [
    | inl kept ↦ rw kept.0 l
    | inr r ↦ rw r.appended (append-IsLedger d report r.valid r.raw_new r.report_new l)
  ]

  again :
      (later : ℕ) (d' : ReportDb)
      → invalid_lineage_reason raw ≡ none
      → check_normalized report ≡ none
      → find_raw report.raw_report_id d' ≡ some report
      → normalize h later raw d' ≡ (
        ok (record {
          status = duplicate_report;
          normalized_report = some report;
          order_event_candidate = none;
          result_reason = some "duplicate";
        }),
        d',
      )
  unfolding normalize record_report known_report check_normalized normalized_fields
  again later d' lineage valid found = ground (arith, same_canonical_refl report later)

  -- A raw report that was recorded, normalized again at any later instant, is a duplicate: the answer is the
  -- report on record, and the table stays as it is.
  pub normalize-again :
      (later : ℕ)
      → is_recording (normalize h now raw d).0 ≡ true
      → let d' = (normalize h now raw d).1 in
        normalize h later raw d' ≡ (
          ok (record {
            status = duplicate_report;
            normalized_report = some report;
            order_event_candidate = none;
            result_reason = some "duplicate";
          }),
          d',
        )
  normalize-again later said = elim normalize-outcome [
    | inl kept ↦ absurd (cc (said, kept.1))
    | inr r ↦
        rw r.appended (
          again later (d ++ report ∷ []) r.lineage r.valid
            (find_raw-append_self d report r.raw_new))
  ]
