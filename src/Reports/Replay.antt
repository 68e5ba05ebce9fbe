-- ===== src/Reports/Replay.antt =====
-- src/futures_mvp/modules/execution_reports/replay.py, oms_event_application/replay.py and
-- oms_to_trade/replay.py: reports in the order of their instants, applied in turn.
use yanzl.Prelude.{
  ℕ, suc, ◌≡◌, refl, ◌∙◌, ◌⊎◌, inl, inr, Bool, true, false, not, ◌&&◌, ◌||◌, Option, none, some,
  List, [], ◌∷◌, String,
}
use yanzl.Prelude.Tests.{ltb, nat_eq, if◌then◌else◌, Bool-cases}
use yanzl.Prelude.Equality.{◌==◌, String_eq}
use yanzl.Prelude.Lists.{any, contains}
use yanzl.Prelude.Sort.{sort_by}
use yanzl.Prelude.Text.{text_leb}
use yanzl.Database.UnitOfWork.{Result, ok, err}
use yanzl.Oms.Journal.{Steps, same_db}
use yanzl.Oms.Store.{OmsDb}
use yanzl.Oms.Events.{Format, order_text}
use yanzl.Reports.Models.{RawExecutionReport, ReportEvent}
use yanzl.Reports.Normalizer.{ReportHashes, NormalizeResult, ReportDb, normalize}
use yanzl.Reports.Normalizer.Laws.{IsLedger, normalize-IsLedger}
use yanzl.Reports.Events.{
  EventFormat, ApplyContext, ApplyResult, ApplyStatus, event_applied, event_duplicate,
  event_conflict, says, is_canonical, same_canonical_event,
}
use yanzl.Reports.Application.{Applier, Lookup, apply_candidate}
use yanzl.Reports.Application.Laws.{dry_run_keeps, apply_to_oms-Steps}
use yanzl.Reports.Application.Oms.{oms_applier, oms_lookup, apply_to_oms}
use yanzl.Reports.Proof.{IdentityHash, BridgeContext, BridgeResult}
use yanzl.Reports.Trades.{TradeDb}
use yanzl.Reports.Bridge.{create_trade}

-- Lexicographic order of keys of texts behind an instant.
abbrev pub texts_leb : List String → List String → Bool
texts_leb [] ys = true
texts_leb (x ∷ xs) [] = false
texts_leb (x ∷ xs) (y ∷ ys) = if x == y then texts_leb xs ys else text_leb x y

abbrev pub key_leb : ℕ → List String → ℕ → List String → Bool
key_leb t xs u ys = ltb t u || (nat_eq t u && texts_leb xs ys)

abbrev pub raw_before : RawExecutionReport → RawExecutionReport → Bool
raw_before a b =
    key_leb a.report_ts (a.adapter_name ∷ a.command_id ∷ a.raw_report_id ∷ []) b.report_ts
      (b.adapter_name ∷ b.command_id ∷ b.raw_report_id ∷ [])

module _ {A D : Type 0} where
  abbrev pub prepend : A → Result (List A) × D → Result (List A) × D
  prepend r (ok rs, d) = (ok (r ∷ rs), d)
  prepend r (err e, d) = (err e, d)

  -- One turn of a comprehension: an exception leaves it.
  abbrev pub collect : Result A × D → (D → Result (List A) × D) → Result (List A) × D
  collect (err e, d) rest = (err e, d)
  collect (ok r, d) rest = prepend r (rest d)

  collect-db :
      (P : D → Type 0) (x : Result A × D) (rest : D → Result (List A) × D)
      → P x.1
      → ((d : D) → P d → P (rest d).1)
      → P (collect x rest).1
  collect-db P (err e, d) rest p go = p
  collect-db P (ok r, d) rest p go = prepend-db (rest d) (go d p)
    where
      prepend-db : (x : Result (List A) × D) → P x.1 → P (prepend r x).1
      prepend-db (ok rs, d') q = q
      prepend-db (err e, d') q = q

-- The `n`-th report meets the instant that the clock tells.
unfoldable pub normalize_from :
    ReportHashes
    → (ℕ → ℕ)
    → ℕ
    → List RawExecutionReport
    → ReportDb
    → Result (List NormalizeResult) × ReportDb
normalize_from h clock n [] d = (ok [], d)
normalize_from h clock n (r ∷ rs) d =
    collect (normalize h (clock n) r d) (normalize_from h clock (suc n) rs)

unfoldable pub replay_execution_reports :
    ReportHashes
    → (ℕ → ℕ)
    → List RawExecutionReport
    → ReportDb
    → Result (List NormalizeResult) × ReportDb
replay_execution_reports h clock rs d = normalize_from h clock 0 (sort_by raw_before rs) d

abbrev pub fill_before : BridgeContext → BridgeContext → Bool
fill_before a b =
    key_leb a.report.report_ts (a.report.report_id ∷ []) b.report.report_ts
      (b.report.report_id ∷ [])

-- The `n`-th context finds the next free key that `ids` tells.
unfoldable pub bridge_from :
    IdentityHash → (ℕ → ℕ) → ℕ → List BridgeContext → TradeDb → Result (List BridgeResult) × TradeDb
bridge_from h ids n [] d = (ok [], d)
bridge_from h ids n (x ∷ xs) d = collect (create_trade h x (ids n) d) (bridge_from h ids (suc n) xs)

unfoldable pub replay_oms_to_trade :
    IdentityHash → (ℕ → ℕ) → List BridgeContext → TradeDb → Result (List BridgeResult) × TradeDb
replay_oms_to_trade h ids xs d = bridge_from h ids 0 (sort_by fill_before xs) d

module _ (h : ReportHashes) (clock : ℕ → ℕ) where
  normalize_from-IsLedger :
      (n : ℕ) (rs : List RawExecutionReport) (d : ReportDb)
      → IsLedger d
      → IsLedger (normalize_from h clock n rs d).1
  unfolding normalize_from
  normalize_from-IsLedger n [] d l = l
  normalize_from-IsLedger n (r ∷ rs) d l =
      collect-db IsLedger (normalize h (clock n) r d) (normalize_from h clock (suc n) rs)
        (normalize-IsLedger h (clock n) r d l) (normalize_from-IsLedger (suc n) rs)

  -- A replay of raw reports on any sound table leaves a sound one.
  pub replay_execution_reports-IsLedger :
      (rs : List RawExecutionReport) (d : ReportDb)
      → IsLedger d
      → IsLedger (replay_execution_reports h clock rs d).1
  unfolding replay_execution_reports
  replay_execution_reports-IsLedger rs d l = normalize_from-IsLedger 0 (sort_by raw_before rs) d l

-- The sort key of a candidate; the order's key is compared as the text that it is.
abbrev pub context_before : Format → ApplyContext → ApplyContext → Bool
context_before fmt a b =
    let c = a.order_event_candidate in
    let e = b.order_event_candidate in
    key_leb c.occurred_at (c.normalized_report_id ∷ order_text fmt c.order_id ∷ []) e.occurred_at
      (e.normalized_report_id ∷ order_text fmt e.order_id ∷ [])

abbrev pub with_permission : Bool → ApplyContext → ApplyContext
with_permission live x = record x { allow_live_apply = live }

-- The dictionary `seen`, of events by their keys.
abbrev pub Seen : Type 0
Seen = List (String × ReportEvent)

abbrev pub get_seen : Seen → String → Option ReportEvent
get_seen [] key = none
get_seen ((k, e) ∷ rest) key = elim (k == key) [ true ↦ some e | false ↦ get_seen rest key ]

abbrev pub verdict : ApplyResult → ApplyStatus → String → ApplyResult
verdict r status reason = record r { status = status; reason = some (says reason); dry_run = true }

-- A result of the preflight against the events before it, and the events after it.
abbrev pub against :
    ApplyResult → String → ReportEvent → Option ReportEvent → Seen → ApplyResult × Seen
against r key e none seen = (r, (key, e) ∷ seen)
against r key e (some old) seen =
    if same_canonical_event old e
    then (verdict r event_duplicate "order_event_duplicate", seen)
    else (verdict r event_conflict "order_event_canonical_conflict", seen)

abbrev pub check_seen_event : ApplyResult → String → ReportEvent → Seen → ApplyResult × Seen
check_seen_event r key e seen =
    if not (is_canonical e)
    then (verdict r event_conflict "order_event_canonical_missing", seen)
    else against r key e (get_seen seen key) seen

abbrev pub check_seen : ApplyResult → Option String → Option ReportEvent → Seen → ApplyResult × Seen
check_seen r (some key) (some e) seen = check_seen_event r key e seen
check_seen r _ _ seen = (r, seen)

abbrev pub is_conflict : ApplyResult → Bool
is_conflict r = elim r.status [ event_conflict ↦ true | _ ↦ false ]

abbrev pub is_applied_or_duplicate : ApplyStatus → Bool
is_applied_or_duplicate event_applied = true
is_applied_or_duplicate event_duplicate = true
is_applied_or_duplicate _ = false

-- `event_id in applied_event_ids`
abbrev pub is_done : Option String → List String → Bool
is_done none done = false
is_done (some key) done = contains done key

abbrev pub is_duplicate_of : ApplyResult → List String → Bool
is_duplicate_of r done = elim r.status [ event_duplicate ↦ is_done r.event_id done | _ ↦ false ]

abbrev pub add_done : ApplyResult → List String → List String
add_done r done =
    if is_applied_or_duplicate r.status
    then (elim r.event_id [ none ↦ done | some key ↦ key ∷ done ])
    else done

module _ {D : Type 0} (fmt : EventFormat) (applier : Option (Applier D))
    (lookup : Option (Lookup D)) where
  -- `_dry_run_replay`
  unfoldable pub dry_run_replay : List ApplyContext → Seen → D → List ApplyResult × D
  dry_run_replay [] seen d = ([], d)
  dry_run_replay (x ∷ xs) seen d =
      let (r, d') = apply_candidate fmt applier lookup (with_permission false x) d in
      let (r', seen') = check_seen r r.event_id r.order_event seen in
      let (rs, d'') = dry_run_replay xs seen' d' in (r' ∷ rs, d'')

  -- The live turns, each with the result of its preflight.
  unfoldable pub live_replay :
      List ApplyContext → List ApplyResult → List String → D → List ApplyResult × D
  live_replay [] checks done d = ([], d)
  live_replay (x ∷ xs) [] done d = ([], d)
  live_replay (x ∷ xs) (c ∷ checks) done d =
      let (r, d') = apply_candidate fmt applier lookup (with_permission true x) d in
      let skipped = live_replay xs checks done d in
      let applied = live_replay xs checks (add_done r done) d' in
      if is_duplicate_of c done
      then (record c { dry_run = false } ∷ skipped.0, skipped.1)
      else (r ∷ applied.0, applied.1)

  abbrev pub after_preflight :
      Bool → List ApplyContext → List ApplyResult × D → List ApplyResult × D
  after_preflight live xs (preflight, d) =
      if not live
      then (preflight, d)
      else if any is_conflict preflight
      then (preflight, d)
      else live_replay xs preflight [] d

  unfoldable pub replay_oms_order_events :
      Format → Bool → List ApplyContext → D → List ApplyResult × D
  replay_oms_order_events texts live xs d =
      let ordered = sort_by (context_before texts) xs in
      after_preflight live ordered (dry_run_replay ordered [] d)

  pub dry_run_replay-db :
      (xs : List ApplyContext) (seen : Seen) (d : D) → (dry_run_replay xs seen d).1 ≡ d
  unfolding dry_run_replay
  dry_run_replay-db [] seen d = refl
  dry_run_replay-db (x ∷ xs) seen d =
      dry_run_replay-db xs _ (apply_candidate fmt applier lookup (with_permission false x) d).1
      ∙ dry_run_keeps applier lookup (with_permission false x) d fmt refl

  after_preflight-db :
      (live : Bool) (xs : List ApplyContext) (p : List ApplyResult × D) (d : D)
      → p.1 ≡ d
      → ((live ≡ true) × (any is_conflict p.0 ≡ false)) ⊎ ((after_preflight live xs p).1 ≡ d)
  after_preflight-db false xs p d kept = inr kept
  after_preflight-db true xs (checks, d') d kept = elim (Bool-cases (any is_conflict checks)) [
    | inl conflict ↦ inr (rw conflict kept)
    | inr clean ↦ inl (refl, clean)
  ]

  -- A replay of candidates changes nothing unless it may apply and its whole preflight is free of conflicts.
  pub replay_conflict_keeps :
      (texts : Format) (live : Bool) (xs : List ApplyContext) (d : D)
      → ((live ≡ true)
          × (any is_conflict (dry_run_replay (sort_by (context_before texts) xs) [] d).0 ≡ false))
        ⊎ ((replay_oms_order_events texts live xs d).1 ≡ d)
  unfolding replay_oms_order_events
  replay_conflict_keeps texts live xs d =
      let ordered = sort_by (context_before texts) xs in
      after_preflight-db live ordered (dry_run_replay ordered [] d) d
        (dry_run_replay-db ordered [] d)

Steps-on : {d e f : OmsDb} → Steps d e → Steps e f → Steps d f
Steps-on a Steps.here = a
Steps-on a (Steps.next b s) = Steps.next (Steps-on a b) s

module _ (fmt : EventFormat) where
  abbrev pub live_over_oms :
      List ApplyContext → List ApplyResult → List String → OmsDb → List ApplyResult × OmsDb
  live_over_oms = live_replay fmt (some oms_applier) (some oms_lookup)

  live_replay-Steps :
      (xs : List ApplyContext) (checks : List ApplyResult) (done : List String) (d : OmsDb)
      → Steps d (live_over_oms xs checks done d).1
  unfolding live_replay apply_to_oms
  live_replay-Steps [] checks done d = Steps.here
  live_replay-Steps (x ∷ xs) [] done d = Steps.here
  live_replay-Steps (x ∷ xs) (c ∷ checks) done d =
      let step = (apply_to_oms-Steps fmt (with_permission true x) d).0 in
      let later = live_replay-Steps xs checks _ (apply_to_oms fmt (with_permission true x) d).1 in
      elim (Bool-cases (is_duplicate_of c done)) [
        | inl twice ↦ rw twice (live_replay-Steps xs checks done d)
        | inr first ↦ rw first (Steps-on step later)
      ]

  preflight-Steps :
      (live : Bool) (xs : List ApplyContext) (p : List ApplyResult × OmsDb) (d : OmsDb)
      → p.1 ≡ d
      → Steps d (after_preflight fmt (some oms_applier) (some oms_lookup) live xs p).1
  preflight-Steps false xs p d kept = same_db kept
  preflight-Steps true xs (checks, d') d kept = elim (Bool-cases (any is_conflict checks)) [
    | inl conflict ↦ rw conflict (same_db kept)
    | inr clean ↦ rw clean (Steps-on (same_db kept) (live_replay-Steps xs checks [] d'))
  ]

  -- A replay of candidates over the OMS commits a sequence of steps of the journal, and nothing at all unless it may
  -- apply and its whole preflight is free of conflicts.
  pub replay_to_oms-Steps :
      (texts : Format) (live : Bool) (xs : List ApplyContext) (d : OmsDb)
      → let ordered = sort_by (context_before texts) xs in
        let preflight = dry_run_replay fmt (some oms_applier) (some oms_lookup) ordered [] d in
        let d' =
          (replay_oms_order_events fmt (some oms_applier) (some oms_lookup) texts live xs d).1 in
        Steps d d' × (((live ≡ true) × (any is_conflict preflight.0 ≡ false)) ⊎ (d' ≡ d))
  unfolding replay_oms_order_events
  replay_to_oms-Steps texts live xs d =
      let ordered = sort_by (context_before texts) xs in
      (
        preflight-Steps live ordered
            (dry_run_replay fmt (some oms_applier) (some oms_lookup) ordered [] d) d
            (dry_run_replay-db fmt (some oms_applier) (some oms_lookup) ordered [] d),
        replay_conflict_keeps fmt (some oms_applier) (some oms_lookup) texts live xs d,
      )
