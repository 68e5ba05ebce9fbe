-- ===== src/Reports/Application/Laws.antt =====
-- What an application of a candidate changes and answers.
use yanzl.Prelude.{
  ℕ, ◌≡◌, refl, ◌≢◌, ap, ◌∙◌, Bool, true, false, not, Option, none, some, ◌⊎◌, inl, inr, arith,
}
use yanzl.Prelude.Tests.{Bool-cases, if◌then◌else◌}
use yanzl.Prelude.Equality.{Option_eq}
use yanzl.Domain.Enums.{OrderStatus, execution_report_normalizer, unknown}
use yanzl.Domain.Orders.{OrderState, OrderEventApplicationResult, numeral}
use yanzl.Database.UnitOfWork.{Result, ok, err}
use yanzl.Oms.Journal.{Steps, move}
use yanzl.Oms.Store.{OrderRow, OmsDb, OrderEventRow, find_order, find_event, order_to_domain}
use yanzl.Oms.Store.Laws.{advance}
use yanzl.Oms.Status.{can_transition}
use yanzl.Oms.Service.Retries.{apply_order_event-applied}
use yanzl.Oms.Service.{apply_order_event}
use yanzl.Oms.Service.Refinement.{apply_order_event-Steps}
use yanzl.Reports.Models.{ReportEvent, OrderEventCandidate, ExecutionReportStatus}
use yanzl.Reports.Normalizer.{order_status_of}
use yanzl.Reports.Events.{
  EventFormat, ApplyContext, ApplyResult, Mapped, mapped, unmapped, event_applied, event_conflict,
  dry_run_only, says, event_of, build_oms_order_event_id, map_candidate_to_order_event, map_status,
  map_target, candidate_no_event_reason, invalid_context_reason, same_canonical_event, is_canonical,
}
use yanzl.Reports.Application.{
  Applier, Lookup, event_result, precheck_existing_event, apply_event, apply_mapped, early_answer,
  apply_candidate, answered, unless_checked,
}
use yanzl.Reports.Application.Oms.{stored_event, oms_applier, oms_lookup, apply_to_oms}

early_answer_or :
    {D : Type 0} (P : ApplyResult × D → Type 0) (answer : Option ApplyResult) (d : D)
    (rest : ApplyResult × D)
    → ((r : ApplyResult) → answer ≡ some r → P (r, d))
    → (answer ≡ none → P rest)
    → P (unless_checked answer d rest)
early_answer_or P none d rest early late = late refl
early_answer_or P (some r) d rest early late = early r refl

module _ {D : Type 0} (applier : Option (Applier D)) (lookup : Option (Lookup D)) (x : ApplyContext)
    (d : D) where
  apply_event-dry :
      (e : ReportEvent) → x.allow_live_apply ≡ false → (apply_event applier lookup x e d).1 ≡ d
  unfolding apply_event
  apply_event-dry e dry =
      early_answer_or (λ (p : ApplyResult × D). p.1 ≡ d) (precheck_existing_event lookup x e d) d _
        (λ r q. refl) (λ q. rw dry refl)

  apply_mapped-dry :
      (fmt : EventFormat) (m : Mapped)
      → x.allow_live_apply ≡ false
      → (apply_mapped fmt applier lookup x m d).1 ≡ d
  apply_mapped-dry fmt (unmapped reason) dry = refl
  apply_mapped-dry fmt (mapped e) dry = apply_event-dry e dry

  -- Without the permission to apply, the service changes nothing, whatever it is given.
  pub dry_run_keeps :
      (fmt : EventFormat)
      → x.allow_live_apply ≡ false
      → (apply_candidate fmt applier lookup x d).1 ≡ d
  unfolding apply_candidate
  dry_run_keeps fmt dry =
      early_answer_or (λ (p : ApplyResult × D). p.1 ≡ d) (early_answer fmt x) d _ (λ r q. refl)
        (λ q. apply_mapped-dry fmt _ dry)

answered-Steps :
    (x : ApplyContext) (e : ReportEvent) (d : OmsDb)
    (p : Result OrderEventApplicationResult × OmsDb)
    → Steps d p.1
    → Steps d (answered x e p).1
answered-Steps x e d (ok r, d') h = h
answered-Steps x e d (err error, d') h = h

module _ (fmt : EventFormat) (x : ApplyContext) (d : OmsDb) where
  unless_dry-Steps :
      (dry : Bool) (r : ApplyResult) (p : ApplyResult × OmsDb)
      → Steps d p.1
      → Steps d (if dry then (r, d) else p).1
  unless_dry-Steps true r p h = Steps.here
  unless_dry-Steps false r p h = h

  apply_event-Steps :
      (e : ReportEvent) → Steps d (apply_event (some oms_applier) (some oms_lookup) x e d).1
  unfolding apply_event
  apply_event-Steps e =
      early_answer_or (λ (p : ApplyResult × OmsDb). Steps d p.1)
        (precheck_existing_event (some oms_lookup) x e d) d _ (λ r q. Steps.here)
        (λ q.
          unless_dry-Steps (not x.allow_live_apply) _ _
            (answered-Steps x e d (apply_order_event e.base d) (apply_order_event-Steps e.base d)))

  apply_mapped-Steps :
      (m : Mapped) → Steps d (apply_mapped fmt (some oms_applier) (some oms_lookup) x m d).1
  apply_mapped-Steps (unmapped reason) = Steps.here
  apply_mapped-Steps (mapped e) = apply_event-Steps e

  -- Over the OMS, whatever a candidate commits is a sequence of steps of the journal of events, and nothing at all
  -- without the permission to apply.
  pub apply_to_oms-Steps :
      Steps d (apply_to_oms fmt x d).1
      × ((x.allow_live_apply ≡ true) ⊎ ((apply_to_oms fmt x d).1 ≡ d))
  unfolding apply_to_oms apply_candidate
  apply_to_oms-Steps = (
    early_answer_or (λ (p : ApplyResult × OmsDb). Steps d p.1) (early_answer fmt x) d _
        (λ r q. Steps.here) (λ q. apply_mapped-Steps _),
    elim (Bool-cases x.allow_live_apply) [
      | inl live ↦ inl live
      | inr dry ↦ inr (dry_run_keeps (some oms_applier) (some oms_lookup) x d fmt dry)
    ],
  )

  -- A candidate that the checks of the context pass, of a status that has an event.
  pub record IsMappable (s : ExecutionReportStatus) (status : OrderStatus) : Type 0 where
    pub valid : invalid_context_reason x ≡ none
    pub reported : x.order_event_candidate.execution_status ≡ some s
    pub target : order_status_of s ≡ some status

  abbrev pub built : OrderStatus → ReportEvent
  built status = event_of fmt x.order_event_candidate x.current_order_state status

  has_event :
      (s : ExecutionReportStatus) (status : OrderStatus)
      → IsMappable s status
      → candidate_no_event_reason x.order_event_candidate ≡ none
  unfolding candidate_no_event_reason
  has_event s status h = rw h.reported (ground (arith, h.target))

  maps_to :
      (s : ExecutionReportStatus) (status : OrderStatus)
      → IsMappable s status
      → map_candidate_to_order_event fmt x.order_event_candidate x.current_order_state
        ≡ mapped (built status)
  unfolding map_candidate_to_order_event
  maps_to s status h =
      ap (map_status fmt x.order_event_candidate x.current_order_state) h.reported
      ∙ ap (map_target fmt x.order_event_candidate x.current_order_state s) h.target

  apply_to_oms-mapped :
      (s : ExecutionReportStatus) (status : OrderStatus)
      → IsMappable s status
      → apply_to_oms fmt x d ≡ apply_event (some oms_applier) (some oms_lookup) x (built status) d
  unfolding apply_to_oms apply_candidate early_answer
  apply_to_oms-mapped s status h = rw (h.valid, has_event s status h, maps_to s status h) refl

  -- An event that comes back from the table has lost its typed fields.
  stored-same_canonical :
      (e : ReportEvent) (row : OrderEventRow) → same_canonical_event e (stored_event row) ≡ false
  unfolding same_canonical_event is_canonical
  stored-same_canonical e row = ground arith

  conflict_on :
      (e : ReportEvent) (row : OrderEventRow)
      → find_event e.base.event_source e.base.external_event_id d.events ≡ some row
      → apply_event (some oms_applier) (some oms_lookup) x e d
        ≡ (event_result x e event_conflict (some (says "order_event_canonical_conflict")), d)
  unfolding apply_event precheck_existing_event
  conflict_on e row seen = rw (seen, stored-same_canonical e row) refl

  -- Over the OMS's own tables, a candidate whose event is on record, be it the very event that this candidate
  -- once gave, is always answered with CONFLICT and never with DUPLICATE; the database stays as it is.
  pub redelivered_conflict :
      (s : ExecutionReportStatus) (status : OrderStatus) (row : OrderEventRow)
      → IsMappable s status
      → find_event execution_report_normalizer
          (build_oms_order_event_id fmt x.order_event_candidate)
          d.events
        ≡ some row
      → apply_to_oms fmt x d ≡ (
        event_result x (built status) event_conflict (some (says "order_event_canonical_conflict")),
        d,
      )
  redelivered_conflict s status row h seen =
      apply_to_oms-mapped s status h ∙ conflict_on (built status) row seen

  -- The answer of a live application that the OMS takes.
  abbrev pub taken : OrderState → OrderStatus → ApplyResult
  taken order status = record (event_result x (built status) event_applied none) {
    order_state = some order;
  }

  fresh_on :
      (e : ReportEvent) (r : OrderEventApplicationResult) (d' : OmsDb)
      → x.allow_live_apply ≡ true
      → find_event e.base.event_source e.base.external_event_id d.events ≡ none
      → apply_order_event e.base d ≡ (ok r, d')
      → apply_event (some oms_applier) (some oms_lookup) x e d ≡ answered x e (ok r, d')
  unfolding apply_event precheck_existing_event
  fresh_on e r d' live new answer = rw new (
      ap
        (λ b.
          if not b
          then (event_result x e dry_run_only none, d)
          else answered x e (apply_order_event e.base d))
        live
      ∙ ap (answered x e) answer)

module _ (fmt : EventFormat) (d : OmsDb) (id : ℕ) (r : OrderRow) (c : OrderEventCandidate) where
  -- A live application to the order as the database has it.
  abbrev pub live_context : ApplyContext
  live_context = record {
    order_event_candidate = c;
    current_order_state = order_to_domain r;
    allow_live_apply = true;
  }

  -- A candidate with a new event, for a live order that may move to its status, is applied: the answer is APPLIED
  -- with the moved order, and the database has the move and its one event.
  pub apply_to_oms-applied :
      (s : ExecutionReportStatus) (status : OrderStatus)
      → IsMappable fmt live_context d s status
      → find_order id d.orders ≡ some r
      → c.order_id ≡ numeral id
      → find_event execution_report_normalizer (build_oms_order_event_id fmt c) d.events ≡ none
      → r.status ≢ unknown
      → can_transition r.status status ≡ true
      → apply_to_oms fmt live_context d ≡ (
        taken fmt live_context d (order_to_domain (advance r status)) status,
        move d id (built fmt live_context d status).base,
      )
  apply_to_oms-applied s status h found same new known allowed =
      apply_to_oms-mapped fmt live_context d s status h
      ∙ fresh_on fmt live_context d (built fmt live_context d status) _ _ refl new (
          apply_order_event-applied d id r found (built fmt live_context d status).base same new
            known refl allowed)
