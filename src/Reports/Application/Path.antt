-- ===== src/Reports/Application/Path.antt =====
-- Reports that arrive in turn: an order follows them along the transition table.
use yanzl.Prelude.{
  ℕ, ◌+◌, ◌≡◌, refl, sym, ap, ◌∙◌, ◌≢◌, ◌⊎◌, true, false, Option, none, some, List, [], ◌∷◌, ◌++◌,
  map, String, arith,
}
use yanzl.Prelude.Tests.{is_some}
use yanzl.Prelude.Lists.{contains, length}
use yanzl.Prelude.Text.{is_empty}
use yanzl.Prelude.Equality.{==_refl, ==_iff, String_eq}
use yanzl.Domain.Enums.{OrderStatus, execution_report_normalizer, unknown, EventSource_eq}
use yanzl.Domain.Orders.{numeral, OrderId_eq}
use yanzl.Oms.Journal.{move}
use yanzl.Oms.Status.{can_transition}
use yanzl.Oms.Store.{OrderRow, OmsDb, OrderEventRow, find_order, find_event, new_event}
use yanzl.Oms.Store.Laws.{advance, find_order-id, find_order-set_status_self, find_event-append_new}
use yanzl.Reports.Models.{OrderEventCandidate, ExecutionReportStatus, is_fill}
use yanzl.Reports.Normalizer.{order_status_of}
use yanzl.Reports.Events.{
  EventFormat, ApplyResult, build_oms_order_event_id, invalid_context_reason,
}
use yanzl.Reports.Application.Oms.{apply_to_oms}
use yanzl.Reports.Application.Laws.{IsMappable, live_context, built, apply_to_oms-applied}

-- A complete candidate for an order, of a status that has an event.
pub record IsComplete (id : ℕ) (c : OrderEventCandidate) (status : OrderStatus) : Type 0 where
  pub s : ExecutionReportStatus
  pub owner : c.order_id ≡ numeral id
  pub identified : is_empty c.normalized_report_id ≡ false
  pub reported : c.execution_status ≡ some s
  pub counted : is_some c.cumulative_filled_qty ≡ true
  pub priced : (is_fill s ≡ false) ⊎ ((is_some c.fill_price ≡ true) × (is_some c.filled_qty ≡ true))
  pub target : order_status_of s ≡ some status

-- Candidates that lead from one status to another along the transition table.
pub data Route (id : ℕ) : OrderStatus → List OrderEventCandidate → OrderStatus → Type 0 where
  arrived : {from : OrderStatus} → Route id from [] from
  leg :
      {from via to : OrderStatus} {c : OrderEventCandidate} {cs : List OrderEventCandidate}
      → IsComplete id c via
      → from ≢ unknown
      → can_transition from via ≡ true
      → Route id via cs to
      → Route id from (c ∷ cs) to

module _ (fmt : EventFormat) where
  abbrev pub key : OrderEventCandidate → String
  key c = build_oms_order_event_id fmt c

  -- The keys are new to the table, and no two of them are the same.
  abbrev pub AreFresh : List OrderEventRow → List OrderEventCandidate → Type 0
  AreFresh es [] = Unit {0}
  AreFresh es (c ∷ cs) =
      (find_event execution_report_normalizer (key c) es ≡ none)
      × (contains (map key cs) (key c) ≡ false)
      × AreFresh es cs

  -- One candidate after the other, each on the order as the one before left it.
  abbrev pub deliver_one : ℕ → OrderEventCandidate → Option OrderRow → OmsDb → OmsDb
  deliver_one id c none d = d
  deliver_one id c (some r) d = (apply_to_oms fmt (live_context fmt d id r c) d).1

  unfoldable pub deliver : ℕ → List OrderEventCandidate → OmsDb → OmsDb
  deliver id [] d = d
  deliver id (c ∷ cs) d = deliver id cs (deliver_one id c (find_order id d.orders) d)

  fresh_after :
      (es : List OrderEventRow) (e : OrderEventRow) (cs : List OrderEventCandidate)
      → contains (map key cs) e.external_event_id ≡ false
      → AreFresh es cs
      → AreFresh (es ++ e ∷ []) cs
  unfolding find_event
  fresh_after es e [] other h = tt
  fresh_after es e (c ∷ cs) other (new, apart, rest) = (
    ground (
      arith,
      find_event-append_new execution_report_normalizer (key c) es (e ∷ []) new,
      ==_iff (key c) e.external_event_id,
      ==_iff e.external_event_id (key c),
    ),
    apart,
    fresh_after es e cs (ground arith) rest,
  )

  complete-IsMappable :
      (d : OmsDb) (id : ℕ) (r : OrderRow) (c : OrderEventCandidate) (status : OrderStatus)
      → find_order id d.orders ≡ some r
      → (h : IsComplete id c status) → IsMappable fmt (live_context fmt d id r c) d h.s status
  unfolding invalid_context_reason
  complete-IsMappable d id r c status found h = record {
    valid =
        ground
          (arith, find_order-id id d.orders r found, ==_refl (numeral id), h.reported, h.priced);
    reported = h.reported;
    target = h.target;
  }

  deliver-leg :
      (id : ℕ) (c : OrderEventCandidate) (cs : List OrderEventCandidate) (d : OmsDb) (r : OrderRow)
      → find_order id d.orders ≡ some r
      → (res : ApplyResult) (d' : OmsDb)
      → apply_to_oms fmt (live_context fmt d id r c) d ≡ (res, d')
      → deliver id (c ∷ cs) d ≡ deliver id cs d'
  unfolding deliver
  deliver-leg id c cs d r found res d' step =
      ap (λ o. deliver id cs (deliver_one id c o d)) found
      ∙ ap (λ (p : ApplyResult × OmsDb). deliver id cs p.1) step

  arrives :
      (id : ℕ) (cs : List OrderEventCandidate) (d : OmsDb) (r : OrderRow) (from to : OrderStatus)
      → find_order id d.orders ≡ some r
      → r.status ≡ from
      → Route id from cs to
      → AreFresh d.events cs
      → (r' : OrderRow) × (find_order id (deliver id cs d).orders ≡ some r')
        × (r'.status ≡ to)
        × (r'.version ≡ r.version + length cs)
  unfolding deliver
  arrives id [] d r from to found at arrived fresh = (r, found, at, omega arith)
  arrives id (c ∷ cs) d r from to found at (leg {via} complete known allowed rest)
        (new, apart, fresh) =
      let e = (built fmt (live_context fmt d id r c) d via).base in
      let step : apply_to_oms fmt (live_context fmt d id r c) d ≡ _ =
        apply_to_oms-applied fmt d id r c complete.s via
          (complete-IsMappable d id r c via found complete) found complete.owner new
          (λ lost. known (sym at ∙ lost)) (ap (λ q. can_transition q via) at ∙ allowed) in
      let (r', found', status, version) =
        arrives id cs (move d id e) (advance r via) via to
          (find_order-set_status_self id via d.orders r found) refl rest
          (fresh_after d.events (new_event id e) cs apart fresh) in
      (
        r',
        ap (λ q. find_order id q.orders) (deliver-leg id c cs d r found _ _ step) ∙ found',
        status,
        omega (arith, version),
      )

  -- Candidates that are complete (they name this order, a report, a status that has an event, the cumulative
  -- quantity and, for a fill, its price and quantity), whose statuses lead along the transition table and from no
  -- UNKNOWN, and whose event keys are new and all different, carry the stored order along when they are applied in
  -- turn: the order ends in the last status, with one version more for each candidate.
  pub deliver-arrives :
      (id : ℕ) (cs : List OrderEventCandidate) (d : OmsDb) (r : OrderRow) (to : OrderStatus)
      → find_order id d.orders ≡ some r
      → Route id r.status cs to
      → AreFresh d.events cs
      → (r' : OrderRow) × (find_order id (deliver id cs d).orders ≡ some r')
        × (r'.status ≡ to)
        × (r'.version ≡ r.version + length cs)
  deliver-arrives id cs d r to found route fresh =
      arrives id cs d r r.status to found refl route fresh
