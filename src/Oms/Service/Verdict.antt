-- ===== src/Oms/Service/Verdict.antt =====
-- What `apply_risk_result` leaves, as steps of the journal.
use yanzl.Prelude.{ℕ, ◌≡◌, refl, true, none, some, inl, inr, [], ◌∷◌, String, arith}
use yanzl.Prelude.Tests.{Option-cases}
use yanzl.Prelude.Equality.{Option_eq}
use yanzl.Domain.Enums.{
  created, risk_checking, risk_accepted, rejected_by_risk, risk, RiskDecision, accepted, rejected,
  OrderStatus_eq,
}
use yanzl.Domain.Orders.{OrderId, numeral, malformed, RiskResult}
use yanzl.Oms.Status.{can_transition}
use yanzl.Oms.Store.{OrderRow, OrderEventRow, OmsDb, find_order, find_event, order_to_domain}
use yanzl.Oms.Store.Laws.{advance, find_order-set_status_self}
use yanzl.Oms.Events.{risk_checking_event_id, duplicate_after_rollback_result}
use yanzl.Oms.Journal.{move, moved, Steps, here, next, same_db}
use yanzl.Oms.Writes.Effects.{clean}
use yanzl.Oms.Service.{apply_risk_result, by_decision}
use yanzl.Oms.Service.Effects.{
  check_event, verdict_event, except_exists-db, duplicate_after_rollback_result-db,
  apply_risk_accepted-db, apply_risk_rejected-db,
}

module _ (d : OmsDb) (id : ℕ) (q : OrderRow) (found : find_order id d.orders ≡ some q) where
  -- Two moves in one commit, the second from the status that the first has set.
  accepted_twice-Steps :
      (r : RiskResult) (key : String) (now : ℕ)
      → let checked = advance q risk_checking in
        let mid = move d id (check_event q r key now) in
        q.status ≡ created
        → can_transition created risk_checking ≡ true
        → find_event risk (risk_checking_event_id key) d.events ≡ none
        → can_transition risk_checking risk_accepted ≡ true
        → find_event risk key mid.events ≡ none
        → Steps d (move mid id (verdict_event checked risk_accepted r key now))
  accepted_twice-Steps r key now at checks free accepts new =
      let reached = find_order-set_status_self id risk_checking d.orders q found in
      let first = moved id q (check_event q r key now) found (rw at) (rw at checks) free refl in
      let checked = advance q risk_checking in
      next (next here first) (
        moved id checked (verdict_event checked risk_accepted r key now) reached refl accepts new
          refl)

  by_decision-Steps :
      (c : RiskDecision) (r : RiskResult) (key : String) (now : ℕ)
      → Steps d (by_decision c (order_to_domain q) r key now (clean d)).1.committed
  by_decision-Steps accepted r key now = elim (apply_risk_accepted-db d id q found r key now) [
    | inl same ↦ same_db same
    | inr (inl (allowed, new, is)) ↦
        next here (moved id q (verdict_event q risk_accepted r key now) found refl allowed new is)
    | inr (inr (at, checks, free, accepts, new, is)) ↦
        rw is (accepted_twice-Steps r key now at checks free accepts new)
  ]
  by_decision-Steps rejected r key now = elim (apply_risk_rejected-db d id q found r key now) [
    | inl same ↦ same_db same
    | inr (allowed, new, is) ↦
        next here
          (moved id q (verdict_event q rejected_by_risk r key now) found refl allowed new is)
  ]

  apply_risk_result-eq_decision :
      (r : RiskResult) (key : String) (now : ℕ)
      → find_event risk key d.events ≡ none
      → (apply_risk_result (numeral id) r key now d).1
        ≡ (by_decision r.decision (order_to_domain q) r key now (clean d)).1.committed
  unfolding apply_risk_result
  apply_risk_result-eq_decision r key now new =
      let retry = risk_checking_event_id key in
      ground (
        arith,
        except_exists-db (by_decision r.decision (order_to_domain q) r key now)
            (duplicate_after_rollback_result (order_to_domain q) risk key (retry ∷ [])) (clean d)
            (duplicate_after_rollback_result-db (order_to_domain q) risk key retry),
      )

  apply_risk_result-seen :
      (r : RiskResult) (key : String) (now : ℕ) (old : OrderEventRow)
      → find_event risk key d.events ≡ some old
      → (apply_risk_result (numeral id) r key now d).1 ≡ d
  unfolding apply_risk_result
  apply_risk_result-seen r key now old seen = ground arith

no_order-same :
    (o : OrderId) (r : RiskResult) (key : String) (now : ℕ) (d : OmsDb)
    → (elim o [ numeral id ↦ find_order id d.orders | malformed t ↦ none ]) ≡ none
    → (apply_risk_result o r key now d).1 ≡ d
unfolding apply_risk_result
no_order-same o r key now d missing = ground arith

-- A risk result moves a new order twice or a checked one once, or writes nothing.
pub apply_risk_result-Steps :
    (o : OrderId) (r : RiskResult) (key : String) (now : ℕ) (d : OmsDb)
    → Steps d (apply_risk_result o r key now d).1
apply_risk_result-Steps (malformed t) r key now d =
    same_db (no_order-same (malformed t) r key now d refl)
apply_risk_result-Steps (numeral id) r key now d = elim (Option-cases (find_order id d.orders)) [
  | inl missing ↦ same_db (no_order-same (numeral id) r key now d missing)
  | inr (q, found) ↦ elim (Option-cases (find_event risk key d.events)) [
    | inl new ↦
        rw (apply_risk_result-eq_decision d id q found r key now new)
          (by_decision-Steps d id q found r.decision r key now)
    | inr (old, seen) ↦ same_db (apply_risk_result-seen d id q found r key now old seen)
  ]
]
