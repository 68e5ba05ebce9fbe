-- ===== src/Oms/Service/Effects.antt =====
-- What the public methods of the OMS leave in the database.
use yanzl.Prelude.{ℕ, ◌≡◌, refl, true, none, some, ◌⊎◌, [], ◌∷◌, String, arith}
use yanzl.Prelude.Equality.{Option_eq}
use yanzl.Domain.Enums.{
  OrderStatus, created, risk_checking, risk_accepted, rejected_by_risk, risk, EventSource,
  OrderStatus_eq, status_eq_iff,
}
use yanzl.Domain.Orders.{OrderState, OrderEvent, RiskResult}
use yanzl.Database.UnitOfWork.{
  Session, Result, ok, err, event_already_exists, Uow, except_exists, handle_exists,
}
use yanzl.Oms.Status.{can_transition}
use yanzl.Oms.Store.{OrderRow, OmsDb, find_order, find_event, order_to_domain}
use yanzl.Oms.Store.Laws.{advance, find_order-id, find_order-set_status_self}
use yanzl.Oms.Events.{risk_event, risk_checking_event_id, duplicate_after_rollback_result}
use yanzl.Oms.Journal.{move}
use yanzl.Oms.Writes.Effects.{clean}
use yanzl.Oms.Service.{accept_risk, apply_risk_accepted, apply_risk_rejected}

-- A handler that leaves what is committed alone does not matter to it.
pub except_exists-db :
    {D A : Type 0} (m handler : Uow D A) (s : Session D)
    → ((t : Session D) → (handler t).1.committed ≡ t.committed)
    → (except_exists m handler s).1.committed ≡ (m s).1.committed
except_exists-db m handler s keeps = go (m s).0 (m s).1
  where
    go : (r : Result _) (t : Session _) → (handle_exists r handler t).1.committed ≡ t.committed
    go (ok a) t = refl
    go (err (event_already_exists k)) t = keeps t
    go (err e) t = refl

pub duplicate_after_rollback_result-db :
    (order : OrderState) (source : EventSource) (k j : String) (s : Session OmsDb)
    → (duplicate_after_rollback_result order source k (j ∷ []) s).1.committed ≡ s.committed
duplicate_after_rollback_result-db order source k j s = ground arith

-- The events of the risk component, from the row that they move.
abbrev pub check_event : OrderRow → RiskResult → String → ℕ → OrderEvent
check_event q r key now =
    risk_event (order_to_domain (advance q risk_checking)) created risk_checking r
      (risk_checking_event_id key) now

abbrev pub verdict_event : OrderRow → OrderStatus → RiskResult → String → ℕ → OrderEvent
verdict_event q status r key now =
    risk_event (order_to_domain (advance q status)) q.status status r key now

module _ (c w : OmsDb) (id : ℕ) (q : OrderRow) (found : find_order id w.orders ≡ some q) where
  -- The last step of an acceptance commits what the session has written so far, or nothing.
  pub accept_risk-db :
      (r : RiskResult) (key : String) (now : ℕ)
      → let s : Session OmsDb = record { committed = c; working = w } in
        let d' = (accept_risk (order_to_domain q) r key now s).1.committed in
        (d' ≡ c)
        ⊎ ((can_transition q.status risk_accepted ≡ true)
            × (find_event risk key w.events ≡ none)
            × (d' ≡ move w id (verdict_event q risk_accepted r key now)))
  unfolding accept_risk
  accept_risk-db r key now =
      ground
        (arith, find_order-id id w.orders q, find_order-set_status_self id risk_accepted w.orders q)

module _ (d : OmsDb) (id : ℕ) (q : OrderRow) (found : find_order id d.orders ≡ some q) where
  pub apply_risk_rejected-db :
      (r : RiskResult) (key : String) (now : ℕ)
      → let d' = (apply_risk_rejected (order_to_domain q) r key now (clean d)).1.committed in
        (d' ≡ d)
        ⊎ ((can_transition q.status rejected_by_risk ≡ true)
            × (find_event risk key d.events ≡ none)
            × (d' ≡ move d id (verdict_event q rejected_by_risk r key now)))
  unfolding apply_risk_rejected
  apply_risk_rejected-db r key now = ground (
    arith,
    find_order-id id d.orders q,
    find_order-set_status_self id rejected_by_risk d.orders q,
  )

  -- A new order is moved twice in one commit, by the risk check and by its result.
  pub apply_risk_accepted-db :
      (r : RiskResult) (key : String) (now : ℕ)
      → let checked = advance q risk_checking in
        let mid = move d id (check_event q r key now) in
        let d' = (apply_risk_accepted (order_to_domain q) r key now (clean d)).1.committed in
        (d' ≡ d)
        ⊎ ((can_transition q.status risk_accepted ≡ true)
            × (find_event risk key d.events ≡ none)
            × (d' ≡ move d id (verdict_event q risk_accepted r key now)))
        ⊎ ((q.status ≡ created)
            × (can_transition created risk_checking ≡ true)
            × (find_event risk (risk_checking_event_id key) d.events ≡ none)
            × (can_transition risk_checking risk_accepted ≡ true)
            × (find_event risk key mid.events ≡ none)
            × (d' ≡ move mid id (verdict_event checked risk_accepted r key now)))
  unfolding apply_risk_accepted
  apply_risk_accepted-db r key now =
      let mid = move d id (check_event q r key now) in
      let reached = find_order-set_status_self id risk_checking d.orders q in
      ground (
        arith,
        status_eq_iff q.status created,
        find_order-id id d.orders q,
        reached,
        accept_risk-db d d id q found r key now,
        accept_risk-db d mid id (advance q risk_checking) (reached found) r key now,
      )
