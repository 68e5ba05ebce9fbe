-- ===== src/Oms/Trace.antt =====
-- Sequences of calls to `OMSService`, each in a unit of work of its own, and what holds after any of them.
use yanzl.Prelude.{ℕ, suc, ◌≡◌, refl, true, false, ◌||◌, some, List, [], ◌∷◌, String, arith}
use yanzl.Prelude.Tests.{if◌then◌else◌}
use yanzl.Prelude.Equality.{==_refl, Option_eq}
use yanzl.Prelude.Lists.{length}
use yanzl.Domain.Enums.{risk_accepted, unknown, OrderStatus_eq}
use yanzl.Domain.Orders.{
  OrderId, numeral, OrderRequest, RiskResult, OrderEvent, OrderEventApplicationResult, applied,
  ignored_terminal,
}
use yanzl.Database.UnitOfWork.{ok}
use yanzl.Oms.Status.{is_terminal}
use yanzl.Oms.Status.Graph.{before_risk}
use yanzl.Oms.Store.{OrderRow, OmsDb, find_order, events_of, order_to_domain}
use yanzl.Oms.Events.{Format, result}
use yanzl.Oms.Journal.{Steps}
use yanzl.Oms.Journal.Consistency.{history, IsConsistent, Steps-IsConsistent}
use yanzl.Oms.Journal.Safety.{Steps-terminal, enters, replay_status-gate}
use yanzl.Oms.Service.{apply_order_event, apply_risk_result}
use yanzl.Oms.Service.Refinement.{apply_order_event-Steps}
use yanzl.Oms.Service.Verdict.{apply_risk_result-Steps}
use yanzl.Oms.Recovery.{create_order, recover_order, reconcile, replay_status}
use yanzl.Oms.Recovery.Refinement.{create_order-Steps, recover_order-Steps}

-- One call, with the instant that the clock gives and the key that the database would give.
pub data Call : Type 0 where
  create : ℕ → ℕ → OrderRequest → String → Call
  risk_result : OrderId → RiskResult → String → ℕ → Call
  order_event : OrderEvent → Call
  recover : ℕ → OrderId → Call

abbrev pub empty : OmsDb
empty = record { orders = []; events = [] }

module _ (fmt : Format) where
  unfoldable pub call : Call → OmsDb → OmsDb
  call (create now next_id request key) d = (create_order fmt now next_id request key d).1
  call (risk_result o r key at) d = (apply_risk_result o r key at d).1
  call (order_event e) d = (apply_order_event e d).1
  call (recover now o) d = (recover_order fmt now o d).1

  unfoldable pub run : List Call → OmsDb → OmsDb
  unfolding call
  run [] d = d
  run (c ∷ cs) d = run cs (call c d)

  -- Whatever a call of the service commits, it is a sequence of steps of the journal.
  pub call-Steps : (c : Call) (d : OmsDb) → Steps d (call c d)
  unfolding call
  call-Steps (create now next_id request key) d = create_order-Steps fmt now next_id request key d
  call-Steps (risk_result o r key at) d = apply_risk_result-Steps o r key at d
  call-Steps (order_event e) d = apply_order_event-Steps e d
  call-Steps (recover now o) d = recover_order-Steps fmt now o d

  pub run-IsConsistent : (cs : List Call) (d : OmsDb) → IsConsistent d → IsConsistent (run cs d)
  unfolding run
  run-IsConsistent [] d h = h
  run-IsConsistent (c ∷ cs) d h =
      run-IsConsistent cs (call c d) (Steps-IsConsistent (call-Steps c d) h)

  pub empty-IsConsistent : IsConsistent empty
  unfolding find_order events_of
  empty-IsConsistent = record {
    replays = λ id r h. cc;
    counted = λ id r h. cc;
    owned = λ id h. refl;
  }

  -- After any calls on an empty database, each order has the status that its own events replay to, and
  -- one event more than its version counts.
  pub run_replays :
      (cs : List Call) (id : ℕ) (r : OrderRow)
      → find_order id (run cs empty).orders ≡ some r
      → (replay_status (history id (run cs empty)) ≡ some r.status)
        × (length (history id (run cs empty)) ≡ suc r.version)
  run_replays cs id r found =
      let c = run-IsConsistent cs empty empty-IsConsistent in
      (c.replays id r found, c.counted id r found)

  -- A terminal order is left as it is, its row included, by whatever calls follow.
  pub run_terminal :
      (cs : List Call) (d : OmsDb) (id : ℕ) (r : OrderRow)
      → find_order id d.orders ≡ some r
      → is_terminal r.status ≡ true
      → find_order id (run cs d).orders ≡ some r
  unfolding run
  run_terminal [] d id r found ends = found
  run_terminal (c ∷ cs) d id r found ends =
      run_terminal cs (call c d) id r (Steps-terminal id r (call-Steps c d) found ends) ends

  -- After any calls on an empty database, an order whose status lies past the risk check has an event that
  -- moved it to RISK_ACCEPTED, or one that moved it to UNKNOWN.
  pub run_risk_gate :
      (cs : List Call) (id : ℕ) (r : OrderRow)
      → find_order id (run cs empty).orders ≡ some r
      → before_risk r.status ≡ false
      → (enters risk_accepted (history id (run cs empty))
          || enters unknown (history id (run cs empty)))
        ≡ true
  run_risk_gate cs id r found past =
      replay_status-gate r.status _ (run_replays cs id r found).0 past

  -- What a recovery answers where it finds nothing to do.
  abbrev pub nothing_to_recover : OrderRow → OrderEventApplicationResult
  nothing_to_recover r =
      if is_terminal r.status
      then result ignored_terminal (order_to_domain r) (some "terminal_order_recovery_noop")
      else result applied (order_to_domain r) (some "replay_consistent_noop")

  reconcile_same :
      (now id : ℕ) (r : OrderRow) (d : OmsDb)
      → find_order id d.orders ≡ some r
      → replay_status (history id d) ≡ some r.status
      → recover_order fmt now (numeral id) d ≡ (ok (nothing_to_recover r), d)
  unfolding recover_order reconcile
  reconcile_same now id r d found replays = ground (arith, ==_refl (some r.status))

  -- The service leaves nothing to recover: after any calls on an empty database, recoveries among them, the
  -- recovery of any order that is stored is a no-op that says so, and the database stays as it is.
  pub run_recovers :
      (cs : List Call) (now id : ℕ) (r : OrderRow)
      → find_order id (run cs empty).orders ≡ some r
      → recover_order fmt now (numeral id) (run cs empty)
        ≡ (ok (nothing_to_recover r), run cs empty)
  run_recovers cs now id r found =
      reconcile_same now id r (run cs empty) found (run_replays cs id r found).0
