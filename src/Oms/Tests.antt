-- ===== src/Oms/Tests.antt =====
-- Orders on which the results about the OMS are tried.
use Prim.Native.String.{◌++◌ as append}
use yanzl.Prelude.{ℕ, zero, suc, ◌≡◌, refl, true, ◌||◌, none, some, ◌⊎◌, List, [], ◌∷◌, String}
use yanzl.Prelude.Int.{pos}
use yanzl.Prelude.Lists.{length}
use yanzl.Domain.Enums.{
  buy, open_offset, limit, OrderStatus, created, risk_checking, risk_accepted, submitting,
  submitted, filled, acked, unknown, ems, oms, accepted, OrderStatus_eq,
}
use yanzl.Domain.Orders.{numeral, OrderRequest, RiskResult, OrderEvent, applied, duplicate}
use yanzl.Database.UnitOfWork.{ok}
use yanzl.Oms.Status.{can_transition, is_terminal}
use yanzl.Oms.Store.{
  OrderRow, OrderEventRow, OmsDb, find_order, find_client_order, find_event, set_status,
  same_canonical_order_payload, order_to_domain, new_event,
}
use yanzl.Oms.Events.{Format, initial_event_id, result}
use yanzl.Oms.Journal.{open_order, Steps}
use yanzl.Oms.Journal.Consistency.{history}
use yanzl.Oms.Journal.Safety.{enters}
use yanzl.Oms.Service.{
  apply_order_event, dispatch_order_event, apply_risk_result, apply_risk_accepted, accept_risk,
}
use yanzl.Oms.Service.Retries.{apply_order_event-again}
use yanzl.Oms.Writes.{apply_validated_event}
use yanzl.Oms.Recovery.{create_order, recover_order, replay_status}
use yanzl.Oms.Recovery.Refinement.{create_order-db, initial_event}
use yanzl.Oms.Trace.{
  Call, create, risk_result, order_event, recover, empty, call, run, call-Steps, run_replays,
  run_recovers, nothing_to_recover, run_terminal, run_risk_gate,
}

-- Any injective printing of the numbers serves; these are tallies.
abbrev tally : ℕ → String
tally zero = "."
tally (suc n) = append "|" (tally n)

abbrev fmt : Format
fmt = record { str = tally; isoformat = tally }

abbrev request : OrderRequest
request = record {
  client_order_id = "c-1";
  account_id = "acc";
  instrument_id = "rb2510";
  exchange = "SHFE";
  direction = buy;
  offset = open_offset;
  order_type = limit;
  limit_price = pos 3500;
  quantity = pos 2;
}

abbrev passed : RiskResult
passed = record { decision = accepted; rule_name = "all_pass"; reason = none }

abbrev event : OrderStatus → OrderStatus → String → ℕ → OrderEvent
event from to key at = record {
  order_id = numeral 7;
  previous_status = some from;
  new_status = to;
  event_source = ems;
  external_event_id = key;
  raw_payload = [];
  occurred_at = at;
}

abbrev calls : List Call
calls =
    create 1 7 request "c-1"
    ∷ risk_result (numeral 7) passed "risk-1" 2
    ∷ order_event (event risk_accepted submitting "e-1" 3)
    ∷ []

abbrev row : OrderStatus → ℕ → OrderRow
row status version = record {
  id = 7;
  request = request;
  filled_quantity = pos 0;
  status = status;
  reject_reason = none;
  version = version;
}

-- What the calls make of the order.
run-calls : find_order 7 (run fmt calls empty).orders ≡ some (row submitting 3)
unfolding run call create_order apply_risk_result apply_risk_accepted accept_risk apply_order_event
    dispatch_order_event apply_validated_event find_order find_client_order find_event set_status
    is_terminal can_transition same_canonical_order_payload
run-calls = refl

run_replays_example :
    (replay_status (history 7 (run fmt calls empty)) ≡ some submitting)
    × (length (history 7 (run fmt calls empty)) ≡ 4)
run_replays_example = run_replays fmt calls 7 (row submitting 3) run-calls

run_risk_gate_example :
    (enters risk_accepted (history 7 (run fmt calls empty))
      || enters unknown (history 7 (run fmt calls empty)))
    ≡ true
run_risk_gate_example = run_risk_gate fmt calls 7 (row submitting 3) run-calls refl

-- A filled order, and the event that filled it.
abbrev filling : OrderEventRow
filling = new_event 7 (event acked filled "e-9" 9)

abbrev done : OmsDb
done = record { orders = row filled 5 ∷ []; events = filling ∷ [] }

filled-found : find_order 7 done.orders ≡ some (row filled 5)
unfolding find_order
filled-found = refl

filled-terminal : is_terminal filled ≡ true
unfolding is_terminal
filled-terminal = refl

run_terminal_example :
    find_order 7
      (run fmt
        (order_event (event acked submitted "late" 10) ∷ recover 11 (numeral 7) ∷ [])
        done).orders
    ≡ some (row filled 5)
run_terminal_example =
    run_terminal fmt (order_event (event acked submitted "late" 10) ∷ recover 11 (numeral 7) ∷ [])
      done 7 (row filled 5) filled-found filled-terminal

call-Steps_example :
    Steps done (call fmt (create 12 8 (record request { client_order_id = "c-2" }) "c-2") done)
call-Steps_example =
    call-Steps fmt (create 12 8 (record request { client_order_id = "c-2" }) "c-2") done

filling-found : find_event ems "e-9" done.events ≡ some filling
unfolding find_event
filling-found = refl

-- An order on its way, without events.
abbrev live : OmsDb
live = record { orders = row submitting 3 ∷ []; events = [] }

live-found : find_order 7 live.orders ≡ some (row submitting 3)
unfolding find_order
live-found = refl

abbrev accepted_there : OrderEvent
accepted_there = event submitting submitted "e-2" 4

live-new : find_event ems "e-2" live.events ≡ none
unfolding find_event
live-new = refl

may_submit : can_transition submitting submitted ≡ true
unfolding can_transition
may_submit = refl

apply_order_event-again_example :
    let d' = (apply_order_event accepted_there live).1 in
    let r' = order_to_domain (row submitted 4) in
    ((apply_order_event accepted_there live).0 ≡ ok (result applied r' none))
    × (apply_order_event accepted_there d'
        ≡ (ok (result duplicate r' (some "event_key_duplicate")), d'))
apply_order_event-again_example =
    apply_order_event-again live 7 (row submitting 3) live-found accepted_there refl live-new
      (λ h. cc) refl may_submit

run_recovers_example :
    recover_order fmt 20 (numeral 7) (run fmt calls empty)
    ≡ (ok (nothing_to_recover fmt (row submitting 3)), run fmt calls empty)
run_recovers_example = run_recovers fmt calls 20 7 (row submitting 3) run-calls

create_order-db_example :
    let d' = (create_order fmt 12 8 (record request { client_order_id = "c-2" }) "c-2" done).1 in
    (d' ≡ done)
    ⊎ ((find_order 8 done.orders ≡ none)
        × (find_client_order "c-2" done.orders ≡ none)
        × (find_event oms (initial_event_id fmt (numeral 8)) done.events ≡ none)
        × (d'
            ≡ open_order done 8
                (record request { client_order_id = "c-2" })
                "c-2"
                (initial_event fmt 12 8)))
create_order-db_example =
    create_order-db fmt 12 8 (record request { client_order_id = "c-2" }) "c-2" done

may_check : can_transition created risk_checking ≡ true
unfolding can_transition
may_check = refl
