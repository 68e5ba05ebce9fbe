-- ===== src/Reports/Tests.antt =====
-- Reports, candidates and orders on which the results about reports are tried.
use yanzl.Prelude.{◌+◌, ◌≡◌, refl, true, false, none, some, ◌⊎◌, inl, inr, List, [], ◌∷◌, arith}
use yanzl.Prelude.Lists.{length}
use yanzl.Prelude.Int.{pos}
use yanzl.Prelude.Text.{is_blank}
use yanzl.Domain.Enums.{
  buy, open_offset, limit, submitting, acked, partially_filled, filled, execution_report_normalizer,
}
use yanzl.Domain.Orders.{numeral, OrderState}
use yanzl.Database.UnitOfWork.{ok}
use yanzl.Oms.Journal.{Steps, move}
use yanzl.Oms.Status.{can_transition}
use yanzl.Oms.Store.{OrderRow, OmsDb, find_order, find_event, order_to_domain, new_event}
use yanzl.Reports.Models.{
  report_acked, report_partially_filled, report_filled, sim_target, RawExecutionReport,
  NormalizedExecutionReport, OrderEventCandidate, LineageTrade, check_normalized, check_amounts,
  check_fee,
}
use yanzl.Reports.Normalizer.{
  ReportHashes, candidate_of, normalized_fields, duplicate_report, normalize,
  map_report_type_to_execution_status, record_report, append_new, find_raw, find_report,
  invalid_lineage_reason,
}
use yanzl.Reports.Normalizer.Laws.{is_recording, IsLedger, normalize-IsLedger, normalize-again}
use yanzl.Reports.Events.{EventFormat, ApplyContext, invalid_context_reason, event_conflict, says}
use yanzl.Reports.Application.{event_result}
use yanzl.Reports.Application.Oms.{apply_to_oms, oms_applier, oms_lookup}
use yanzl.Reports.Application.Laws.{IsMappable, built, redelivered_conflict, live_context}
use yanzl.Reports.Application.Path.{Route, arrived, leg, deliver, deliver-arrives}
use yanzl.Reports.Proof.{IdentityHash, BridgeContext, trade_created, trade_duplicate}
use yanzl.Reports.Trades.{TradeDb, find_trade, add_trade, is_taken}
use yanzl.Reports.Bridge.{bridge_result, create_trade}
use yanzl.Reports.Bridge.Laws.{
  IsTradeOf, IsKept, IsCreated, create_trade-outcome, is_creating, create_trade-again,
}
use yanzl.Prelude.Sort.{sort_by}
use yanzl.Prelude.Lists.{any}
use yanzl.Oms.Events.{Format}
use yanzl.Reports.Replay.{
  dry_run_replay, context_before, replay_oms_order_events, is_conflict, replay_to_oms-Steps,
}
use yanzl.Reports.Flow.{fill_context, fill_becomes_trade}

abbrev hashes : ReportHashes
hashes = record {
  sha_raw = λ p. p.raw_report_id;
  sha_report = λ c k o t. t;
  lower = λ t. t;
  prefix = λ a b. b;
}

abbrev format : EventFormat
format = record {
  event_key = λ p. p.report_id;
  decimal_value = λ v. "1";
  datetime_value = λ t. "2025-01-02T09:00:00";
}

abbrev identity_hash : IdentityHash
identity_hash = record { derived = λ p. p.report_id; strip = λ t. t }

abbrev raw : RawExecutionReport
raw = record {
  raw_report_id = "raw-1";
  adapter_name = "sim";
  execution_target = sim_target;
  command_id = "cmd-1";
  order_id = numeral 1;
  client_order_id = "c-1";
  adapter_order_ref = "ref-1";
  exchange_order_id = none;
  exchange_trade_id = some "T1";
  fill_id = none;
  report_type = "filled";
  filled_qty = pos 2;
  fill_price = some (pos 3500);
  cumulative_filled_qty = pos 2;
  remaining_qty = pos 0;
  fee_amount = none;
  fee_currency = none;
  fee_source = none;
  report_ts = 100;
  received_at = 101;
}

abbrev fill : NormalizedExecutionReport
fill = record {
  report_id = "er_3";
  raw_report_id = "raw-3";
  adapter_name = "sim";
  execution_target = sim_target;
  command_id = "cmd-1";
  order_id = numeral 1;
  client_order_id = "c-1";
  adapter_order_ref = "ref-1";
  exchange_order_id = none;
  exchange_trade_id = some "T1";
  fill_id = none;
  execution_status = report_filled;
  filled_qty = pos 2;
  fill_price = some (pos 3500);
  cumulative_filled_qty = pos 2;
  remaining_qty = pos 0;
  fee_amount = none;
  fee_currency = none;
  fee_source = none;
  report_ts = 100;
  normalized_at = 102;
  reason = none;
  source_report_hash = "h3";
}

abbrev ack_report : NormalizedExecutionReport
ack_report = record fill {
  report_id = "er_1";
  execution_status = report_acked;
  filled_qty = pos 0;
  fill_price = none;
}

abbrev part_report : NormalizedExecutionReport
part_report = record fill {
  report_id = "er_2";
  execution_status = report_partially_filled;
  filled_qty = pos 1;
}

abbrev row : OrderRow
row = record {
  id = 1;
  request = record {
    client_order_id = "c-1";
    account_id = "acc-1";
    instrument_id = "rb2510";
    exchange = "SHFE";
    direction = buy;
    offset = open_offset;
    order_type = limit;
    limit_price = pos 3500;
    quantity = pos 3;
  };
  filled_quantity = pos 0;
  status = submitting;
  reject_reason = none;
  version = 3;
}

abbrev db : OmsDb
db = record { orders = row ∷ []; events = [] }

abbrev ack_candidate : OrderEventCandidate
ack_candidate = candidate_of ack_report acked

abbrev candidates : List OrderEventCandidate
candidates =
    ack_candidate ∷ candidate_of part_report partially_filled ∷ candidate_of fill filled ∷ []

row_found : find_order 1 db.orders ≡ some row
unfolding find_order
row_found = refl

route : Route 1 submitting candidates filled
unfolding can_transition
route =
    leg
      (record {
        s = report_acked;
        owner = refl;
        identified = refl;
        reported = refl;
        counted = refl;
        priced = inl refl;
        target = refl;
      })
      (λ e. cc) refl
      (leg
        (record {
          s = report_partially_filled;
          owner = refl;
          identified = refl;
          reported = refl;
          counted = refl;
          priced = inr (refl, refl);
          target = refl;
        })
        (λ e. cc) refl
        (leg
          (record {
            s = report_filled;
            owner = refl;
            identified = refl;
            reported = refl;
            counted = refl;
            priced = inr (refl, refl);
            target = refl;
          })
          (λ e. cc) refl arrived))

-- The three reports take the order from SUBMITTING to FILLED.
deliver-arrives_example :
    (r' : OrderRow) × (find_order 1 (deliver format 1 candidates db).orders ≡ some r')
    × (r'.status ≡ filled)
    × (r'.version ≡ 3 + length candidates)
unfolding find_event
deliver-arrives_example =
    deliver-arrives format 1 candidates db row filled row_found route
      ((refl, refl, (refl, refl, (refl, refl, tt))))

-- A fill on a context of its own.
abbrev after : OrderState
after = order_to_domain (record row { status = filled; version = 6 })

abbrev before : OrderState
before = order_to_domain (record row { status = partially_filled; version = 5 })

fill_valid : check_normalized fill ≡ none
unfolding check_normalized check_amounts check_fee
fill_valid = refl

abbrev trades : TradeDb
trades = record { orders = 1 ∷ []; trades = [] }

trade_new : find_trade "acc-1" "SHFE" "T1" trades.trades ≡ none
unfolding find_trade
trade_new = refl

key_free : is_taken 7 trades.trades ≡ false
unfolding is_taken
key_free = refl

abbrev bridge : BridgeContext
bridge = fill_context format identity_hash fill filled before after "rb" "rb2510" none 7 trades

fill_becomes_trade_example :
    (t : LineageTrade) × IsTradeOf bridge t
    × (t.trade.exchange_trade_id ≡ "T1")
    × (create_trade identity_hash bridge 7 trades
        ≡ (ok (bridge_result bridge trade_created (some t) none), add_trade t trades))
unfolding is_blank
fill_becomes_trade_example =
    fill_becomes_trade format identity_hash fill filled before after "rb" "rb2510" none 7 trades 1
      fill_valid refl refl (omega arith) refl refl refl refl trade_new key_free refl

bridge_creates : is_creating (create_trade identity_hash bridge 7 trades).0 ≡ true
unfolding is_blank
bridge_creates =
    let (t, of_fill, key, answer) =
      fill_becomes_trade format identity_hash fill filled before after "rb" "rb2510" none 7 trades 1
        fill_valid refl refl (omega arith) refl refl refl refl trade_new key_free refl in
    rw answer refl

create_trade-again_example :
    let d' = (create_trade identity_hash bridge 7 trades).1 in
    (t : LineageTrade) × ((create_trade identity_hash bridge 7 trades).0
      ≡ ok (bridge_result bridge trade_created (some t) none))
    × (create_trade identity_hash bridge 8 d'
        ≡ (ok (bridge_result bridge trade_duplicate (some t) none), d'))
create_trade-again_example = create_trade-again identity_hash bridge 7 trades 8 bridge_creates

raw_recorded : is_recording (normalize hashes 102 raw []).0 ≡ true
unfolding normalize invalid_lineage_reason normalized_fields check_normalized check_amounts
    check_fee record_report find_raw find_report append_new map_report_type_to_execution_status
raw_recorded = refl

normalize-again_example :
    let d' = (normalize hashes 102 raw []).1 in
    normalize hashes 500 raw d' ≡ (
      ok (record {
        status = duplicate_report;
        normalized_report = some (normalized_fields hashes 102 raw);
        order_event_candidate = none;
        result_reason = some "duplicate";
      }),
      d',
    )
normalize-again_example = normalize-again hashes 102 raw [] 500 raw_recorded

normalize-IsLedger_example : IsLedger (normalize hashes 102 raw []).1
normalize-IsLedger_example = normalize-IsLedger hashes 102 raw [] IsLedger.empty

abbrev ack_context : ApplyContext
ack_context = live_context format db 1 row ack_candidate

-- The database after the acknowledgement, and the same candidate once more.
abbrev acked_db : OmsDb
acked_db = move db 1 (built format ack_context db acked).base

ack-IsMappable : IsMappable format ack_context acked_db report_acked acked
unfolding invalid_context_reason
ack-IsMappable = record { valid = refl; reported = refl; target = refl }

ack_seen :
    find_event execution_report_normalizer "er_1" acked_db.events
    ≡ some (new_event 1 (built format ack_context db acked).base)
unfolding find_event
ack_seen = refl

redelivered_conflict_example : apply_to_oms format ack_context acked_db ≡ (
  event_result ack_context
      (built format ack_context acked_db acked)
      event_conflict
      (some (says "order_event_canonical_conflict")),
  acked_db,
)
redelivered_conflict_example =
    redelivered_conflict format ack_context acked_db report_acked acked
      (new_event 1 (built format ack_context db acked).base) ack-IsMappable ack_seen

abbrev texts : Format
texts = record { str = λ n. "1"; isoformat = λ t. "2025-01-02T09:00:00" }

create_trade-outcome_example :
    IsKept identity_hash bridge 7 trades (create_trade identity_hash bridge 7 trades)
    ⊎ IsCreated identity_hash bridge 7 trades
        (create_trade identity_hash bridge 7 trades).0
        (create_trade identity_hash bridge 7 trades).1
create_trade-outcome_example = create_trade-outcome identity_hash bridge 7 trades

replay_to_oms-Steps_example :
    let xs = ack_context ∷ ack_context ∷ [] in
    let preflight =
      dry_run_replay format
        (some oms_applier)
        (some oms_lookup)
        (sort_by (context_before texts) xs)
        []
        db in
    let d' =
      (replay_oms_order_events format (some oms_applier) (some oms_lookup) texts true xs db).1 in
    Steps db d' × (((true ≡ true) × (any is_conflict preflight.0 ≡ false)) ⊎ (d' ≡ db))
replay_to_oms-Steps_example =
    replay_to_oms-Steps format texts true (ack_context ∷ ack_context ∷ []) db
