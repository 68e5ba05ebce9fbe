-- ===== src/Reports/Models.antt =====
-- src/futures_mvp/domain/models.py and enums.py: execution reports, the candidates and events that they
-- give, and trades with their lineage. A constructor's validators are functions of the fields that give
-- back the text of the error. Raw payloads, which no decision reads, are left out.
use yanzl.Prelude.{
  ℕ, ◌≡◌, refl, ◌↔◌, Bool, true, false, not, ◌&&◌, Option, none, some, List, [], ◌∷◌, String,
}
use yanzl.Prelude.Tests.{if◌then◌else◌, nat_eq, is_some}
use yanzl.Prelude.Equality.{Comparable, String_eq, Option_eq}
use yanzl.Prelude.Int.{pos, ltb_ℤ, leb_ℤ, ℤ_eq}
use yanzl.Prelude.Lists.{contains, get_elem?, by_place_iff}
use yanzl.Prelude.Text.{is_empty}
use yanzl.Domain.Enums.{OrderStatus}
use yanzl.Domain.Orders.{Decimal, OrderId, numeral, malformed, OrderEvent, OrderId_eq}
use yanzl.Domain.Positions.{Trade}

pub data ExecutionReportStatus : Type 0 where
  report_submitted report_acked report_partially_filled report_filled : ExecutionReportStatus
  report_rejected report_canceled report_error : ExecutionReportStatus

abbrev pub report_statuses : List ExecutionReportStatus
report_statuses =
    report_submitted ∷ report_acked ∷ report_partially_filled ∷ report_filled ∷ report_rejected
    ∷ report_canceled ∷ report_error ∷ []

abbrev pub report_place : ExecutionReportStatus → ℕ
report_place report_submitted = 0
report_place report_acked = 1
report_place report_partially_filled = 2
report_place report_filled = 3
report_place report_rejected = 4
report_place report_canceled = 5
report_place report_error = 6

report_listed : (s : ExecutionReportStatus) → get_elem? report_statuses (report_place s) ≡ some s
report_listed report_submitted = refl
report_listed _ = refl

pub report_eq_iff :
    (a b : ExecutionReportStatus) → (nat_eq (report_place a) (report_place b) ≡ true) ↔ (a ≡ b)
report_eq_iff = by_place_iff report_statuses report_place report_listed

instance abbrev pub ExecutionReportStatus_eq : Comparable ExecutionReportStatus
ExecutionReportStatus_eq = record {
  is_same = λ a b. nat_eq (report_place a) (report_place b);
  is_same_iff = report_eq_iff;
}

-- PARTIALLY_FILLED or FILLED.
abbrev pub is_fill : ExecutionReportStatus → Bool
is_fill report_partially_filled = true
is_fill report_filled = true
is_fill _ = false

pub data ExecutionTarget : Type 0 where
  mock_target paper_target sim_target live_target : ExecutionTarget

abbrev pub target_place : ExecutionTarget → ℕ
target_place mock_target = 0
target_place paper_target = 1
target_place sim_target = 2
target_place live_target = 3

pub target_eq_iff :
    (a b : ExecutionTarget) → (nat_eq (target_place a) (target_place b) ≡ true) ↔ (a ≡ b)
target_eq_iff =
    by_place_iff (mock_target ∷ paper_target ∷ sim_target ∷ live_target ∷ []) target_place
      (elim [ mock_target ↦ refl | paper_target ↦ refl | sim_target ↦ refl | live_target ↦ refl ])

instance abbrev pub ExecutionTarget_eq : Comparable ExecutionTarget
ExecutionTarget_eq = record {
  is_same = λ a b. nat_eq (target_place a) (target_place b);
  is_same_iff = target_eq_iff;
}

pub record RawExecutionReport : Type 0 where
  pub raw_report_id : String
  pub adapter_name : String
  pub execution_target : ExecutionTarget
  pub command_id : String
  pub order_id : OrderId
  pub client_order_id : String
  pub adapter_order_ref : String
  pub exchange_order_id : Option String
  pub exchange_trade_id : Option String
  pub fill_id : Option String
  pub report_type : String
  pub filled_qty : Decimal
  pub fill_price : Option Decimal
  pub cumulative_filled_qty : Decimal
  pub remaining_qty : Decimal
  pub fee_amount : Option Decimal
  pub fee_currency : Option String
  pub fee_source : Option String
  pub report_ts : ℕ
  pub received_at : ℕ

pub record NormalizedExecutionReport : Type 0 where
  pub report_id : String
  pub raw_report_id : String
  pub adapter_name : String
  pub execution_target : ExecutionTarget
  pub command_id : String
  pub order_id : OrderId
  pub client_order_id : String
  pub adapter_order_ref : String
  pub exchange_order_id : Option String
  pub exchange_trade_id : Option String
  pub fill_id : Option String
  pub execution_status : ExecutionReportStatus
  pub filled_qty : Decimal
  pub fill_price : Option Decimal
  pub cumulative_filled_qty : Decimal
  pub remaining_qty : Decimal
  pub fee_amount : Option Decimal
  pub fee_currency : Option String
  pub fee_source : Option String
  pub report_ts : ℕ
  pub normalized_at : ℕ
  pub reason : Option String
  pub source_report_hash : String

pub record OrderEventCandidate : Type 0 where
  pub normalized_report_id : String
  pub order_id : OrderId
  pub new_status : OrderStatus
  pub external_event_id : String
  pub occurred_at : ℕ
  pub execution_status : Option ExecutionReportStatus
  pub command_id : Option String
  pub client_order_id : Option String
  pub adapter_order_ref : Option String
  pub exchange_order_id : Option String
  pub filled_qty : Option Decimal
  pub fill_price : Option Decimal
  pub cumulative_filled_qty : Option Decimal

-- An `OrderEvent` with the fields that only reports fill in.
pub record ReportEvent : Type 0 where
  pub base : OrderEvent
  pub execution_status : Option ExecutionReportStatus
  pub report_id : Option String
  pub report_ts : Option ℕ
  pub filled_qty : Option Decimal
  pub fill_price : Option Decimal
  pub cumulative_filled_qty : Option Decimal

pub data TradeIdentitySource : Type 0 where
  from_exchange derived_from_report : TradeIdentitySource

-- A `Trade` with its lineage.
pub record LineageTrade : Type 0 where
  pub trade : Trade
  pub identity_source : TradeIdentitySource
  pub order_id : OrderId
  pub client_order_id : Option String
  pub trade_instrument_id : Option String
  pub symbol : Option String
  pub fee_source : Option String
  pub trading_day : Option ℕ
  pub source_report_id : Option String
  pub source_exchange_report_id : Option String
  pub source_order_event_id : Option String

-- `not text` of a key.
abbrev pub is_empty_id : OrderId → Bool
is_empty_id (numeral n) = false
is_empty_id (malformed t) = is_empty t

-- The checks of a fee, which reports and trades share.
unfoldable pub check_fee : Option Decimal → Option String → Option String → Option String
check_fee amount currency source =
    if is_some amount && not (is_some currency)
    then some "fee_currency is required when fee_amount is not None"
    else if is_some amount && not (is_some source)
    then some "fee_source is required when fee_amount is not None"
    else if not (is_some amount) && is_some currency
    then some "fee_currency requires fee_amount"
    else if not (is_some amount) && is_some source
    then some "fee_source requires fee_amount"
    else none

abbrev pub is_not_positive : Option Decimal → Bool
is_not_positive none = false
is_not_positive (some p) = leb_ℤ p (pos 0)

-- The quantities and the price of a report; `filled` is whether it needs a price.
unfoldable pub check_amounts : Decimal → Decimal → Decimal → Option Decimal → Bool → Option String
check_amounts filled_qty cumulative remaining price filled =
    if ltb_ℤ filled_qty (pos 0)
    then some "filled_qty must be greater than or equal to 0"
    else if ltb_ℤ cumulative (pos 0)
    then some "cumulative_filled_qty must be greater than or equal to 0"
    else if ltb_ℤ remaining (pos 0)
    then some "remaining_qty must be greater than or equal to 0"
    else if is_not_positive price
    then some "fill_price must be greater than 0"
    else if filled && not (is_some price)
    then some "fill_price is required for filled execution reports"
    else none

abbrev pub or_else : Option String → Option String → Option String
or_else none second = second
or_else (some e) second = some e

-- `_required_identity` of the fields in turn, with the field's name.
abbrev pub check_required : List (String × Bool) → Option String
check_required [] = none
check_required ((field, missing) ∷ rest) = elim missing [
  | true ↦ some field
  | false ↦ check_required rest
]

-- The validators of `NormalizedExecutionReport`.
unfoldable pub check_normalized : NormalizedExecutionReport → Option String
check_normalized r =
    or_else
      (check_required (
        ("report_id", is_empty r.report_id)
        ∷ ("raw_report_id", is_empty r.raw_report_id)
        ∷ ("adapter_name", is_empty r.adapter_name)
        ∷ ("command_id", is_empty r.command_id)
        ∷ ("order_id", is_empty_id r.order_id)
        ∷ ("client_order_id", is_empty r.client_order_id)
        ∷ ("adapter_order_ref", is_empty r.adapter_order_ref)
        ∷ ("source_report_hash", is_empty r.source_report_hash)
        ∷ []))
      (or_else
        (check_amounts r.filled_qty r.cumulative_filled_qty r.remaining_qty r.fill_price
          (is_fill r.execution_status))
        (check_fee r.fee_amount r.fee_currency r.fee_source))

abbrev pub filled_report_types : List String
filled_report_types = "partial_fill" ∷ "partially_filled" ∷ "full_fill" ∷ "filled" ∷ []

-- The validators of `RawExecutionReport`; `lower` is `str.lower`.
unfoldable pub check_raw : (String → String) → RawExecutionReport → Option String
check_raw lower r =
    or_else
      (check_required (
        ("raw_report_id", is_empty r.raw_report_id)
        ∷ ("adapter_name", is_empty r.adapter_name)
        ∷ ("command_id", is_empty r.command_id)
        ∷ ("order_id", is_empty_id r.order_id)
        ∷ ("client_order_id", is_empty r.client_order_id)
        ∷ ("adapter_order_ref", is_empty r.adapter_order_ref)
        ∷ ("report_type", is_empty r.report_type)
        ∷ []))
      (or_else
        (check_amounts r.filled_qty r.cumulative_filled_qty r.remaining_qty r.fill_price
          (contains filled_report_types (lower r.report_type)))
        (check_fee r.fee_amount r.fee_currency r.fee_source))
