-- ===== src/Domain/Enums.antt =====
-- src/futures_mvp/domain/enums.py: the enumerations of the order and position components, with
-- `==` on their members.
use yanzl.Prelude.{ℕ, ◌≡◌, refl, ◌↔◌, Bool, true, some, List, [], ◌∷◌, String}
use yanzl.Prelude.Tests.{nat_eq}
use yanzl.Prelude.Equality.{Comparable}
use yanzl.Prelude.Lists.{get_elem?, by_place_iff}

pub data Direction : Type 0 where
  buy sell : Direction

pub data Offset : Type 0 where
  open_offset close close_today close_yesterday : Offset

pub data OrderType : Type 0 where
  limit : OrderType

pub data OrderStatus : Type 0 where
  created risk_checking rejected_by_risk risk_accepted : OrderStatus
  submitting submit_timeout submit_failed submitted : OrderStatus
  acked partially_filled cancel_pending cancel_failed : OrderStatus
  canceled filled rejected_by_exchange expired unknown : OrderStatus

pub data EventSource : Type 0 where
  strategy risk oms ems exchange : EventSource
  execution_report_normalizer settlement system : EventSource

pub data RiskDecision : Type 0 where
  accepted rejected : RiskDecision

abbrev pub directions : List Direction
directions = buy ∷ sell ∷ []

abbrev pub direction_place : Direction → ℕ
direction_place buy = 0
direction_place sell = 1

direction_listed : (d : Direction) → get_elem? directions (direction_place d) ≡ some d
direction_listed buy = refl
direction_listed sell = refl

pub direction_eq_iff :
    (a b : Direction) → (nat_eq (direction_place a) (direction_place b) ≡ true) ↔ (a ≡ b)
direction_eq_iff = by_place_iff directions direction_place direction_listed

instance abbrev pub Direction_eq : Comparable Direction
Direction_eq = record {
  is_same = λ a b. nat_eq (direction_place a) (direction_place b);
  is_same_iff = direction_eq_iff;
}

abbrev pub offsets : List Offset
offsets = open_offset ∷ close ∷ close_today ∷ close_yesterday ∷ []

abbrev pub offset_place : Offset → ℕ
offset_place open_offset = 0
offset_place close = 1
offset_place close_today = 2
offset_place close_yesterday = 3

offset_listed : (o : Offset) → get_elem? offsets (offset_place o) ≡ some o
offset_listed open_offset = refl
offset_listed close = refl
offset_listed close_today = refl
offset_listed close_yesterday = refl

pub offset_eq_iff : (a b : Offset) → (nat_eq (offset_place a) (offset_place b) ≡ true) ↔ (a ≡ b)
offset_eq_iff = by_place_iff offsets offset_place offset_listed

instance abbrev pub Offset_eq : Comparable Offset
Offset_eq = record {
  is_same = λ a b. nat_eq (offset_place a) (offset_place b);
  is_same_iff = offset_eq_iff;
}

abbrev pub order_type_eq : OrderType → OrderType → Bool
order_type_eq limit limit = true

pub order_type_eq_iff : (a b : OrderType) → (order_type_eq a b ≡ true) ↔ (a ≡ b)
order_type_eq_iff limit limit = (λ h. refl, λ h. refl)

instance abbrev pub OrderType_eq : Comparable OrderType
OrderType_eq = record { is_same = order_type_eq; is_same_iff = order_type_eq_iff }

abbrev pub order_statuses : List OrderStatus
order_statuses =
    created ∷ risk_checking ∷ rejected_by_risk ∷ risk_accepted ∷ submitting ∷ submit_timeout
    ∷ submit_failed ∷ submitted ∷ acked ∷ partially_filled ∷ cancel_pending ∷ cancel_failed
    ∷ canceled ∷ filled ∷ rejected_by_exchange ∷ expired ∷ unknown ∷ []

-- The place in the enumeration, which is also `_STATUS_PRECEDENCE` of the OMS service.
abbrev pub status_place : OrderStatus → ℕ
status_place created = 0
status_place risk_checking = 1
status_place rejected_by_risk = 2
status_place risk_accepted = 3
status_place submitting = 4
status_place submit_timeout = 5
status_place submit_failed = 6
status_place submitted = 7
status_place acked = 8
status_place partially_filled = 9
status_place cancel_pending = 10
status_place cancel_failed = 11
status_place canceled = 12
status_place filled = 13
status_place rejected_by_exchange = 14
status_place expired = 15
status_place unknown = 16

status_listed : (s : OrderStatus) → get_elem? order_statuses (status_place s) ≡ some s
status_listed created = refl
status_listed _ = refl

pub status_eq_iff :
    (a b : OrderStatus) → (nat_eq (status_place a) (status_place b) ≡ true) ↔ (a ≡ b)
status_eq_iff = by_place_iff order_statuses status_place status_listed

instance abbrev pub OrderStatus_eq : Comparable OrderStatus
OrderStatus_eq = record {
  is_same = λ a b. nat_eq (status_place a) (status_place b);
  is_same_iff = status_eq_iff;
}

abbrev pub event_sources : List EventSource
event_sources =
    strategy ∷ risk ∷ oms ∷ ems ∷ exchange ∷ execution_report_normalizer ∷ settlement ∷ system ∷ []

abbrev pub source_place : EventSource → ℕ
source_place strategy = 0
source_place risk = 1
source_place oms = 2
source_place ems = 3
source_place exchange = 4
source_place execution_report_normalizer = 5
source_place settlement = 6
source_place system = 7

source_listed : (s : EventSource) → get_elem? event_sources (source_place s) ≡ some s
source_listed strategy = refl
source_listed _ = refl

pub source_eq_iff :
    (a b : EventSource) → (nat_eq (source_place a) (source_place b) ≡ true) ↔ (a ≡ b)
source_eq_iff = by_place_iff event_sources source_place source_listed

instance abbrev pub EventSource_eq : Comparable EventSource
EventSource_eq = record {
  is_same = λ a b. nat_eq (source_place a) (source_place b);
  is_same_iff = source_eq_iff;
}

-- `.value` of the members that reach event texts.
abbrev pub status_value : OrderStatus → String
status_value created = "CREATED"
status_value risk_checking = "RISK_CHECKING"
status_value rejected_by_risk = "REJECTED_BY_RISK"
status_value risk_accepted = "RISK_ACCEPTED"
status_value submitting = "SUBMITTING"
status_value submit_timeout = "SUBMIT_TIMEOUT"
status_value submit_failed = "SUBMIT_FAILED"
status_value submitted = "SUBMITTED"
status_value acked = "ACKED"
status_value partially_filled = "PARTIALLY_FILLED"
status_value cancel_pending = "CANCEL_PENDING"
status_value cancel_failed = "CANCEL_FAILED"
status_value canceled = "CANCELED"
status_value filled = "FILLED"
status_value rejected_by_exchange = "REJECTED_BY_EXCHANGE"
status_value expired = "EXPIRED"
status_value unknown = "UNKNOWN"

abbrev pub source_value : EventSource → String
source_value strategy = "STRATEGY"
source_value risk = "RISK"
source_value oms = "OMS"
source_value ems = "EMS"
source_value exchange = "EXCHANGE"
source_value execution_report_normalizer = "execution_report_normalizer"
source_value settlement = "SETTLEMENT"
source_value system = "SYSTEM"

abbrev pub decision_value : RiskDecision → String
decision_value accepted = "ACCEPTED"
decision_value rejected = "REJECTED"
