-- ===== src/Domain/Orders.antt =====
-- src/futures_mvp/domain/models.py: orders, their events, and the results of the risk engine and of
-- the OMS. Instants are natural numbers. A text that names a database key is an `OrderId`.
use yanzl.Prelude.{ℕ, ◌≡◌, ◌↔◌, Bool, true, false, Option, List, String}
use yanzl.Prelude.Equality.{Comparable, ◌==◌, ==_iff, ℕ_eq, String_eq}
use yanzl.Prelude.Int.{ℤ}
use yanzl.Domain.Enums.{Direction, Offset, OrderType, OrderStatus, EventSource, RiskDecision}

-- Quantities and prices: Python decimals, as integers at a fixed scale for each kind of value.
abbrev pub Decimal : Type 0
Decimal = ℤ

-- A text as Python's `int()` reads it: the numeral of a key, or a text that it refuses.
pub data OrderId : Type 0 where
  numeral : ℕ → OrderId
  malformed : String → OrderId

abbrev pub order_id_eq : OrderId → OrderId → Bool
order_id_eq (numeral a) (numeral b) = a == b
order_id_eq (malformed a) (malformed b) = a == b
order_id_eq _ _ = false

pub order_id_eq_iff : (a b : OrderId) → (order_id_eq a b ≡ true) ↔ (a ≡ b)
order_id_eq_iff (numeral a) (numeral b) = (λ h. cc ((==_iff a b).0 h), λ h. (==_iff a b).1 (cc))
order_id_eq_iff (numeral a) (malformed b) = (λ h. cc, λ h. cc)
order_id_eq_iff (malformed a) (numeral b) = (λ h. cc, λ h. cc)
order_id_eq_iff (malformed a) (malformed b) = (λ h. cc ((==_iff a b).0 h), λ h. (==_iff a b).1 (cc))

instance abbrev pub OrderId_eq : Comparable OrderId
OrderId_eq = record { is_same = order_id_eq; is_same_iff = order_id_eq_iff }

pub record OrderRequest : Type 0 where
  pub client_order_id : String
  pub account_id : String
  pub instrument_id : String
  pub exchange : String
  pub direction : Direction
  pub offset : Offset
  pub order_type : OrderType
  pub limit_price : Decimal
  pub quantity : Decimal

pub record OrderState : Type 0 where
  pub order_id : OrderId
  pub request : OrderRequest
  pub status : OrderStatus
  pub filled_quantity : Decimal
  pub reject_reason : Option String
  pub version : ℕ

pub record RiskResult : Type 0 where
  pub decision : RiskDecision
  pub rule_name : String
  pub reason : Option String

-- `raw_payload` holds texts and `None`.
abbrev pub Payload : Type 0
Payload = List (String × Option String)

pub record OrderEvent : Type 0 where
  pub order_id : OrderId
  pub previous_status : Option OrderStatus
  pub new_status : OrderStatus
  pub event_source : EventSource
  pub external_event_id : String
  pub raw_payload : Payload
  pub occurred_at : ℕ

pub data EventApplicationStatus : Type 0 where
  applied duplicate old_ignored mismatch_rejected : EventApplicationStatus
  entered_unknown recovered_from_unknown ignored_terminal : EventApplicationStatus
  event_key_collision : EventApplicationStatus

pub record OrderEventApplicationResult : Type 0 where
  pub status : EventApplicationStatus
  pub order : OrderState
  pub reason : Option String
