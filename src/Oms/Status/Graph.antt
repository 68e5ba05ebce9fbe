-- ===== src/Oms/Status/Graph.antt =====
-- Facts about the transition table as a graph.
use yanzl.Prelude.{◌≡◌, refl, ◌↔◌, Bool, true, false, ◌||◌, [], arith}
use yanzl.Prelude.Equality.{◌==◌}
use yanzl.Domain.Enums.{
  OrderStatus, created, risk_checking, rejected_by_risk, risk_accepted, submitting, submit_timeout,
  submit_failed, submitted, acked, partially_filled, cancel_pending, cancel_failed, canceled,
  filled, rejected_by_exchange, expired, unknown, OrderStatus_eq,
}
use yanzl.Oms.Status.{allowed_transitions, can_transition, is_terminal}

-- The terminal statuses are exactly those that the table gives no way out of.
pub terminal_iff : (s : OrderStatus) → (is_terminal s ≡ true) ↔ (allowed_transitions s ≡ [])
unfolding is_terminal
terminal_iff created = (λ h. cc, λ h. cc)
terminal_iff risk_checking = (λ h. cc, λ h. cc)
terminal_iff rejected_by_risk = (λ h. refl, λ h. refl)
terminal_iff risk_accepted = (λ h. cc, λ h. cc)
terminal_iff submitting = (λ h. cc, λ h. cc)
terminal_iff submit_timeout = (λ h. cc, λ h. cc)
terminal_iff submit_failed = (λ h. refl, λ h. refl)
terminal_iff submitted = (λ h. cc, λ h. cc)
terminal_iff acked = (λ h. cc, λ h. cc)
terminal_iff partially_filled = (λ h. cc, λ h. cc)
terminal_iff cancel_pending = (λ h. cc, λ h. cc)
terminal_iff cancel_failed = (λ h. cc, λ h. cc)
terminal_iff canceled = (λ h. refl, λ h. refl)
terminal_iff filled = (λ h. refl, λ h. refl)
terminal_iff rejected_by_exchange = (λ h. refl, λ h. refl)
terminal_iff expired = (λ h. refl, λ h. refl)
terminal_iff unknown = (λ h. cc, λ h. cc)

pub terminal_stays : (s t : OrderStatus) → is_terminal s ≡ true → can_transition s t ≡ false
unfolding can_transition
terminal_stays s t h = rw ((terminal_iff s).0 h) refl

-- Every status that is not terminal may move to UNKNOWN, but UNKNOWN itself.
pub can_lose :
    (s : OrderStatus) → (is_terminal s || s == unknown || can_transition s unknown) ≡ true
unfolding is_terminal can_transition
can_lose created = refl
can_lose _ = refl

-- The statuses of an order that has not passed the risk check.
abbrev pub before_risk : OrderStatus → Bool
before_risk created = true
before_risk risk_checking = true
before_risk rejected_by_risk = true
before_risk _ = false

-- A status of an order that has not passed the risk check leads to another such status, to RISK_ACCEPTED
-- or to UNKNOWN.
pub risk_gate :
    (s t : OrderStatus)
    → before_risk s ≡ true
    → can_transition s t ≡ true
    → (before_risk t || t == risk_accepted || t == unknown) ≡ true
unfolding can_transition
risk_gate created t b h = ground arith
risk_gate _ t b h = ground arith
