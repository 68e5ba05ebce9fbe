-- ===== src/Oms/Status.antt =====
-- src/futures_mvp/modules/oms/state_machine.py: the transition table of an order's status.
pub mod Graph
use yanzl.Prelude.{Bool, List, [], ◌∷◌, String}
use yanzl.Prelude.Lists.{contains}
use yanzl.Domain.Enums.{
  OrderStatus, created, risk_checking, rejected_by_risk, risk_accepted, submitting, submit_timeout,
  submit_failed, submitted, acked, partially_filled, cancel_pending, cancel_failed, canceled,
  filled, rejected_by_exchange, expired, unknown, OrderStatus_eq,
}
use yanzl.Prelude.Equality.{String_eq}

abbrev pub terminal_statuses : List OrderStatus
terminal_statuses =
    rejected_by_risk ∷ submit_failed ∷ canceled ∷ filled ∷ rejected_by_exchange ∷ expired ∷ []

abbrev pub recoverable_statuses : List OrderStatus
recoverable_statuses =
    submitting ∷ submit_timeout ∷ submitted ∷ cancel_pending ∷ cancel_failed ∷ unknown ∷ []

abbrev pub unknown_recovery_targets : List OrderStatus
unknown_recovery_targets =
    submitted ∷ acked ∷ partially_filled ∷ canceled ∷ filled ∷ rejected_by_exchange ∷ expired ∷ []

abbrev pub unknown_entry_reasons : List String
unknown_entry_reasons =
    "unclassified_exchange_report" ∷ "contradictory_report"
    ∷ "incomplete_report_after_submit_timeout" ∷ "replay_inconsistent"
    ∷ "previous_status_mismatch_unresolved" ∷ "event_sequence_gap" ∷ []

abbrev pub allowed_transitions : OrderStatus → List OrderStatus
allowed_transitions created = risk_checking ∷ rejected_by_risk ∷ unknown ∷ []
allowed_transitions risk_checking = risk_accepted ∷ rejected_by_risk ∷ unknown ∷ []
allowed_transitions rejected_by_risk = []
allowed_transitions risk_accepted = submitting ∷ submit_failed ∷ unknown ∷ []
allowed_transitions submitting =
    submitted ∷ acked ∷ submit_timeout ∷ submit_failed ∷ rejected_by_exchange ∷ unknown ∷ []
allowed_transitions submit_timeout =
    submitted ∷ acked ∷ rejected_by_exchange ∷ submit_failed ∷ unknown ∷ []
allowed_transitions submit_failed = []
allowed_transitions submitted =
    acked ∷ rejected_by_exchange ∷ cancel_pending ∷ expired ∷ unknown ∷ []
allowed_transitions acked =
    partially_filled ∷ filled ∷ cancel_pending ∷ canceled ∷ expired ∷ unknown ∷ []
allowed_transitions partially_filled =
    partially_filled ∷ filled ∷ cancel_pending ∷ canceled ∷ expired ∷ unknown ∷ []
allowed_transitions cancel_pending =
    canceled ∷ cancel_failed ∷ filled ∷ partially_filled ∷ unknown ∷ []
allowed_transitions cancel_failed =
    partially_filled ∷ filled ∷ cancel_pending ∷ canceled ∷ expired ∷ unknown ∷ []
allowed_transitions canceled = []
allowed_transitions filled = []
allowed_transitions rejected_by_exchange = []
allowed_transitions expired = []
allowed_transitions unknown = unknown_recovery_targets

-- Every status has an entry in the table, so the `KeyError` of `_assert_status_covered` is never
-- raised.
unfoldable pub can_transition : OrderStatus → OrderStatus → Bool
can_transition from to = contains (allowed_transitions from) to

unfoldable pub is_terminal : OrderStatus → Bool
is_terminal status = contains terminal_statuses status

unfoldable pub is_recoverable : OrderStatus → Bool
is_recoverable status = contains recoverable_statuses status

unfoldable pub should_enter_unknown : String → Bool
should_enter_unknown reason = contains unknown_entry_reasons reason
