-- ===== src/Risk/Tests.antt =====
-- Configurations and signals on which the results about the risk engine are tried.
use yanzl.Prelude.{◌≡◌, refl, ◌↔◌, true, none, some, [], ◌∷◌, arith}
use yanzl.Prelude.Int.{pos, ◌*ℤ◌, ◌≤ℤ◌}
use yanzl.Domain.Enums.{open_offset, close_today}
use yanzl.Domain.Orders.{Decimal}
use yanzl.Risk.Engine.{
  Signal, RiskConfig, misconfigured, get, accept, validate_cross_field_config, check_order,
  check_rules, check_notional, check_account,
}
use yanzl.Risk.Engine.Laws.{Keeps, multiplier, check_order-accepts, check_order-raises}

abbrev config : RiskConfig
config = record {
  disabled_instruments = "cu2510" ∷ [];
  max_order_quantity = some (pos 10);
  max_notional = some (pos 100000);
  contract_multiplier_by_instrument = ("rb2510", pos 10) ∷ [];
  limit_up_by_instrument = ("rb2510", pos 3700) ∷ [];
  limit_down_by_instrument = [];
  is_trading_session_allowed = true;
  allowed_offsets = open_offset ∷ close_today ∷ [];
  available_margin = some (pos 500);
  required_margin = some (pos 400);
  current_position = none;
  projected_position = none;
  max_position = none;
}

abbrev signal : Signal
signal = record {
  instrument_id = "rb2510";
  offset = open_offset;
  limit_price = pos 3500;
  quantity = pos 2;
}

-- Without the margin that is required, the two settings are not given together.
abbrev half_config : RiskConfig
half_config = record config { required_margin = none }

signal-accepted : check_order config signal ≡ accept
unfolding check_order check_rules check_notional check_account validate_cross_field_config get ◌*ℤ◌
signal-accepted = refl

check_order-accepts_example : (check_order config signal ≡ accept) ↔ Keeps config signal
check_order-accepts_example = check_order-accepts config signal

check_order-raises_example :
    (check_order half_config signal
      ≡ misconfigured "available_margin and required_margin must be provided together")
    ↔ (validate_cross_field_config half_config signal
        ≡ some "available_margin and required_margin must be provided together")
check_order-raises_example =
    check_order-raises half_config signal
      "available_margin and required_margin must be provided together"

factors : (x : Decimal) → multiplier config signal ≡ some x → pos 0 ≤ℤ x
unfolding get
factors x h = ground arith
