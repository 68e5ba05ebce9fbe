-- ===== src/Settlement/Tests.antt =====
-- Settlements of concrete accounts, and the theorems at them.
use yanzl.Prelude.{◌≡◌, ◌≢◌, refl, ap, true, false, Option, none, some, [], ◌∷◌, arith}
use yanzl.Prelude.Int.{pos, negsuc, ◌+ℤ◌, ◌-ℤ◌}
use yanzl.Prelude.Lists.{length}
use yanzl.Domain.Orders.{Decimal, numeral}
use yanzl.Domain.Positions.{Position}
use yanzl.Database.UnitOfWork.{Result, ok, err}
use yanzl.Margin.Calculator.{AccountContext}
use yanzl.Pnl.Calculator.{settlement_price}
use yanzl.Position.Store.{find_position, set_quantities}
use yanzl.Position.Derived.Laws.{IsBalanced}
use yanzl.Position.Tests.{first, after_first, after_first-IsLedger}
use yanzl.Position.Derived.{update_where, roll_today_to_yesterday_for_settlement}
use yanzl.Settlement.Models.{
  AccountSnapshot, MarginSnapshot, PnlSnapshot, SettlementPrice, TradingCalendar, of_context,
  SettlementContext, SettlementResultStatus, settled, rejected_frozen_position, error,
  SettlementResult, SettlementPlan,
}
use yanzl.Settlement.Store.{
  SettlementDb, find_settlement, find_settlement_id, find_account, append_account_snapshot,
  append_settlement_snapshot,
}
use yanzl.Settlement.Live.{load_live_positions, lives_differ}
use yanzl.Settlement.Calculator.{
  calculate_settlement, plan, plan_of, snapshot_of, build_plan, check_each, check_position, Facts,
  facts_of, price_of, has_pnl_snapshot_identity_mismatch, matching_pnl_snapshot,
  has_margin_snapshot_identity_mismatch, matching_margin_snapshot, required_ids,
}
use yanzl.Settlement.Calculator.Cash.{Booked, CashAfter, build_plan_booked}
use yanzl.Settlement.Engine.{
  Keys, settle, settle_as, settle_new, write_settlement, write_rows, roll_each, is_valid_account,
  replay_settlement,
}
use yanzl.Settlement.Outcome.{Outcome, settle_as-outcome, settle-IsBalanced}
use yanzl.Settlement.Retries.{Repeated, settle-again}
use yanzl.Settlement.Replay.{settle-replays}

-- Three lots long of today and one of yesterday, two short of today.
abbrev held : Position
held = record {
  id = some (numeral 4);
  account_id = "acc";
  instrument_id = "rb2510";
  long_today_qty = pos 3;
  long_yesterday_qty = pos 1;
  short_today_qty = pos 2;
  short_yesterday_qty = pos 0;
  frozen_long_qty = pos 0;
  frozen_short_qty = pos 0;
  long_avg_price = pos 100;
  short_avg_price = pos 101;
  settlement_price = pos 0;
  last_price = pos 0;
  realized_pnl = pos 0;
  unrealized_pnl = pos 0;
  margin_used = pos 0;
  version = 3;
}

abbrev pnl_snapshot : PnlSnapshot
pnl_snapshot = record {
  id = some (numeral 7);
  account_id = "acc";
  instrument_id = "rb2510";
  position_version = 3;
  trading_day = 20;
  price_basis = settlement_price;
  mark_price = pos 102;
  realized_pnl = pos 30;
  unrealized_pnl = pos 6;
}

abbrev margin_snapshot : MarginSnapshot
margin_snapshot = record {
  id = some (numeral 9);
  account_id = "acc";
  instrument_id = "rb2510";
  position_version = 3;
  trading_day = 20;
  margin_used = pos 60;
}

abbrev price : SettlementPrice
price = record {
  instrument_id = "rb2510";
  exchange = "SHFE";
  trading_day = 20;
  price = pos 102;
  source = none;
  received_at = 400;
}

abbrev account : AccountContext
account = record {
  account_id = "acc";
  equity = pos 1000;
  available_cash = pos 940;
  frozen_cash = pos 0;
  snapshot_time = 390;
}

abbrev day_end : SettlementContext
day_end = record {
  account_id = "acc";
  trading_day = 20;
  account_before = of_context account;
  positions = held ∷ [];
  pnl_snapshots = pnl_snapshot ∷ [];
  margin_snapshots = margin_snapshot ∷ [];
  settlement_prices = price ∷ [];
  calculation_key = "eod";
  settled_at = 410;
}

abbrev trading : TradingCalendar
trading = record { trading_day = 20; is_trading_day = true }

abbrev yesterday : AccountSnapshot
yesterday = record {
  id = none;
  account_id = "acc";
  equity = pos 990;
  available_cash = pos 990;
  margin_used = pos 0;
  frozen_margin = pos 0;
  realized_pnl = pos 0;
  unrealized_pnl = pos 0;
  snapshot_time = 310;
}

abbrev live : SettlementDb
live = record {
  positions = record { trades = []; positions = record { id = 4; state = held } ∷ []; events = [] };
  accounts = record { id = 1; state = yesterday } ∷ [];
  settlements = [];
}

abbrev keys : Keys
keys = record { before = 2; after = 3; settlement = 1 }

abbrev other_keys : Keys
other_keys = record { before = 8; after = 9; settlement = 2 }

abbrev status_of : Result SettlementResult → Option SettlementResultStatus
status_of (ok r) = some r.status
status_of (err e) = none

day_end_settles : status_of (settle keys day_end (some trading) live).0 ≡ some settled
unfolding settle settle_as build_plan calculate_settlement check_each check_position facts_of
    price_of has_pnl_snapshot_identity_mismatch matching_pnl_snapshot
    has_margin_snapshot_identity_mismatch matching_margin_snapshot required_ids find_settlement
    find_settlement_id settle_new load_live_positions find_position lives_differ write_settlement
    write_rows append_account_snapshot find_account is_valid_account append_settlement_snapshot
    roll_each roll_today_to_yesterday_for_settlement update_where ◌+ℤ◌ ◌-ℤ◌
day_end_settles = refl

one_settlement : length (settle keys day_end (some trading) live).1.settlements ≡ 1
unfolding settle settle_as build_plan calculate_settlement check_each check_position facts_of
    price_of has_pnl_snapshot_identity_mismatch matching_pnl_snapshot
    has_margin_snapshot_identity_mismatch matching_margin_snapshot required_ids find_settlement
    find_settlement_id settle_new load_live_positions find_position lives_differ write_settlement
    write_rows append_account_snapshot find_account is_valid_account append_settlement_snapshot
    roll_each roll_today_to_yesterday_for_settlement update_where ◌+ℤ◌ ◌-ℤ◌
one_settlement = refl

day_end_changes : (settle keys day_end (some trading) live).1 ≢ live
day_end_changes same =
    absurd (omega (arith, one_settlement, ap (λ (d : SettlementDb). length d.settlements) same))

-- With a frozen lot nothing is settled.
frozen_refused :
    status_of
      (settle keys
        (record day_end { positions = record held { frozen_long_qty = pos 1 } ∷ [] })
        (some trading)
        live).0
    ≡ some rejected_frozen_position
unfolding settle settle_as build_plan calculate_settlement check_each check_position
frozen_refused = refl

-- A loss beyond the cash is an error, and the database stays.
abbrev ruined : SettlementContext
ruined = record day_end { pnl_snapshots = record pnl_snapshot { realized_pnl = negsuc 999 } ∷ [] }

ruin_refused : status_of (settle keys ruined (some trading) live).0 ≡ some error
unfolding settle settle_as build_plan calculate_settlement check_each check_position facts_of
    price_of has_pnl_snapshot_identity_mismatch matching_pnl_snapshot
    has_margin_snapshot_identity_mismatch matching_margin_snapshot required_ids find_settlement
    find_settlement_id settle_new load_live_positions find_position lives_differ write_settlement
    write_rows append_account_snapshot find_account is_valid_account append_settlement_snapshot
    roll_each roll_today_to_yesterday_for_settlement update_where ◌+ℤ◌ ◌-ℤ◌
ruin_refused = refl

settle_as-outcome_example :
    Outcome keys day_end (some trading) live (settle_as keys day_end false (some trading) live)
settle_as-outcome_example = settle_as-outcome keys day_end (some trading) live false

settle-again_example :
    Repeated day_end
      (settle keys day_end (some trading) live)
      (settle other_keys day_end (some trading))
settle-again_example = settle-again keys other_keys day_end (some trading) live day_end_changes

settle-replays_example :
    Repeated day_end
      (settle keys day_end (some trading) live)
      (replay_settlement other_keys day_end (some trading))
settle-replays_example =
    settle-replays keys other_keys day_end (some trading) live (tt, tt) ((λ own. omega arith), tt)
      (omega arith) day_end_changes

abbrev day_facts : Facts
day_facts = record { position = held; price = price; pnl = pnl_snapshot; margin = margin_snapshot }

abbrev day_plan : SettlementPlan
day_plan = plan_of day_end (snapshot_of day_end (day_facts ∷ []) (numeral 7 ∷ []) (numeral 9 ∷ []))

day_planned : build_plan day_end (some trading) ≡ ok (plan day_plan)
unfolding build_plan calculate_settlement check_each check_position facts_of price_of
    has_pnl_snapshot_identity_mismatch matching_pnl_snapshot has_margin_snapshot_identity_mismatch
    matching_margin_snapshot required_ids ◌+ℤ◌ ◌-ℤ◌
day_planned = refl

build_plan_booked_example :
    (realized : Decimal) × (unrealized : Decimal) × (used : Decimal) × Booked day_end
      (held ∷ [])
      realized
      unrealized
      used
    × CashAfter (of_context account) realized used day_plan.available_cash_after
    × (day_plan.snapshot.margin_used ≡ used)
    × (day_plan.equity_after ≡ day_plan.available_cash_after +ℤ used +ℤ unrealized)
build_plan_booked_example = build_plan_booked day_end (some trading) day_plan day_planned

-- The position that the first trade of the position's tests leaves, at the end of its day.
abbrev traded : Position
traded = record held {
  id = some (numeral 5);
  long_yesterday_qty = pos 0;
  short_today_qty = pos 0;
  long_avg_price = pos 3500;
  short_avg_price = pos 0;
  version = 1;
}

abbrev traded_day : SettlementContext
traded_day = record day_end {
  positions = traded ∷ [];
  pnl_snapshots = record pnl_snapshot { position_version = 1 } ∷ [];
  margin_snapshots = record margin_snapshot { position_version = 1 } ∷ [];
}

abbrev traded_live : SettlementDb
traded_live = record live { positions = after_first }

traded_settles : status_of (settle keys traded_day (some trading) traded_live).0 ≡ some settled
unfolding settle settle_as build_plan calculate_settlement check_each check_position facts_of
    price_of has_pnl_snapshot_identity_mismatch matching_pnl_snapshot
    has_margin_snapshot_identity_mismatch matching_margin_snapshot required_ids find_settlement
    find_settlement_id settle_new load_live_positions find_position lives_differ write_settlement
    write_rows append_account_snapshot find_account is_valid_account append_settlement_snapshot
    roll_each roll_today_to_yesterday_for_settlement update_where ◌+ℤ◌ ◌-ℤ◌ set_quantities first
traded_settles = refl

settle-IsBalanced_example :
    IsBalanced (settle_as keys traded_day false (some trading) traded_live).1.positions
settle-IsBalanced_example =
    settle-IsBalanced keys traded_day (some trading) false traded_live (record {
      keys = after_first-IsLedger.keys;
      sound = after_first-IsLedger.sound;
      long = after_first-IsLedger.long;
      short = after_first-IsLedger.short;
    })
