-- ===== src/Settlement/Engine.antt =====
-- src/futures_mvp/modules/settlement/engine.py: `settle` and `replay_settlement`.
use yanzl.Prelude.{ℕ, Bool, true, false, not, ◌&&◌, Option, none, some, List, [], ◌∷◌, String}
use yanzl.Prelude.Tests.{if◌then◌else◌}
use yanzl.Prelude.Int.{pos, ltb_ℤ, ℤ_eq}
use yanzl.Domain.Orders.{OrderId}
use yanzl.Domain.Positions.{Position, Reason, text, raised}
use yanzl.Database.UnitOfWork.{
  Error, invalid_order_transition, event_key_collision, settlement_snapshot_conflict, value_error,
  integrity_error, Result, ok, err, Uow, pure, raise, gets, commit, rollback, with_uow, except_any,
  ◌>>=◌, ◌>>◌,
}
use yanzl.Position.Derived.{roll_today_to_yesterday_for_settlement}
use yanzl.Settlement.Models.{
  AccountSnapshot, AccountBefore, of_context, of_snapshot, TradingCalendar, SettlementContext,
  SettlementResultStatus, settled, duplicate, rejected_missing_position, conflict, error,
  PositionPayload_eq, SettlementSnapshot, SettlementResult, SettlementPlan,
}
use yanzl.Settlement.Store.{
  SettlementDb, on_positions, append_account_snapshot, get_by_account_trading_day,
  same_canonical_settlement_snapshot, append_settlement_snapshot,
}
use yanzl.Settlement.Live.{load_live_positions, lives_differ, live_divergence_reason}
use yanzl.Settlement.Calculator.{settlement_refused, Planned, answer, plan, build_plan}

-- The keys that the database gives to the rows of a settlement.
pub record Keys : Type 0 where
  pub before : ℕ
  pub after : ℕ
  pub settlement : ℕ

-- The checks of the model `AccountSnapshot`.
unfoldable pub is_valid_account : AccountSnapshot → Bool
is_valid_account a =
    not (ltb_ℤ a.available_cash (pos 0))
    && not (ltb_ℤ a.margin_used (pos 0))
    && not (ltb_ℤ a.frozen_margin (pos 0))

-- The model is made, then appended.
abbrev pub append_valid : ℕ → AccountSnapshot → Uow SettlementDb AccountSnapshot
append_valid next_id a =
    if is_valid_account a
    then append_account_snapshot next_id a
    else raise (value_error "account_snapshot_value")

module _ (c : SettlementContext) where
  abbrev pub engine_result :
      SettlementResultStatus → Option SettlementSnapshot → Option Reason → SettlementResult
  engine_result status snapshot reason = record {
    status = status;
    snapshot = snapshot;
    reason = reason;
    account_id = c.account_id;
    trading_day = c.trading_day;
  }

  -- The `except` clauses; what they do not name goes on.
  abbrev pub settle_failed : Error → Uow SettlementDb SettlementResult
  settle_failed (settlement_snapshot_conflict m) = do
    rollback
    pure (engine_result conflict none (some (raised (settlement_snapshot_conflict m))))
  settle_failed (integrity_error m) = raise (integrity_error m)
  settle_failed (invalid_order_transition a b) = raise (invalid_order_transition a b)
  settle_failed (event_key_collision m) = raise (event_key_collision m)
  settle_failed e = do rollback; pure (engine_result error none (some (raised e)))

-- The loop over the live positions.
unfoldable pub roll_each : List Position → Uow SettlementDb (Unit {0})
roll_each [] = pure tt
roll_each (p ∷ ps) = do
  on_positions (roll_today_to_yesterday_for_settlement p.account_id p.instrument_id p.version)
  roll_each ps

module _ (keys : Keys) (c : SettlementContext) where
  abbrev pub append_before : AccountSnapshot → Option OrderId → Uow SettlementDb AccountSnapshot
  append_before account (some id) = pure account
  append_before account none = append_account_snapshot keys.before account

  abbrev pub ensure_before : AccountBefore → SettlementPlan → Uow SettlementDb AccountSnapshot
  ensure_before (of_snapshot account) planned = append_before account account.id
  ensure_before (of_context account) planned = append_valid keys.before (record {
    id = none;
    account_id = c.account_id;
    equity = account.equity;
    available_cash = account.available_cash;
    margin_used = planned.snapshot.margin_used;
    frozen_margin = account.frozen_cash;
    realized_pnl = planned.snapshot.realized_pnl;
    unrealized_pnl = planned.snapshot.unrealized_pnl;
    snapshot_time = account.snapshot_time;
  })

  abbrev pub account_after : SettlementPlan → AccountSnapshot
  account_after planned = record {
    id = none;
    account_id = c.account_id;
    equity = planned.equity_after;
    available_cash = planned.available_cash_after;
    margin_used = planned.snapshot.margin_used;
    frozen_margin = planned.frozen_cash_after;
    realized_pnl = planned.snapshot.realized_pnl;
    unrealized_pnl = planned.snapshot.unrealized_pnl;
    snapshot_time = c.settled_at;
  }

  -- The `try`.
  unfoldable pub write_rows : SettlementPlan → List Position → Uow SettlementDb SettlementSnapshot
  write_rows planned live = do
    before ← ensure_before c.account_before planned
    after ← append_valid keys.after (account_after planned)
    appended ← append_settlement_snapshot keys.settlement (record planned.snapshot {
      account_snapshot_before_id = before.id;
      account_snapshot_after_id = after.id;
    })
    roll_each live
    pure appended

  unfoldable pub write_settlement :
      SettlementPlan → List Position → Uow SettlementDb SettlementResult
  write_settlement planned live =
      except_any
        (do
          appended ← write_rows planned live
          commit
          pure (engine_result c settled (some appended) none))
        (settle_failed c)

  abbrev pub settle_live :
      SettlementPlan → Option (List Position) → Uow SettlementDb SettlementResult
  settle_live planned none =
      pure (settlement_refused c rejected_missing_position "missing_live_position")
  settle_live planned (some live) =
      if lives_differ live c.positions
      then pure (settlement_refused c conflict "live_position_diverged_from_context")
      else write_settlement planned live

  unfoldable pub settle_new : SettlementPlan → Uow SettlementDb SettlementResult
  settle_new planned = do
    live ← gets (λ d. load_live_positions d.positions c.positions)
    settle_live planned live

module _ (keys : Keys) (c : SettlementContext) (replay : Bool) where
  abbrev pub replay_result :
      SettlementSnapshot → Result (Option String) → Uow SettlementDb SettlementResult
  replay_result existing (err e) = raise e
  replay_result existing (ok none) = pure (engine_result c duplicate (some existing) none)
  replay_result existing (ok (some reason)) =
      pure (engine_result c conflict (some existing) (some (text reason)))

  abbrev pub check_live : SettlementSnapshot → Uow SettlementDb SettlementResult
  check_live existing = do
    reason ← gets (λ d. live_divergence_reason d existing)
    replay_result existing reason

  unfoldable pub settle_existing :
      SettlementSnapshot → SettlementPlan → Uow SettlementDb SettlementResult
  settle_existing existing planned =
      if not (same_canonical_settlement_snapshot existing planned.snapshot)
      then pure
          (engine_result c conflict (some existing) (some (text "settlement_snapshot_diverged")))
      else if replay
      then check_live existing
      else pure (engine_result c duplicate (some existing) none)

  abbrev pub settle_unless_known :
      SettlementPlan → Option SettlementSnapshot → Uow SettlementDb SettlementResult
  settle_unless_known planned (some existing) = settle_existing existing planned
  settle_unless_known planned none = settle_new keys c planned

  abbrev pub settle_plan : SettlementPlan → Uow SettlementDb SettlementResult
  settle_plan planned = do
    existing ←
        gets (get_by_account_trading_day planned.snapshot.account_id planned.snapshot.trading_day)
    settle_unless_known planned existing

  abbrev pub settle_planned : Result Planned → SettlementDb → Result SettlementResult × SettlementDb
  settle_planned (err e) d = (err e, d)
  settle_planned (ok (answer r)) d = (ok r, d)
  settle_planned (ok (plan planned)) d = with_uow (settle_plan planned) d

  -- `_settle`
  unfoldable pub settle_as :
      Option TradingCalendar → SettlementDb → Result SettlementResult × SettlementDb
  settle_as calendar d = settle_planned (build_plan c calendar) d

unfoldable pub settle :
    Keys
    → SettlementContext
    → Option TradingCalendar
    → SettlementDb
    → Result SettlementResult × SettlementDb
settle keys c calendar d = settle_as keys c false calendar d

unfoldable pub replay_settlement :
    Keys
    → SettlementContext
    → Option TradingCalendar
    → SettlementDb
    → Result SettlementResult × SettlementDb
replay_settlement keys c calendar d = settle_as keys c true calendar d
