-- ===== src/Position/Derived.antt =====
-- src/futures_mvp/db/repositories.py: what the margin, PnL and settlement engines write to `positions`.
pub mod Laws
use mathlib.Core.Option
use yanzl.Prelude.{ℕ, suc, Bool, not, ◌&&◌, Option, none, some, List, map, String}
use yanzl.Prelude.Tests.{if◌then◌else◌, is_some}
use yanzl.Prelude.Equality.{◌==◌, String_eq}
use yanzl.Prelude.Int.{pos, ◌+ℤ◌}
use yanzl.Domain.Orders.{Decimal, OrderId, malformed}
use yanzl.Domain.Positions.{Position}
use yanzl.Database.UnitOfWork.{
  Error, repository, optimistic_lock, Uow, pure, raise, gets, or_raise, modify, ◌>>=◌, ◌>>◌,
}
use yanzl.Position.Store.{
  PositionRow, PositionDb, find_position, position_to_domain, has_version,
  get_by_account_instrument,
}

-- The columns that one of the three updates sets.
pub data Change : Type 0 where
  margin : Decimal → Change
  pnl : Decimal → Decimal → Change
  roll : Change

abbrev pub changed : Change → Position → Position
changed (margin used) p = record p { margin_used = used }
changed (pnl realized unrealized) p = record p {
  realized_pnl = realized;
  unrealized_pnl = unrealized;
}
changed roll p = record p {
  long_yesterday_qty = p.long_yesterday_qty +ℤ p.long_today_qty;
  short_yesterday_qty = p.short_yesterday_qty +ℤ p.short_today_qty;
  long_today_qty = pos 0;
  short_today_qty = pos 0;
  version = suc p.version;
}

abbrev pub touched : String → String → Change → PositionRow → PositionRow
touched account_id instrument_id c r =
    if r.state.account_id == account_id && r.state.instrument_id == instrument_id
    then record r { state = changed c r.state }
    else r

-- The row is told by its account and instrument; the error names them.
abbrev pub change_error : Option ℕ → String → Error
change_error none key = repository "position not found"
change_error (some v) key = optimistic_lock (malformed key)

-- The update that the three methods share.
unfoldable pub update_where : String → String → Change → Option ℕ → Uow PositionDb Position
update_where account_id instrument_id c expected = do
  found ← gets (λ d. has_version (find_position account_id instrument_id d.positions) expected)
  if not found then raise (change_error expected account_id) else do
    modify (λ d. record d { positions = map (touched account_id instrument_id c) d.positions })
    updated ← get_by_account_instrument account_id instrument_id
    or_raise updated (repository "position updated but not found")

unfoldable pub update_margin_used : String → String → Decimal → Option ℕ → Uow PositionDb Position
update_margin_used account_id instrument_id used expected =
    update_where account_id instrument_id (margin used) expected

unfoldable pub update_pnl : String → String → Decimal → Decimal → Option ℕ → Uow PositionDb Position
update_pnl account_id instrument_id realized unrealized expected =
    update_where account_id instrument_id (pnl realized unrealized) expected

unfoldable pub roll_today_to_yesterday_for_settlement :
    String → String → ℕ → Uow PositionDb Position
roll_today_to_yesterday_for_settlement account_id instrument_id expected = do
  current ← get_by_account_instrument account_id instrument_id
  or_raise current (repository "position not found")
  update_where account_id instrument_id roll (some expected)
