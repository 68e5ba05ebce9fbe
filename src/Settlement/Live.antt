-- ===== src/Settlement/Live.antt =====
-- src/futures_mvp/modules/settlement/engine.py: how the live rows compare with a context and with a snapshot.
use mathlib.Core.Option
use yanzl.Prelude.{Bool, false, not, ◌&&◌, ◌||◌, Option, none, some, List, [], ◌∷◌, String}
use yanzl.Prelude.Tests.{if◌then◌else◌}
use yanzl.Prelude.Equality.{◌==◌}
use yanzl.Prelude.Int.{ℤ_eq}
use yanzl.Domain.Orders.{OrderId, numeral, malformed}
use yanzl.Domain.Positions.{Position}
use yanzl.Database.UnitOfWork.{repository, Result, ok, err}
use yanzl.Position.Store.{PositionDb, find_position, position_to_domain}
use yanzl.Settlement.Models.{
  AccountSnapshot, PositionPayload, PositionPayload_eq, SettlementSnapshot, position_payload,
}
use yanzl.Settlement.Store.{SettlementDb, account_snapshot_to_domain, find_account, get_latest}

abbrev pub live_position : PositionDb → String → String → Option Position
live_position d account_id instrument_id =
    Option.map position_to_domain (find_position account_id instrument_id d.positions)

abbrev pub add_position : Option Position → Option (List Position) → Option (List Position)
add_position none rest = none
add_position (some p) none = none
add_position (some p) (some ps) = some (p ∷ ps)

-- `_load_live_positions`
unfoldable pub load_live_positions : PositionDb → List Position → Option (List Position)
load_live_positions d [] = some []
load_live_positions d (p ∷ ps) =
    add_position (live_position d p.account_id p.instrument_id) (load_live_positions d ps)

-- The comparison of the zipped lists.
unfoldable pub lives_differ : List Position → List Position → Bool
lives_differ (live ∷ lives) (p ∷ ps) =
    not (position_payload live == position_payload p) || lives_differ lives ps
lives_differ _ _ = false

abbrev pub position_reason : Option Position → PositionPayload → Option String → Option String
position_reason none expected rest = some "live_position_missing_for_replay"
position_reason (some live) expected rest =
    if not (position_payload live == expected)
    then some "live_position_diverged_from_settlement_snapshot"
    else rest

-- The loop over `positions_after`.
unfoldable pub position_divergence : PositionDb → List PositionPayload → Option String
position_divergence d [] = none
position_divergence d (p ∷ ps) =
    position_reason (live_position d p.account_id p.instrument_id) p (position_divergence d ps)

-- `_account_projection(…) != _account_projection(…)`
abbrev pub differs : AccountSnapshot → AccountSnapshot → Bool
differs a b = not (
    a.equity == b.equity
    && a.available_cash == b.available_cash
    && a.margin_used == b.margin_used
    && a.frozen_margin == b.frozen_margin)

abbrev pub account_reason : Option AccountSnapshot → Option AccountSnapshot → Option String
account_reason none expected = some "live_account_missing_for_replay"
account_reason (some live) none = some "live_account_missing_for_replay"
account_reason (some live) (some expected) =
    if differs live expected then some "live_account_diverged_from_settlement_snapshot" else none

abbrev pub account_divergence : SettlementDb → String → Option OrderId → Result (Option String)
account_divergence d account_id none = ok (some "settlement_account_snapshot_after_missing")
account_divergence d account_id (some (malformed t)) = err (repository "invalid order_id")
account_divergence d account_id (some (numeral id)) = ok (
    account_reason (get_latest account_id d)
      (Option.map account_snapshot_to_domain (find_account id d.accounts)))

abbrev pub unless_diverged : Option String → Result (Option String) → Result (Option String)
unless_diverged (some reason) rest = ok (some reason)
unless_diverged none rest = rest

-- `_live_divergence_reason`
unfoldable pub live_divergence_reason : SettlementDb → SettlementSnapshot → Result (Option String)
live_divergence_reason d s =
    unless_diverged (position_divergence d.positions s.positions_after)
      (account_divergence d s.account_id s.account_snapshot_after_id)
