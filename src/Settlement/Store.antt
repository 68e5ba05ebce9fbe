-- ===== src/Settlement/Store.antt =====
-- src/futures_mvp/db/repositories.py: the tables `account_snapshots` and `settlement_snapshots`, beside
-- those of the positions. The keys of new rows are the database's: they are arguments here.
use mathlib.Core.Option
use yanzl.Prelude.{
  ℕ, ◌≡◌, refl, Bool, true, not, ◌&&◌, ◌||◌, Option, none, some, List, [], ◌∷◌, ◌++◌, String,
}
use yanzl.Prelude.Tests.{ltb, if◌then◌else◌, is_some}
use yanzl.Prelude.Equality.{Comparable, ◌==◌, ==_iff, ◌⊗◌, ◌#◌, ℕ_eq, String_eq, List_eq, Tuple_eq}
use yanzl.Prelude.Int.{ℤ_eq}
use yanzl.Prelude.Text.{is_empty}
use yanzl.Prelude.Lists.{get_elem?, by_place_iff}
use yanzl.Domain.Orders.{Decimal, OrderId, numeral, malformed, OrderId_eq}
use yanzl.Database.UnitOfWork.{
  repository, settlement_snapshot_conflict, integrity_error, Result, Session, Uow, pure, raise,
  gets, modify, ◌>>=◌, ◌>>◌,
}
use yanzl.Position.Store.{PositionDb}
use yanzl.Settlement.Models.{
  AccountSnapshot, SettlementPrice, SettlementPrice_eq, SettlementResultStatus, settled, duplicate,
  rejected_non_trading_day, rejected_missing_position, rejected_missing_pnl,
  rejected_missing_margin, rejected_missing_settlement_price, rejected_frozen_position, conflict,
  error, PositionPayload, PositionPayload_eq, SettlementSnapshot,
}

pub record AccountRow : Type 0 where
  pub id : ℕ
  pub state : AccountSnapshot

-- A row with its foreign keys, and the other columns as the domain has them.
pub record SettlementRow : Type 0 where
  pub id : ℕ
  pub before_id : Option ℕ
  pub after_id : Option ℕ
  pub state : SettlementSnapshot

pub record SettlementDb : Type 0 where
  pub positions : PositionDb
  pub accounts : List AccountRow
  pub settlements : List SettlementRow

-- A method of the position repositories, on their part of the session. None of those used here
-- commits or rolls back.
abbrev pub through :
    {A : Type 0}
    → Session SettlementDb
    → Result A × Session PositionDb
    → Result A × Session SettlementDb
through s (r, t) = (r, record s { working = record s.working { positions = t.working } })

abbrev pub on_positions : {A : Type 0} → Uow PositionDb A → Uow SettlementDb A
on_positions m s =
    through s (m (record { committed = s.committed.positions; working = s.working.positions }))

abbrev pub account_snapshot_to_domain : AccountRow → AccountSnapshot
account_snapshot_to_domain r = record r.state { id = some (numeral r.id) }

abbrev pub settlement_snapshot_to_domain : SettlementRow → SettlementSnapshot
settlement_snapshot_to_domain r = record r.state {
  id = some (numeral r.id);
  account_snapshot_before_id = Option.map numeral r.before_id;
  account_snapshot_after_id = Option.map numeral r.after_id;
}

unfoldable pub find_account : ℕ → List AccountRow → Option AccountRow
find_account id [] = none
find_account id (r ∷ rs) = if r.id == id then some r else find_account id rs

-- A new row's key, or the driver's error for one that is taken.
unfoldable pub append_account_snapshot : ℕ → AccountSnapshot → Uow SettlementDb AccountSnapshot
append_account_snapshot next_id snapshot = do
  taken ← gets (λ d. is_some (find_account next_id d.accounts))
  if taken then raise (integrity_error "account_snapshots.id") else do
    modify
        (λ d. record d { accounts = d.accounts ++ record { id = next_id; state = snapshot } ∷ [] })
    pure (account_snapshot_to_domain (record { id = next_id; state = snapshot }))

-- `order_by(snapshot_time.desc(), id.desc())`, of which the first.
abbrev pub later_snapshot : AccountRow → Option AccountRow → AccountRow
later_snapshot r none = r
later_snapshot r (some q) =
    if ltb q.state.snapshot_time r.state.snapshot_time
      || (q.state.snapshot_time == r.state.snapshot_time && ltb q.id r.id)
    then r
    else q

unfoldable pub latest : String → List AccountRow → Option AccountRow
latest account_id [] = none
latest account_id (r ∷ rs) =
    let rest = latest account_id rs in
    if r.state.account_id == account_id then some (later_snapshot r rest) else rest

abbrev pub get_latest : String → SettlementDb → Option AccountSnapshot
get_latest account_id d = Option.map account_snapshot_to_domain (latest account_id d.accounts)

unfoldable pub find_settlement : String → ℕ → List SettlementRow → Option SettlementRow
find_settlement account_id trading_day [] = none
find_settlement account_id trading_day (r ∷ rs) =
    if r.state.account_id == account_id && r.state.trading_day == trading_day
    then some r
    else find_settlement account_id trading_day rs

unfoldable pub find_settlement_id : ℕ → List SettlementRow → Option SettlementRow
find_settlement_id id [] = none
find_settlement_id id (r ∷ rs) = if r.id == id then some r else find_settlement_id id rs

abbrev pub get_by_account_trading_day : String → ℕ → SettlementDb → Option SettlementSnapshot
get_by_account_trading_day account_id trading_day d =
    Option.map settlement_snapshot_to_domain (find_settlement account_id trading_day d.settlements)

abbrev statuses : List SettlementResultStatus
statuses =
    settled ∷ duplicate ∷ rejected_non_trading_day ∷ rejected_missing_position
    ∷ rejected_missing_pnl ∷ rejected_missing_margin ∷ rejected_missing_settlement_price
    ∷ rejected_frozen_position ∷ conflict ∷ error ∷ []

abbrev result_place : SettlementResultStatus → ℕ
result_place settled = 0
result_place duplicate = 1
result_place rejected_non_trading_day = 2
result_place rejected_missing_position = 3
result_place rejected_missing_pnl = 4
result_place rejected_missing_margin = 5
result_place rejected_missing_settlement_price = 6
result_place rejected_frozen_position = 7
result_place conflict = 8
result_place error = 9

pub status-listed : (s : SettlementResultStatus) → get_elem? statuses (result_place s) ≡ some s
status-listed settled = refl
status-listed duplicate = refl
status-listed rejected_non_trading_day = refl
status-listed rejected_missing_position = refl
status-listed rejected_missing_pnl = refl
status-listed rejected_missing_margin = refl
status-listed rejected_missing_settlement_price = refl
status-listed rejected_frozen_position = refl
status-listed conflict = refl
status-listed error = refl

instance abbrev pub Status_eq : Comparable SettlementResultStatus
Status_eq = record {
  is_same = λ a b. result_place a == result_place b;
  is_same_iff = by_place_iff statuses result_place status-listed;
}

-- What a second snapshot of the same account and day must repeat; `created_at` and the snapshots of the
-- account are no part of it.
abbrev Canonical : Type 0
Canonical =
    (String ⊗ ℕ ⊗ String ⊗ List PositionPayload ⊗ List PositionPayload ⊗ List SettlementPrice)
    ⊗ List OrderId
    ⊗ List OrderId
    ⊗ Decimal
    ⊗ Decimal
    ⊗ Decimal
    ⊗ Decimal
    ⊗ Decimal
    ⊗ SettlementResultStatus

unfoldable pub canonical_payload : SettlementSnapshot → Canonical
canonical_payload s =
    (s.account_id # s.trading_day # s.calculation_key # s.positions_before # s.positions_after
      # s.settlement_prices)
    # s.pnl_snapshot_ids
    # s.margin_snapshot_ids
    # s.cash_before
    # s.cash_after
    # s.realized_pnl
    # s.unrealized_pnl
    # s.margin_used
    # s.status

unfoldable pub same_canonical_settlement_snapshot : SettlementSnapshot → SettlementSnapshot → Bool
same_canonical_settlement_snapshot a b = canonical_payload a == canonical_payload b

-- `parse_order_id(key) if key else None`
abbrev pub optional_key : Option OrderId → Uow SettlementDb (Option ℕ)
optional_key none = pure none
optional_key (some (numeral n)) = pure (some n)
optional_key (some (malformed t)) =
    if is_empty t then pure none else raise (repository "invalid order_id")

-- A foreign key of `account_snapshots`.
abbrev pub is_known_account : Option ℕ → List AccountRow → Bool
is_known_account none rows = true
is_known_account (some id) rows = is_some (find_account id rows)

abbrev pub settlement_row : ℕ → SettlementSnapshot → Option ℕ → Option ℕ → SettlementRow
settlement_row next_id snapshot before_id after_id = record {
  id = next_id;
  before_id = before_id;
  after_id = after_id;
  state = snapshot;
}

-- The insert, and the error that stands for a constraint that it breaks.
abbrev pub insert_settlement :
    ℕ → SettlementSnapshot → Option ℕ → Option ℕ → Uow SettlementDb SettlementSnapshot
insert_settlement next_id snapshot before_id after_id = do
  fits ← gets (λ d.
      not (is_some (find_settlement_id next_id d.settlements))
      && is_known_account before_id d.accounts
      && is_known_account after_id d.accounts)
  if not fits
      then raise (repository "settlement snapshot unique conflict but snapshot not found")
      else do
        modify (λ d. record d {
          settlements = d.settlements ++ settlement_row next_id snapshot before_id after_id ∷ [];
        })
        pure (settlement_snapshot_to_domain (settlement_row next_id snapshot before_id after_id))

abbrev pub append_or_repeat :
    Option SettlementRow → ℕ → SettlementSnapshot → Uow SettlementDb SettlementSnapshot
append_or_repeat (some existing) next_id snapshot =
    if same_canonical_settlement_snapshot existing.state snapshot
    then pure (settlement_snapshot_to_domain existing)
    else raise (
        settlement_snapshot_conflict
          "account/trading_day reused with different settlement snapshot payload")
append_or_repeat none next_id snapshot = do
  before_id ← optional_key snapshot.account_snapshot_before_id
  after_id ← optional_key snapshot.account_snapshot_after_id
  insert_settlement next_id snapshot before_id after_id

unfoldable pub append_settlement_snapshot :
    ℕ → SettlementSnapshot → Uow SettlementDb SettlementSnapshot
append_settlement_snapshot next_id snapshot = do
  existing ← gets (λ d. find_settlement snapshot.account_id snapshot.trading_day d.settlements)
  append_or_repeat existing next_id snapshot

pub same_canonical_settlement_snapshot-of :
    (a b : SettlementSnapshot)
    → canonical_payload a ≡ canonical_payload b
    → same_canonical_settlement_snapshot a b ≡ true
unfolding same_canonical_settlement_snapshot
same_canonical_settlement_snapshot-of a b h =
    (==_iff (canonical_payload a) (canonical_payload b)).1 h
