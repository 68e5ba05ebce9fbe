-- ===== src/Settlement/Writes.antt =====
-- What the `try` of a settlement writes when it raises nothing.

use yanzl.Prelude.{ℕ, ◌≡◌, refl, sym, ap, ◌∙◌, true, Option, none, some, List, [], ◌∷◌, ◌++◌}
use yanzl.Domain.Orders.{OrderId, numeral}
use yanzl.Domain.Positions.{Position}
use yanzl.Database.UnitOfWork.{Uow, pure, ◌>>=◌, ◌>>◌}
use yanzl.Database.Runs.{Runs, Runs-bind, Runs-weaken, Runs-pure}
use yanzl.Position.Store.{PositionDb}
use yanzl.Settlement.Models.{
  AccountSnapshot, AccountBefore, of_context, of_snapshot, SettlementContext, SettlementSnapshot,
  SettlementPlan,
}
use yanzl.Settlement.Store.{
  AccountRow, SettlementRow, SettlementDb, find_account, find_settlement, settlement_row,
  settlement_snapshot_to_domain, append_settlement_snapshot,
}
use yanzl.Settlement.Engine.{
  Keys, ensure_before, append_before, append_valid, is_valid_account, account_after, roll_each,
  write_rows,
}
use yanzl.Settlement.Rows.{
  account_row, AppendedAccount, AppendedValid, append_account-Runs, append_valid-Runs, roll_rows,
  with_rows, Rolled, roll_each-Runs, AppendedSettlement, append_settlement-Runs,
}

abbrev pub before_time : AccountBefore → ℕ
before_time (of_snapshot a) = a.snapshot_time
before_time (of_context a) = a.snapshot_time

-- The account's state before the settlement: on record already, or appended now.
pub data Before (keys : Keys) (b : AccountBefore) (w : SettlementDb) (x : AccountSnapshot)
    (v : SettlementDb) : Type 0 where
  recorded : v ≡ w → Before keys b w x v
  appended_before :
      (a : AccountSnapshot)
      → a.snapshot_time ≡ before_time b
      → AppendedAccount keys.before a w x v
      → Before keys b w x v

-- What the `try` writes.
pub record Wrote (keys : Keys) (c : SettlementContext) (p : SettlementPlan) (live : List Position)
    (w : SettlementDb) (x : SettlementSnapshot) (v : SettlementDb) : Type 0 where
  pub before : AccountSnapshot
  pub opened : SettlementDb
  pub ensured : Before keys c.account_before w before opened
  pub account_valid : is_valid_account (account_after keys c p) ≡ true
  pub account_new : find_account keys.after opened.accounts ≡ none
  pub row : SettlementRow
  pub row_state : row.state ≡ record p.snapshot {
    account_snapshot_before_id = before.id;
    account_snapshot_after_id = some (numeral keys.after);
  }
  pub row_after : row.after_id ≡ some keys.after
  pub answer : x ≡ settlement_snapshot_to_domain row
  pub written : v ≡ record {
    positions = record w.positions { positions = roll_rows live w.positions.positions };
    accounts = opened.accounts ++ account_row keys.after (account_after keys c p) ∷ [];
    settlements = w.settlements ++ row ∷ [];
  }

module _ (keys : Keys) (c : SettlementContext) where
  append_before-Runs :
      (a : AccountSnapshot) (id : Option OrderId) (d w : SettlementDb)
      → a.snapshot_time ≡ before_time c.account_before
      → Runs d w (append_before keys c a id) (Before keys c.account_before w)
  append_before-Runs a (some id) d w time = Runs-pure _ d w a (recorded refl)
  append_before-Runs a none d w time =
      Runs-weaken (AppendedAccount keys.before a w) _ d w _ (λ x v h. appended_before a time h)
        (append_account-Runs keys.before a d w)

  ensure_before-Runs :
      (b : AccountBefore) (p : SettlementPlan) (d w : SettlementDb)
      → c.account_before ≡ b
      → Runs d w (ensure_before keys c b p) (Before keys c.account_before w)
  ensure_before-Runs (of_snapshot a) p d w same =
      append_before-Runs a a.id d w (sym (ap before_time same))
  ensure_before-Runs (of_context a) p d w same =
      Runs-weaken (AppendedValid keys.before _ w) _ d w _
        (λ x v h. appended_before _ (sym (ap before_time same)) h.1)
        (append_valid-Runs keys.before _ d w)

module _ (keys : Keys) (b : AccountBefore) (w v : SettlementDb) (x : AccountSnapshot) where
  Before-settlements : Before keys b w x v → v.settlements ≡ w.settlements
  Before-settlements (recorded same) = ap (λ t. t.settlements) same
  Before-settlements (appended_before a time h) = ap (λ t. t.settlements) h.1

  Before-positions : Before keys b w x v → v.positions ≡ w.positions
  Before-positions (recorded same) = ap (λ t. t.positions) same
  Before-positions (appended_before a time h) = ap (λ t. t.positions) h.1

abbrev with_accounts : SettlementSnapshot → AccountSnapshot → AccountSnapshot → SettlementSnapshot
with_accounts s before after = record s {
  account_snapshot_before_id = before.id;
  account_snapshot_after_id = after.id;
}

module _ (keys : Keys) (c : SettlementContext) (p : SettlementPlan) (live : List Position)
    (d w : SettlementDb)
    (new : find_settlement p.snapshot.account_id p.snapshot.trading_day w.settlements ≡ none) where
  -- The last two steps, from the account's two snapshots on.
  abbrev finish : AccountSnapshot → AccountSnapshot → Uow SettlementDb SettlementSnapshot
  finish before after = do
    appended ← append_settlement_snapshot keys.settlement (with_accounts p.snapshot before after)
    roll_each live
    pure appended

  abbrev row_of : AccountSnapshot → AccountSnapshot → Option ℕ → Option ℕ → SettlementRow
  row_of before after before_id after_id =
      settlement_row keys.settlement (with_accounts p.snapshot before after) before_id after_id

  -- The database of the last step, from the parts that were there and those that are new.
  abbrev filled : PositionDb → List AccountRow → List SettlementRow → SettlementRow → SettlementDb
  filled positions accounts settlements row = record {
    positions = record positions { positions = roll_rows live positions.positions };
    accounts = accounts ++ account_row keys.after (account_after keys c p) ∷ [];
    settlements = settlements ++ row ∷ [];
  }

  wrote :
      (before after : AccountSnapshot) (s : SettlementSnapshot) (v1 v2 v3 v4 : SettlementDb)
      → Before keys c.account_before w before v1
      → AppendedValid keys.after (account_after keys c p) v1 after v2
      → AppendedSettlement keys.settlement (with_accounts p.snapshot before after) v2 s v3
      → Rolled live v3 tt v4
      → Wrote keys c p live w s v4
  wrote before after s v1 v2 v3 v4 b a t r =
      let row = row_of before after t.before_id t.after_id in
      record {
        before = before;
        opened = v1;
        ensured = b;
        account_valid = a.0;
        account_new = a.1.2;
        row = row;
        row_state = ap (λ y. with_accounts p.snapshot before y) a.1.0;
        row_after = t.after_named keys.after (ap (λ (y : AccountSnapshot). y.id) a.1.0);
        answer = t.answer;
        written =
            r
            ∙ ap (λ u. with_rows u (roll_rows live u.positions.positions))
                (t.written
                  ∙ ap (λ (u : SettlementDb). record u { settlements = u.settlements ++ row ∷ [] })
                      a.1.1)
            ∙ ap (λ q. filled q v1.accounts v1.settlements row)
                (Before-positions keys c.account_before w v1 before b)
            ∙ ap (λ q. filled w.positions v1.accounts q row)
                (Before-settlements keys c.account_before w v1 before b);
      }

  roll_last :
      (before after : AccountSnapshot) (s : SettlementSnapshot) (v1 v2 v3 : SettlementDb)
      → Before keys c.account_before w before v1
      → AppendedValid keys.after (account_after keys c p) v1 after v2
      → AppendedSettlement keys.settlement (with_accounts p.snapshot before after) v2 s v3
      → Runs d v3 (do roll_each live; pure s) (Wrote keys c p live w)
  roll_last before after s v1 v2 v3 b a t =
      Runs-bind (Rolled live v3) (Wrote keys c p live w) d (roll_each live) (λ u. pure s) v3
        (roll_each-Runs live d v3)
        (λ u v4 r.
          Runs-pure (Wrote keys c p live w) d v4 s (wrote before after s v1 v2 v3 v4 b a t r))

  settle_last :
      (before after : AccountSnapshot) (v1 v2 : SettlementDb)
      → Before keys c.account_before w before v1
      → AppendedValid keys.after (account_after keys c p) v1 after v2
      → Runs d v2 (finish before after) (Wrote keys c p live w)
  settle_last before after v1 v2 b a =
      let s = with_accounts p.snapshot before after in
      Runs-bind (AppendedSettlement keys.settlement s v2) (Wrote keys c p live w) d
        (append_settlement_snapshot keys.settlement s)
        (λ appended. do roll_each live; pure appended) v2
        (append_settlement-Runs keys.settlement s d v2 (
          ap (find_settlement p.snapshot.account_id p.snapshot.trading_day) (
            ap (λ (t : SettlementDb). t.settlements) a.1.1
            ∙ Before-settlements keys c.account_before w v1 before b)
          ∙ new))
        (λ x v3 t. roll_last before after x v1 v2 v3 b a t)

  pub write_rows-Runs : Runs d w (write_rows keys c p live) (Wrote keys c p live w)
  unfolding write_rows
  write_rows-Runs =
      Runs-bind (Before keys c.account_before w) (Wrote keys c p live w) d
        (ensure_before keys c c.account_before p)
        (λ before. do after ← append_valid keys.after (account_after keys c p); finish before after)
        w (ensure_before-Runs keys c c.account_before p d w refl)
        (λ before v1 b.
          Runs-bind (AppendedValid keys.after (account_after keys c p) v1) (Wrote keys c p live w) d
            (append_valid keys.after (account_after keys c p)) (λ after. finish before after) v1
            (append_valid-Runs keys.after (account_after keys c p) d v1)
            (λ after v2 a. settle_last before after v1 v2 b a))
