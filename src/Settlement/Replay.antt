-- ===== src/Settlement/Replay.antt =====
-- The replay of a settlement that was committed.
use mathlib.Core.Option
use mathlib.Core.Path.{subst}
use yanzl.Prelude.{
  ℕ, ◌≡◌, ◌≢◌, refl, sym, ap, ◌∙◌, true, false, inl, inr, Option, none, some, [], ◌∷◌, ◌++◌, ◌<◌,
  map,
}
use yanzl.Prelude.Tests.{if◌then◌else◌}
use yanzl.Prelude.Equality.{ℕ_eq, String_eq}
use yanzl.Domain.Orders.{numeral}
use yanzl.Database.UnitOfWork.{Result, ok}
use yanzl.Settlement.Models.{
  AccountSnapshot, TradingCalendar, SettlementContext, duplicate, SettlementSnapshot,
  SettlementResult, SettlementPlan, rolled_position_payload,
}
use yanzl.Settlement.Store.{
  AccountRow, SettlementDb, find_account, latest, account_snapshot_to_domain,
  settlement_snapshot_to_domain,
}
use yanzl.Settlement.Engine.{
  Keys, account_after, engine_result, replay_result, settle_existing, settle, replay_settlement,
}
use yanzl.Settlement.Writes.{before_time, Before, recorded, appended_before}
use yanzl.Settlement.Rows.{account_row, roll_rows}
use yanzl.Settlement.Accounts.{
  Earlier, Earlier-append, latest-append, find_account-append_new, differs_self,
}
use yanzl.Settlement.Rolls.{
  Distinct, Each, Held, RolledIn, roll_rows-RolledIn, position_divergence-none, loaded-Repeats,
}
use yanzl.Settlement.Live.{
  position_divergence, account_reason, account_divergence, unless_diverged, live_divergence_reason,
}
use yanzl.Settlement.Outcome.{closed, IsSettled, outcome, settle_as-outcome}
use yanzl.Settlement.Retries.{row-account, again, same, Repeated, repeated}

-- The replay after a settlement, where the positions of the context are different and the settlement is later
-- than every snapshot of the account.
module _ (keys keys' : Keys) (c : SettlementContext) (calendar : Option TradingCalendar)
    (d : SettlementDb) (y : Result SettlementResult × SettlementDb)
    (s : IsSettled keys c calendar d y) (distinct : Distinct c.positions)
    (earlier : Earlier c.account_id c.settled_at d.accounts)
    (before : before_time c.account_before < c.settled_at) where
  -- The snapshot on record, as the engine reads it.
  abbrev record_of : SettlementSnapshot
  record_of = settlement_snapshot_to_domain s.wrote.row

  repeats : Each (Held d.positions.positions) c.positions
  repeats = (loaded-Repeats d.positions c.positions s.live s.loaded s.undiverged).0

  rows_after : s.after.positions.positions ≡ roll_rows c.positions d.positions.positions
  rows_after =
      ap (λ (v : SettlementDb). v.positions.positions) s.wrote.written
      ∙ (loaded-Repeats d.positions c.positions s.live s.loaded s.undiverged).1
          d.positions.positions

  positions_after : record_of.positions_after ≡ map rolled_position_payload c.positions
  positions_after =
      ap (λ (x : SettlementSnapshot). x.positions_after) s.wrote.row_state
      ∙ ap (λ (q : SettlementPlan). q.snapshot.positions_after) s.is_plan.planned_as

  positions_agree : position_divergence s.after.positions record_of.positions_after ≡ none
  positions_agree =
      ap (position_divergence s.after.positions) positions_after
      ∙ position_divergence-none s.after.positions c.positions (
          subst (λ rows. Each (RolledIn rows) c.positions) (sym rows_after)
            (roll_rows-RolledIn c.positions d.positions.positions distinct repeats))

  abbrev last_row : AccountRow
  last_row = account_row keys.after (account_after keys c s.p)

  opened-Earlier :
      (x : AccountSnapshot) (v : SettlementDb)
      → Before keys c.account_before d x v
      → Earlier c.account_id c.settled_at v.accounts
  opened-Earlier x v (recorded same) =
      subst (λ (t : SettlementDb). Earlier c.account_id c.settled_at t.accounts) (sym same) earlier
  opened-Earlier x v (appended_before a time h) =
      subst (λ (t : SettlementDb). Earlier c.account_id c.settled_at t.accounts) (sym h.1)
        (Earlier-append c.account_id c.settled_at d.accounts (account_row keys.before a) earlier
          (subst (λ t. t < c.settled_at) (sym time) before))

  accounts_after : s.after.accounts ≡ s.wrote.opened.accounts ++ last_row ∷ []
  accounts_after = ap (λ (v : SettlementDb). v.accounts) s.wrote.written

  latest_after : latest c.account_id s.after.accounts ≡ some last_row
  latest_after =
      ap (latest c.account_id) accounts_after
      ∙ latest-append c.account_id s.wrote.opened.accounts last_row refl
          (opened-Earlier s.wrote.before s.wrote.opened s.wrote.ensured)

  found_after : find_account keys.after s.after.accounts ≡ some last_row
  found_after =
      ap (find_account keys.after) accounts_after
      ∙ find_account-append_new keys.after s.wrote.opened.accounts last_row s.wrote.account_new refl

  account_agrees :
      account_divergence s.after record_of.account_id record_of.account_snapshot_after_id ≡ ok none
  account_agrees =
      ap (λ a. account_divergence s.after a record_of.account_snapshot_after_id)
        (row-account keys keys' c calendar d y s)
      ∙ ap (λ (o : Option ℕ). account_divergence s.after c.account_id (Option.map numeral o))
          s.wrote.row_after
      ∙ ap
          (λ (o : Option AccountRow). ok (
            account_reason (Option.map account_snapshot_to_domain o)
              (Option.map account_snapshot_to_domain (find_account keys.after s.after.accounts))))
          latest_after
      ∙ ap
          (λ (o : Option AccountRow). ok (
            account_reason (some (account_snapshot_to_domain last_row))
              (Option.map account_snapshot_to_domain o)))
          found_after
      ∙ ap (λ b. ok (if b then some "live_account_diverged_from_settlement_snapshot" else none))
          (differs_self (account_snapshot_to_domain last_row))

  agrees : live_divergence_reason s.after record_of ≡ ok none
  unfolding live_divergence_reason
  agrees =
      ap
        (λ o.
          unless_diverged o
            (account_divergence s.after record_of.account_id record_of.account_snapshot_after_id))
        positions_agree
      ∙ account_agrees

  replay-duplicate :
      replay_settlement keys' c calendar s.after
      ≡ (ok (engine_result c duplicate (some s.snapshot) none), s.after)
  unfolding replay_settlement settle_existing
  replay-duplicate =
      again keys keys' c calendar d y s true
      ∙ rw (same keys keys' c calendar d y s) (
          ap (λ x. outcome (replay_result keys' c true record_of x (closed s.after))) agrees
          ∙ ap (λ x. (ok (engine_result c duplicate (some x) none), s.after)) (sym s.wrote.answer))

-- After a call of `settle` that changed the database, the replay of the same context finds the live positions and
-- the live account as the recorded snapshot foresees them, answers with a duplicate and changes nothing, where
-- the positions of the context are different and the settlement is later than every snapshot of the account.
pub settle-replays :
    (keys keys' : Keys) (c : SettlementContext) (calendar : Option TradingCalendar)
    (d : SettlementDb)
    → Distinct c.positions
    → Earlier c.account_id c.settled_at d.accounts
    → before_time c.account_before < c.settled_at
    → (settle keys c calendar d).1 ≢ d
    → Repeated c (settle keys c calendar d) (replay_settlement keys' c calendar)
unfolding settle
settle-replays keys keys' c calendar d distinct earlier before changed =
    elim (settle_as-outcome keys c calendar d false) [
      | inl kept ↦ absurd (changed kept)
      | inr s ↦
          repeated keys c calendar d _ (replay_settlement keys' c calendar) s
            (replay-duplicate keys keys' c calendar d _ s distinct earlier before)
    ]
