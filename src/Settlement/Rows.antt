-- ===== src/Settlement/Rows.antt =====
-- What the repositories' methods of a settlement write, as triples on the session.
use mathlib.Core.Path.{subst}
use yanzl.Prelude.{
  ℕ, ◌≡◌, refl, ap, sym, not, ◌∙◌, true, ◌&&◌, inl, inr, Option, none, some, List, [], ◌∷◌, ◌++◌,
  map, String, arith,
}
use yanzl.Prelude.Tests.{Bool-cases, Option-cases, is_some}
use yanzl.Prelude.Text.{is_empty}
use yanzl.Prelude.Equality.{ℕ_eq, String_eq}
use yanzl.Domain.Orders.{OrderId, numeral, malformed}
use yanzl.Domain.Positions.{Position}
use yanzl.Database.UnitOfWork.{Result, ok, err, repository, value_error, Session, Uow, ◌>>=◌}
use yanzl.Database.Runs.{Ends, Runs, Runs-bind, Runs-if, Runs-weaken, Runs-pure, Runs-raise}
use yanzl.Position.Store.{PositionRow, PositionDb, find_position, has_version}
use yanzl.Position.Derived.{roll, touched, update_where, roll_today_to_yesterday_for_settlement}
use yanzl.Settlement.Models.{AccountSnapshot, SettlementSnapshot}
use yanzl.Settlement.Store.{
  AccountRow, SettlementDb, on_positions, account_snapshot_to_domain, settlement_snapshot_to_domain,
  find_account, append_account_snapshot, find_settlement, find_settlement_id, settlement_row,
  is_known_account, optional_key, insert_settlement, append_or_repeat, through,
  append_settlement_snapshot,
}
use yanzl.Settlement.Engine.{roll_each, append_valid, is_valid_account}

abbrev pub account_row : ℕ → AccountSnapshot → AccountRow
account_row id a = record { id = id; state = a }

-- A new row of the account under a key that was free.
abbrev pub AppendedAccount :
    ℕ → AccountSnapshot → SettlementDb → AccountSnapshot → SettlementDb → Type 0
AppendedAccount next_id a w x v =
    (x ≡ account_snapshot_to_domain (account_row next_id a))
    × (v ≡ record w { accounts = w.accounts ++ account_row next_id a ∷ [] })
    × (find_account next_id w.accounts ≡ none)

pub append_account-Runs :
    (next_id : ℕ) (a : AccountSnapshot) (d w : SettlementDb)
    → Runs d w (append_account_snapshot next_id a) (AppendedAccount next_id a w)
unfolding append_account_snapshot Runs
append_account-Runs next_id a d w = elim (Option-cases (find_account next_id w.accounts)) [
  | inl free ↦ rw free (refl, (refl, refl, free))
  | inr taken ↦ rw taken.1 refl
]

abbrev pub AppendedValid :
    ℕ → AccountSnapshot → SettlementDb → AccountSnapshot → SettlementDb → Type 0
AppendedValid next_id a w x v = (is_valid_account a ≡ true) × AppendedAccount next_id a w x v

pub append_valid-Runs :
    (next_id : ℕ) (a : AccountSnapshot) (d w : SettlementDb)
    → Runs d w (append_valid next_id a) (AppendedValid next_id a w)
append_valid-Runs next_id a d w =
    Runs-if (AppendedValid next_id a w) d w _ _ (is_valid_account a)
      (λ valid.
        Runs-weaken (AppendedAccount next_id a w) _ d w _ (λ x v h. (valid, h))
          (append_account-Runs next_id a d w))
      (λ invalid. Runs-raise _ d w (value_error "account_snapshot_value"))

-- The rows after the roll of each position of a list.
abbrev pub roll_rows : List Position → List PositionRow → List PositionRow
roll_rows [] rows = rows
roll_rows (p ∷ ps) rows = roll_rows ps (map (touched p.account_id p.instrument_id roll) rows)

abbrev pub with_rows : SettlementDb → List PositionRow → SettlementDb
with_rows w rows = record w { positions = record w.positions { positions = rows } }

-- A method on the part of the positions.
module _ {A : Type 0} (Q : A → PositionDb → Type 0) (d w : SettlementDb) where
  abbrev pub OnPositions : A → SettlementDb → Type 0
  OnPositions x v = Q x v.positions × (v ≡ record w { positions = v.positions })

  through-Ends :
      (x : Result A × Session PositionDb)
      → Ends Q d.positions x
      → Ends OnPositions d (through (record { committed = d; working = w }) x)
  through-Ends (ok a, s) h = (refl, (h.1, refl))
  through-Ends (err e, s) h = refl

  on_positions-Runs :
      (m : Uow PositionDb A)
      → Runs d.positions w.positions m Q
      → Runs d w (on_positions m) OnPositions
  unfolding Runs
  on_positions-Runs m h =
      through-Ends (m (record { committed = d.positions; working = w.positions })) h

abbrev Touched : String → String → PositionDb → Position → PositionDb → Type 0
Touched a i w x u = u ≡ record w { positions = map (touched a i roll) w.positions }

update_where-Runs :
    (a i : String) (v : ℕ) (d w : PositionDb)
    → Runs d w (update_where a i roll (some v)) (Touched a i w)
unfolding update_where Runs
update_where-Runs a i v d w =
    elim (Bool-cases (has_version (find_position a i w.positions) (some v))) [
      | inr stale ↦ rw stale refl
      | inl found ↦ elim (Option-cases (find_position a i (map (touched a i roll) w.positions))) [
        | inl lost ↦ rw found (rw lost refl)
        | inr at ↦ rw found (rw at.1 (refl, refl))
      ]
    ]

roll-Runs :
    (a i : String) (v : ℕ) (d w : PositionDb)
    → Runs d w (roll_today_to_yesterday_for_settlement a i v) (Touched a i w)
unfolding roll_today_to_yesterday_for_settlement Runs
roll-Runs a i v d w = elim (Option-cases (find_position a i w.positions)) [
  | inl absent ↦ rw absent refl
  | inr at ↦ rw at.1 (update_where-Runs a i v d w)
]

abbrev pub Rolled : List Position → SettlementDb → Unit {0} → SettlementDb → Type 0
Rolled ps w x u = u ≡ with_rows w (roll_rows ps w.positions.positions)

-- A loop that ends well has rolled each position of its list.
pub roll_each-Runs :
    (ps : List Position) (d w : SettlementDb) → Runs d w (roll_each ps) (Rolled ps w)
unfolding roll_each
roll_each-Runs [] d w = Runs-pure (Rolled [] w) d w tt refl
roll_each-Runs (p ∷ ps) d w =
    Runs-bind (OnPositions (Touched p.account_id p.instrument_id w.positions) d w)
      (Rolled (p ∷ ps) w) d
      (on_positions (roll_today_to_yesterday_for_settlement p.account_id p.instrument_id p.version))
      (λ x. roll_each ps) w
      (on_positions-Runs _ d w _
        (roll-Runs p.account_id p.instrument_id p.version d.positions w.positions))
      (λ x u h.
        Runs-weaken (Rolled ps u) (Rolled (p ∷ ps) w) d u (roll_each ps)
          (λ y v e.
            e
            ∙ ap (λ t. with_rows t (roll_rows ps t.positions.positions))
                (h.1 ∙ ap (λ t. record w { positions = t }) h.0))
          (roll_each-Runs ps d u))

-- A key that is a numeral is read as it is, and nothing is written.
abbrev pub Named : Option OrderId → Option ℕ → Type 0
Named key k = (n : ℕ) → key ≡ some (numeral n) → k ≡ some n

abbrev Read : Option OrderId → SettlementDb → Option ℕ → SettlementDb → Type 0
Read key w k v = (v ≡ w) × Named key k

-- The row of a settlement, which names known snapshots of the account.
pub record AppendedSettlement (next_id : ℕ) (s : SettlementSnapshot) (w : SettlementDb)
    (x : SettlementSnapshot) (v : SettlementDb) : Type 0 where
  pub before_id : Option ℕ
  pub after_id : Option ℕ
  pub answer : x ≡ settlement_snapshot_to_domain (settlement_row next_id s before_id after_id)
  pub written :
      v
      ≡ record w { settlements = w.settlements ++ settlement_row next_id s before_id after_id ∷ [] }
  pub after_named : Named s.account_snapshot_after_id after_id
  pub before_known : is_known_account before_id w.accounts ≡ true
  pub after_known : is_known_account after_id w.accounts ≡ true

optional_key-Runs :
    (key : Option OrderId) (d w : SettlementDb) → Runs d w (optional_key key) (Read key w)
optional_key-Runs none d w = Runs-pure (Read none w) d w none (refl, λ n h. absurd cc)
optional_key-Runs (some (numeral n)) d w =
    Runs-pure (Read (some (numeral n)) w) d w (some n) (refl, λ m h. cc)
optional_key-Runs (some (malformed t)) d w =
    Runs-if (Read (some (malformed t)) w) d w _ _ (is_empty t)
      (λ blank. Runs-pure (Read (some (malformed t)) w) d w none (refl, λ n h. absurd cc))
      (λ other. Runs-raise _ d w (repository "invalid order_id"))

module _ (next_id : ℕ) (s : SettlementSnapshot) (d : SettlementDb) where
  insert-Runs :
      (w : SettlementDb) (before_id after_id : Option ℕ)
      → Named s.account_snapshot_after_id after_id
      → Runs d w (insert_settlement next_id s before_id after_id) (AppendedSettlement next_id s w)
  unfolding Runs
  insert-Runs w before_id after_id named =
      elim (Bool-cases (
        not (is_some (find_settlement_id next_id w.settlements))
        && is_known_account before_id w.accounts
        && is_known_account after_id w.accounts)) [
          | inr broken ↦ rw broken refl
          | inl fits ↦ rw fits (
            refl,
            record {
              before_id = before_id;
              after_id = after_id;
              answer = refl;
              written = refl;
              after_named = named;
              before_known = ground arith;
              after_known = ground arith;
            },
          )
        ]

  insert_after :
      (w v : SettlementDb) (before_id after_id : Option ℕ)
      → Named s.account_snapshot_after_id after_id
      → v ≡ w
      → Runs d v (insert_settlement next_id s before_id after_id) (AppendedSettlement next_id s w)
  insert_after w v before_id after_id named same =
      subst
        (λ t.
          Runs d t (insert_settlement next_id s before_id after_id)
            (AppendedSettlement next_id s w))
        (sym same) (insert-Runs w before_id after_id named)

  append_new-Runs :
      (w : SettlementDb)
      → Runs d w (append_or_repeat none next_id s) (AppendedSettlement next_id s w)
  append_new-Runs w =
      Runs-bind (Read s.account_snapshot_before_id w) (AppendedSettlement next_id s w) d
        (optional_key s.account_snapshot_before_id)
        (λ before_id. do
          after_id ← optional_key s.account_snapshot_after_id
          insert_settlement next_id s before_id after_id)
        w (optional_key-Runs s.account_snapshot_before_id d w)
        (λ before_id u same.
          Runs-bind (Read s.account_snapshot_after_id u) (AppendedSettlement next_id s w) d
            (optional_key s.account_snapshot_after_id)
            (λ after_id. insert_settlement next_id s before_id after_id) u
            (optional_key-Runs s.account_snapshot_after_id d u)
            (λ after_id v same'. insert_after w v before_id after_id same'.1 (same'.0 ∙ same.0)))

  pub append_settlement-Runs :
      (w : SettlementDb)
      → find_settlement s.account_id s.trading_day w.settlements ≡ none
      → Runs d w (append_settlement_snapshot next_id s) (AppendedSettlement next_id s w)
  unfolding append_settlement_snapshot Runs
  append_settlement-Runs w new =
      subst
        (λ o.
          Ends (AppendedSettlement next_id s w) d
            (append_or_repeat o next_id s (record { committed = d; working = w })))
        (sym new) (append_new-Runs w)
