-- ===== src/Position/Derived/Laws.antt =====
-- What the accounting engines' updates of `positions` leave as it was.
use mathlib.Core.Option
use yanzl.Prelude.{
  ℕ, ◌≡◌, refl, ap, sym, ◌∙◌, Bool, ◌&&◌, Option, none, some, List, [], ◌∷◌, map, String, ◌⊎◌, inl,
  inr, arith,
}
use yanzl.Prelude.Tests.{Bool-cases, Option-cases}
use yanzl.Prelude.Equality.{◌==◌, String_eq, ℕ_eq}
use yanzl.Prelude.Int.{eq_of_parts, int_laws}
use yanzl.Domain.Orders.{Decimal}
use yanzl.Domain.Positions.{Position}
use yanzl.Database.UnitOfWork.{Session}
use yanzl.Position.Apply.Laws.{IsSound, long_qty, short_qty}
use yanzl.Position.Store.{PositionRow, PositionDb, find_position, find_position_id, has_version}
use yanzl.Position.Sums.{long_of, short_of, version_of, total, event_long, event_short}
use yanzl.Position.Outcome.{HasKeys}
use yanzl.Position.Ledger.Lookups.{AllSound}
use yanzl.Position.Ledger.{IsLedger}
use yanzl.Position.Derived.{
  Change, margin, pnl, roll, changed, touched, update_where, update_margin_used, update_pnl,
  roll_today_to_yesterday_for_settlement,
}

pub find_position-touched :
    (a i : String) (c : Change) (x y : String) (rs : List PositionRow)
    → find_position x y (map (touched a i c) rs) ≡ Option.map (touched a i c) (find_position x y rs)
unfolding find_position
find_position-touched a i c x y [] = refl
find_position-touched a i (margin m) x y (r ∷ rs) =
    ground (arith, find_position-touched a i (margin m) x y rs)
find_position-touched a i (pnl m n) x y (r ∷ rs) =
    ground (arith, find_position-touched a i (pnl m n) x y rs)
find_position-touched a i roll x y (r ∷ rs) = ground (arith, find_position-touched a i roll x y rs)

find_position_id-touched :
    (a i : String) (c : Change) (id : ℕ) (rs : List PositionRow)
    → find_position_id id (map (touched a i c) rs)
      ≡ Option.map (touched a i c) (find_position_id id rs)
unfolding find_position_id
find_position_id-touched a i c id [] = refl
find_position_id-touched a i c id (r ∷ rs) = ground (arith, find_position_id-touched a i c id rs)

changed-IsSound : (c : Change) (p : Position) → IsSound p → IsSound (changed c p)
changed-IsSound (margin m) p s = record {
  long_today = s.long_today;
  long_yesterday = s.long_yesterday;
  short_today = s.short_today;
  short_yesterday = s.short_yesterday;
  long_frozen = s.long_frozen;
  short_frozen = s.short_frozen;
  long_price = s.long_price;
  short_price = s.short_price;
}
changed-IsSound (pnl m n) p s = record {
  long_today = s.long_today;
  long_yesterday = s.long_yesterday;
  short_today = s.short_today;
  short_yesterday = s.short_yesterday;
  long_frozen = s.long_frozen;
  short_frozen = s.short_frozen;
  long_price = s.long_price;
  short_price = s.short_price;
}
changed-IsSound roll p s = record {
  long_today = omega arith;
  long_yesterday = omega (int_laws, s.long_today, s.long_yesterday);
  short_today = omega arith;
  short_yesterday = omega (int_laws, s.short_today, s.short_yesterday);
  long_frozen = omega (int_laws, s.long_frozen);
  short_frozen = omega (int_laws, s.short_frozen);
  long_price = s.long_price;
  short_price = s.short_price;
}

changed-long : (c : Change) (p : Position) → long_qty (changed c p) ≡ long_qty p
changed-long (margin m) p = refl
changed-long (pnl m n) p = refl
changed-long roll p = eq_of_parts _ _ (omega int_laws)

changed-short : (c : Change) (p : Position) → short_qty (changed c p) ≡ short_qty p
changed-short (margin m) p = refl
changed-short (pnl m n) p = refl
changed-short roll p = eq_of_parts _ _ (omega int_laws)

module _ (a i : String) (c : Change) where
  abbrev test : PositionRow → Bool
  test r = r.state.account_id == a && r.state.instrument_id == i

  touched-IsSound : (r : PositionRow) → IsSound r.state → IsSound (touched a i c r).state
  touched-IsSound r s = elim (Bool-cases (test r)) [
    | inl hit ↦ rw hit (changed-IsSound c r.state s)
    | inr miss ↦ rw miss s
  ]

  touched-long : (o : Option PositionRow) → long_of (Option.map (touched a i c) o) ≡ long_of o
  touched-long none = refl
  touched-long (some r) = elim (Bool-cases (test r)) [
    | inl hit ↦ rw hit (changed-long c r.state)
    | inr miss ↦ rw miss refl
  ]

  touched-short : (o : Option PositionRow) → short_of (Option.map (touched a i c) o) ≡ short_of o
  touched-short none = refl
  touched-short (some r) = elim (Bool-cases (test r)) [
    | inl hit ↦ rw hit (changed-short c r.state)
    | inr miss ↦ rw miss refl
  ]

  touched-id : (r : PositionRow) → (touched a i c r).id ≡ r.id
  touched-id r = elim (Bool-cases (test r)) [ inl hit ↦ rw hit refl | inr miss ↦ rw miss refl ]

-- The ledger but for the versions.
pub record IsBalanced (d : PositionDb) : Type 0 where
  pub keys : HasKeys d.positions
  pub sound : AllSound d.positions
  pub long :
      (a i : String) → long_of (find_position a i d.positions) ≡ total event_long a i d.events
  pub short :
      (a i : String) → short_of (find_position a i d.positions) ≡ total event_short a i d.events

-- The row that an updated row comes from.
module _ (a i : String) (c : Change) (d : PositionDb) (b : IsBalanced d) where
  abbrev pub after : PositionDb
  after = record d { positions = map (touched a i c) d.positions }

  source :
      (x y : String) (r : PositionRow)
      → find_position x y after.positions ≡ some r
      → (q : PositionRow) × (find_position x y d.positions ≡ some q) × (touched a i c q ≡ r)
  source x y r at = elim (Option-cases (find_position x y d.positions)) [
    | inl none_found ↦
        absurd (cc (rw none_found at (sym (find_position-touched a i c x y d.positions) ∙ at)))
    | inr found ↦ (
      found.0,
      found.1,
      cc (rw found.1 at (sym (find_position-touched a i c x y d.positions) ∙ at)),
    )
  ]

  after-HasKeys : HasKeys after.positions
  after-HasKeys x y r at =
      let (q, found, same) = source x y r at in
      rw (sym same) (
        rw (touched-id a i c q)
          (find_position_id-touched a i c q.id d.positions ∙ rw (b.keys x y q found) refl))

  after-AllSound : AllSound after.positions
  after-AllSound x y r at =
      let (q, found, same) = source x y r at in
      rw (sym same) (touched-IsSound a i c q (b.sound x y q found))

  pub after-IsBalanced : IsBalanced after
  after-IsBalanced = record {
    keys = after-HasKeys;
    sound = after-AllSound;
    long = λ x y.
        ap long_of (find_position-touched a i c x y d.positions)
        ∙ touched-long a i c (find_position x y d.positions)
        ∙ b.long x y;
    short = λ x y.
        ap short_of (find_position-touched a i c x y d.positions)
        ∙ touched-short a i c (find_position x y d.positions)
        ∙ b.short x y;
  }

-- An update writes nothing or touches the rows of its key.
update_where-db :
    (a i : String) (c : Change) (expected : Option ℕ) (s : Session PositionDb)
    → ((update_where a i c expected s).1.working ≡ s.working)
      ⊎ ((update_where a i c expected s).1.working
          ≡ record s.working { positions = map (touched a i c) s.working.positions })
unfolding update_where
update_where-db a i c expected s =
    elim (Bool-cases (has_version (find_position a i s.working.positions) expected)) [
      | inr stale ↦ inl (rw stale refl)
      | inl found ↦
          elim (Option-cases (find_position a i (map (touched a i c) s.working.positions))) [
            | inl lost ↦ inr (rw found (rw lost refl))
            | inr at ↦ inr (rw found (rw at.1 refl))
          ]
    ]

update_where-IsBalanced :
    (a i : String) (c : Change) (expected : Option ℕ) (s : Session PositionDb)
    → IsBalanced s.working
    → IsBalanced (update_where a i c expected s).1.working
update_where-IsBalanced a i c expected s b = elim (update_where-db a i c expected s) [
  | inl same ↦ rw same b
  | inr is ↦ rw is (after-IsBalanced a i c s.working b)
]

-- The settlement's roll, whether it succeeds or raises, leaves every position found by its key and sound, and
-- its two sides the sums of its events' deltas.
pub roll-IsBalanced :
    (a i : String) (expected : ℕ) (s : Session PositionDb)
    → IsBalanced s.working
    → IsBalanced (roll_today_to_yesterday_for_settlement a i expected s).1.working
unfolding roll_today_to_yesterday_for_settlement
roll-IsBalanced a i expected s b = elim (Option-cases (find_position a i s.working.positions)) [
  | inl missing ↦ rw missing b
  | inr at ↦ rw at.1 (update_where-IsBalanced a i roll (some expected) s b)
]

balanced : (d : PositionDb) → IsLedger d → IsBalanced d
balanced d l = record { keys = l.keys; sound = l.sound; long = l.long; short = l.short }

-- A change that leaves the version alone.
unfoldable KeepsVersion : Change → Type 0
KeepsVersion c = (p : Position) → (changed c p).version ≡ p.version

touched-version :
    (a i : String) (c : Change) (o : Option PositionRow)
    → KeepsVersion c
    → version_of (Option.map (touched a i c) o) ≡ version_of o
unfolding KeepsVersion
touched-version a i c none k = refl
touched-version a i c (some r) k = elim (Bool-cases (test a i c r)) [
  | inl hit ↦ rw hit (k r.state)
  | inr miss ↦ rw miss refl
]

update_where-IsLedger :
    (a i : String) (c : Change) (expected : Option ℕ) (s : Session PositionDb)
    → KeepsVersion c
    → IsLedger s.working
    → IsLedger (update_where a i c expected s).1.working
update_where-IsLedger a i c expected s k l = elim (update_where-db a i c expected s) [
  | inl same ↦ rw same l
  | inr is ↦
      let b = after-IsBalanced a i c s.working (balanced s.working l) in
      rw is (record {
        keys = b.keys;
        sound = b.sound;
        long = b.long;
        short = b.short;
        version = λ x y.
            ap version_of (find_position-touched a i c x y s.working.positions)
            ∙ touched-version a i c (find_position x y s.working.positions) k
            ∙ l.version x y;
      })
]

-- Storing a margin or a profit and loss, whether it succeeds or raises, leaves the ledger a ledger.
pub stores-IsLedger :
    (a i : String) (x y z : Decimal) (expected : Option ℕ) (s : Session PositionDb)
    → IsLedger s.working
    → IsLedger (update_margin_used a i x expected s).1.working
      × IsLedger (update_pnl a i y z expected s).1.working
unfolding update_margin_used update_pnl KeepsVersion
stores-IsLedger a i x y z expected s l = (
  update_where-IsLedger a i (margin x) expected s (λ p. refl) l,
  update_where-IsLedger a i (pnl y z) expected s (λ p. refl) l,
)
