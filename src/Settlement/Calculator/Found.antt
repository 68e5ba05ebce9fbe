-- ===== src/Settlement/Calculator/Found.antt =====
-- What the loops of `calculate` find for a position: the stored results of the account, price and day.
use mathlib.Core.List.{Mem, mem-cons_self, mem-cons_of_mem}
use yanzl.Prelude.{
  ◌≡◌, refl, ap, ◌∙◌, inl, inr, Bool, true, none, ◌&&◌, Option, some, List, [], ◌∷◌, String, arith,
}
use yanzl.Prelude.Tests.{Bool-cases, if◌then◌else◌}
use yanzl.Prelude.Equality.{◌==◌, ==_iff, ℕ_eq, String_eq}
use yanzl.Prelude.Lists.{find}
use yanzl.Prelude.Int.{pos, ◌≤ℤ◌, ℤ_eq}
use yanzl.Domain.Positions.{Position}
use yanzl.Pnl.Calculator.{PnlPriceBasis, settlement_price, last_price, manual}
use yanzl.Settlement.Models.{MarginSnapshot, PnlSnapshot, SettlementPrice, SettlementContext}
use yanzl.Settlement.Calculator.{
  pass, check_position, Facts, facts_of, with_settlement_price, with_pnl, with_margin, price_of,
  or_earlier, is_settlement_basis, matching_pnl_snapshot, matching_margin_snapshot,
}

module _ (c : SettlementContext) where
  -- A price of the day for a position's instrument.
  pub record IsDayPrice (p : Position) (x : SettlementPrice) : Type 0 where
    pub listed : Mem x c.settlement_prices
    pub instrument : x.instrument_id ≡ p.instrument_id
    pub day : x.trading_day ≡ c.trading_day

  -- A stored result of the account for a position's version and the day, marked at a price of the day.
  pub record IsDayPnl (p : Position) (s : PnlSnapshot) : Type 0 where
    pub listed : Mem s c.pnl_snapshots
    pub account : s.account_id ≡ c.account_id
    pub instrument : s.instrument_id ≡ p.instrument_id
    pub version : s.position_version ≡ p.version
    pub day : s.trading_day ≡ c.trading_day
    pub basis : s.price_basis ≡ settlement_price
    pub marked : (x : SettlementPrice) × (_ : IsDayPrice p x) × (s.mark_price ≡ x.price)

  pub record IsDayMargin (p : Position) (s : MarginSnapshot) : Type 0 where
    pub listed : Mem s c.margin_snapshots
    pub account : s.account_id ≡ c.account_id
    pub instrument : s.instrument_id ≡ p.instrument_id
    pub version : s.position_version ≡ p.version
    pub day : s.trading_day ≡ c.trading_day

  -- A position of the account without frozen lots.
  pub record IsFree (p : Position) : Type 0 where
    pub account : p.account_id ≡ c.account_id
    pub long_free : p.frozen_long_qty ≤ℤ pos 0
    pub short_free : p.frozen_short_qty ≤ℤ pos 0

-- What a search finds stands in the list and passes.
find-Mem {ℓ} :
    {A : Type ℓ}
    → (test : A → Bool) (xs : List A) (x : A) → find test xs ≡ some x
    → Mem x xs × (test x ≡ true)
find-Mem test [] x h = absurd cc
find-Mem test (y ∷ ys) x h = elim (Bool-cases (test y)) [
  | inl passes ↦ let same : x ≡ y = ground arith in (rw same mem-cons_self, ap test same ∙ passes)
  | inr fails ↦ let rest = find-Mem test ys x (ground arith) in (mem-cons_of_mem y rest.0, rest.1)
]

-- The price that a dictionary of the prices holds is one of them.
price_of-Mem :
    (id : String) (prices : List SettlementPrice) (x : SettlementPrice)
    → price_of id prices ≡ some x
    → Mem x prices × (x.instrument_id ≡ id)
unfolding price_of
price_of-Mem id [] x h = absurd cc
price_of-Mem id (p ∷ ps) x h = by_later (price_of id ps) refl h (price_of-Mem id ps x)
  where
    by_later :
        (later : Option SettlementPrice)
        → price_of id ps ≡ later
        → or_earlier later (if p.instrument_id == id then some p else none) ≡ some x
        → (price_of id ps ≡ some x → Mem x ps × (x.instrument_id ≡ id))
        → Mem x (p ∷ ps) × (x.instrument_id ≡ id)
    by_later none e h found = elim (Bool-cases (p.instrument_id == id)) [
      | inl own ↦
          let same : x ≡ p = ground arith in
          (
            rw same mem-cons_self,
            (==_iff x.instrument_id id).0
                (ap (λ (q : SettlementPrice). q.instrument_id == id) same ∙ own),
          )
      | inr other ↦ absurd (ground arith)
    ]
    by_later (some y) e h found = let rest = found (e ∙ h) in (mem-cons_of_mem p rest.0, rest.1)

all_four :
    (a b c d : Bool) → (a && b && c && d) ≡ true → (a ≡ true) × (b ≡ true) × (c ≡ true) × (d ≡ true)
all_four a b c d h = (ground arith, ground arith, ground arith, ground arith)

basis_named : (b : PnlPriceBasis) → is_settlement_basis b ≡ true → b ≡ settlement_price
basis_named settlement_price h = refl
basis_named last_price h = absurd cc
basis_named manual h = absurd cc

module _ (c : SettlementContext) (p : Position) where
  pub check_position-IsFree : check_position c p ≡ pass tt → IsFree c p
  unfolding check_position
  check_position-IsFree h = record {
    account = (==_iff p.account_id c.account_id).0 (ground arith);
    long_free = ground arith;
    short_free = ground arith;
  }

  matching_pnl-IsDayPnl :
      (s : PnlSnapshot) (x : SettlementPrice)
      → matching_pnl_snapshot c p ≡ some s
      → is_settlement_basis s.price_basis ≡ true
      → IsDayPrice c p x
      → s.mark_price ≡ x.price
      → IsDayPnl c p s
  unfolding matching_pnl_snapshot
  matching_pnl-IsDayPnl s x h b priced mark =
      let found = find-Mem _ c.pnl_snapshots s h in
      let same = all_four _ _ _ _ found.1 in
      record {
        listed = found.0;
        account = (==_iff s.account_id c.account_id).0 same.0;
        instrument = (==_iff s.instrument_id p.instrument_id).0 same.1;
        version = (==_iff s.position_version p.version).0 same.2;
        day = (==_iff s.trading_day c.trading_day).0 same.3;
        basis = basis_named s.price_basis b;
        marked = (x, priced, mark);
      }

  matching_margin-IsDayMargin :
      (s : MarginSnapshot) → matching_margin_snapshot c p ≡ some s → IsDayMargin c p s
  unfolding matching_margin_snapshot
  matching_margin-IsDayMargin s h =
      let found = find-Mem _ c.margin_snapshots s h in
      let same = all_four _ _ _ _ found.1 in
      record {
        listed = found.0;
        account = (==_iff s.account_id c.account_id).0 same.0;
        instrument = (==_iff s.instrument_id p.instrument_id).0 same.1;
        version = (==_iff s.position_version p.version).0 same.2;
        day = (==_iff s.trading_day c.trading_day).0 same.3;
      }

  -- The stages of the second loop's checks, from the last on.
  by_margin :
      (x : SettlementPrice) (s : PnlSnapshot) (found : Option MarginSnapshot) (f : Facts)
      → matching_margin_snapshot c p ≡ found
      → IsDayPnl c p s
      → with_margin c p x s found ≡ pass f
      → IsDayPnl c p f.pnl × IsDayMargin c p f.margin
  by_margin x s none f e priced h = absurd cc
  by_margin x s (some m) f e priced h =
      let pnl : f.pnl ≡ s = ground arith in
      let margin : f.margin ≡ m = ground arith in
      (rw pnl priced, rw margin (matching_margin-IsDayMargin m e))

  by_pnl :
      (x : SettlementPrice) (found : Option PnlSnapshot) (f : Facts)
      → matching_pnl_snapshot c p ≡ found
      → IsDayPrice c p x
      → with_pnl c p x found ≡ pass f
      → IsDayPnl c p f.pnl × IsDayMargin c p f.margin
  by_pnl x none f e priced h = absurd cc
  by_pnl x (some s) f e priced h =
      let basis : is_settlement_basis s.price_basis ≡ true = ground arith in
      let mark : (s.mark_price == x.price) ≡ true = ground arith in
      by_margin x s _ f refl
        (matching_pnl-IsDayPnl s x e basis priced ((==_iff s.mark_price x.price).0 mark))
        (ground arith)

  by_price :
      (found : Option SettlementPrice) (f : Facts)
      → price_of p.instrument_id c.settlement_prices ≡ found
      → with_settlement_price c p found ≡ pass f
      → IsDayPnl c p f.pnl × IsDayMargin c p f.margin
  by_price none f e h = absurd cc
  by_price (some x) f e h =
      let listed = price_of-Mem p.instrument_id c.settlement_prices x e in
      let day : (x.trading_day == c.trading_day) ≡ true = ground arith in
      by_pnl x _ f refl
        (record {
          listed = listed.0;
          instrument = listed.1;
          day = (==_iff x.trading_day c.trading_day).0 day;
        })
        (ground arith)

  pub facts_of-found :
      (f : Facts) → facts_of c p ≡ pass f → IsDayPnl c p f.pnl × IsDayMargin c p f.margin
  unfolding facts_of
  facts_of-found f h = by_price _ f refl h
