-- ===== src/Position/Replay.antt =====
-- src/futures_mvp/modules/position/manager.py: `PositionManager.replay_trades`, which applies trades in
-- the order of their times and stops at the first divergence.
use yanzl.Prelude.{
  ℕ, suc, ◌≡◌, refl, ap, sym, ◌∙◌, Bool, true, false, ◌&&◌, ◌||◌, Option, none, some, List, [], ◌∷◌,
  String, inl, inr, arith,
}
use yanzl.Prelude.Tests.{Bool-cases, if◌then◌else◌, ltb, nat_eq}
use yanzl.Prelude.Equality.{◌==◌, String_eq, ℕ_eq}
use yanzl.Prelude.Lists.{length}
use yanzl.Prelude.Text.{text_leb}
use yanzl.Domain.Orders.{OrderId}
use yanzl.Domain.Positions.{
  Trade, PositionManagerResult, PositionManagerResultStatus, conflict, error,
}
use yanzl.Database.UnitOfWork.{Result, ok, err}
use yanzl.Decimal.{Context}
use yanzl.Oms.Events.{Format, order_text}
use yanzl.Position.Store.{PositionDb}
use yanzl.Position.Manager.{apply_trade}
use yanzl.Position.Ledger.{IsLedger, apply_trade-IsLedger}

-- `trade.id or trade.exchange_trade_id`
abbrev pub trade_text : Format → Trade → Option OrderId → String
trade_text fmt t none = t.exchange_trade_id
trade_text fmt t (some id) =
    if order_text fmt id == "" then t.exchange_trade_id else order_text fmt id

-- The sort key of the first trade is at most that of the second.
abbrev pub comes_before : Format → Trade → Trade → Bool
comes_before fmt a b =
    ltb a.trade_time b.trade_time
    || (nat_eq a.trade_time b.trade_time
        && text_leb (trade_text fmt a a.id) (trade_text fmt b b.id))

unfoldable pub insert_trade : Format → Trade → List Trade → List Trade
insert_trade fmt t [] = t ∷ []
insert_trade fmt t (x ∷ xs) =
    let rest = insert_trade fmt t xs in if comes_before fmt t x then t ∷ x ∷ xs else x ∷ rest

-- `sorted` with the key: equal keys stay in their order.
unfoldable pub sort_trades : Format → List Trade → List Trade
sort_trades fmt [] = []
sort_trades fmt (t ∷ ts) = insert_trade fmt t (sort_trades fmt ts)

abbrev pub diverges : PositionManagerResultStatus → Bool
diverges conflict = true
diverges error = true
diverges _ = false

-- `PositionReplayResult.has_divergence`
unfoldable pub has_divergence : List PositionManagerResult → Bool
has_divergence [] = false
has_divergence (r ∷ rs) = diverges r.status || has_divergence rs

abbrev pub Replayed : Type 0
Replayed = Result (List PositionManagerResult) × PositionDb

abbrev pub keep_result : PositionManagerResult → Replayed → Replayed
keep_result r (ok rs, d) = (ok (r ∷ rs), d)
keep_result r (err e, d) = (err e, d)

-- What follows one trade: an exception leaves the loop, and so does a result that diverges.
abbrev pub after_trade :
    Result PositionManagerResult × PositionDb → (PositionDb → Replayed) → Replayed
after_trade (err e, d) rest = (err e, d)
after_trade (ok r, d) rest = if diverges r.status then (ok (r ∷ []), d) else keep_result r (rest d)

-- The `n`-th trade finds the next free key and the clock that the two functions tell.
unfoldable pub replay_from : Context → (ℕ → ℕ) → (ℕ → ℕ) → ℕ → List Trade → PositionDb → Replayed
replay_from ctx ids clock n [] d = (ok [], d)
replay_from ctx ids clock n (t ∷ ts) d =
    after_trade (apply_trade ctx (ids n) (clock n) t d) (replay_from ctx ids clock (suc n) ts)

unfoldable pub replay_trades :
    Format → Context → (ℕ → ℕ) → (ℕ → ℕ) → List Trade → PositionDb → Replayed
replay_trades fmt ctx ids clock ts d = replay_from ctx ids clock 0 (sort_trades fmt ts) d

module _ (P : PositionDb → Type 0) (rest : PositionDb → Replayed) where
  keep_result-db : (r : PositionManagerResult) (x : Replayed) → P x.1 → P (keep_result r x).1
  keep_result-db r (ok rs, d) p = p
  keep_result-db r (err e, d) p = p

  after_trade-db :
      (x : Result PositionManagerResult × PositionDb)
      → P x.1
      → ((d : PositionDb) → P d → P (rest d).1)
      → P (after_trade x rest).1
  after_trade-db (err e, d) p go = p
  after_trade-db (ok r, d) p go = elim (Bool-cases (diverges r.status)) [
    | inl stops ↦ rw stops p
    | inr goes_on ↦ rw goes_on (keep_result-db r (rest d) (go d p))
  ]

-- The results that a loop's end tells of.
abbrev pub IsComplete : ℕ → Replayed → Type 0
IsComplete n x =
    (rs : List PositionManagerResult) → x.0 ≡ ok rs → has_divergence rs ≡ false → length rs ≡ n

keep_result-IsComplete :
    (n : ℕ) (r : PositionManagerResult) (x : Replayed)
    → IsComplete n x
    → IsComplete (suc n) (keep_result r x)
unfolding has_divergence
keep_result-IsComplete n r (ok xs, d) h rs e quiet =
    let same : r ∷ xs ≡ rs = cc e in rw (sym same) (ap suc (h xs refl (ground arith)))
keep_result-IsComplete n r (err x, d) h rs e quiet = absurd (cc e)

after_trade-IsComplete :
    (n : ℕ) (x : Result PositionManagerResult × PositionDb) (rest : PositionDb → Replayed)
    → ((d : PositionDb) → IsComplete n (rest d))
    → IsComplete (suc n) (after_trade x rest)
unfolding has_divergence
after_trade-IsComplete n (err x, d) rest h rs e quiet = absurd (cc e)
after_trade-IsComplete n (ok r, d) rest h rs e quiet = elim (Bool-cases (diverges r.status)) [
  | inl stops ↦
      let same : r ∷ [] ≡ rs = cc (rw stops at e) in
      let silent : has_divergence (r ∷ []) ≡ false = ap has_divergence same ∙ quiet in
      absurd (ground arith)
  | inr goes_on ↦ keep_result-IsComplete n r (rest d) (h d) rs (rw goes_on at e) quiet
]

module _ (ctx : Context) (ids clock : ℕ → ℕ) where
  replay_from-IsLedger :
      (n : ℕ) (ts : List Trade) (d : PositionDb)
      → IsLedger d
      → IsLedger (replay_from ctx ids clock n ts d).1
  unfolding replay_from
  replay_from-IsLedger n [] d l = l
  replay_from-IsLedger n (t ∷ ts) d l =
      after_trade-db (λ d'. IsLedger d') (replay_from ctx ids clock (suc n) ts)
        (apply_trade ctx (ids n) (clock n) t d) (apply_trade-IsLedger ctx (ids n) (clock n) t d l)
        (λ d'. λ l'. replay_from-IsLedger (suc n) ts d' l')

  replay_from-IsComplete :
      (n : ℕ) (ts : List Trade) (d : PositionDb)
      → IsComplete (length ts) (replay_from ctx ids clock n ts d)
  unfolding replay_from
  replay_from-IsComplete n [] d rs e quiet = let same : [] ≡ rs = cc e in rw (sym same) refl
  replay_from-IsComplete n (t ∷ ts) d rs e quiet =
      after_trade-IsComplete (length ts) (apply_trade ctx (ids n) (clock n) t d)
        (replay_from ctx ids clock (suc n) ts) (λ d'. replay_from-IsComplete (suc n) ts d') rs e
        quiet

length-insert_trade :
    (fmt : Format) (t : Trade) (ts : List Trade) → length (insert_trade fmt t ts) ≡ suc (length ts)
unfolding insert_trade
length-insert_trade fmt t [] = refl
length-insert_trade fmt t (x ∷ xs) = ground (arith, length-insert_trade fmt t xs)

length-sort_trades : (fmt : Format) (ts : List Trade) → length (sort_trades fmt ts) ≡ length ts
unfolding sort_trades
length-sort_trades fmt [] = refl
length-sort_trades fmt (t ∷ ts) =
    length-insert_trade fmt t (sort_trades fmt ts) ∙ ap suc (length-sort_trades fmt ts)

-- A replay on a ledger leaves a ledger, whether it runs through, stops at a divergence or raises.
pub replay_trades-IsLedger :
    (fmt : Format) (ctx : Context) (ids clock : ℕ → ℕ) (ts : List Trade) (d : PositionDb)
    → IsLedger d
    → IsLedger (replay_trades fmt ctx ids clock ts d).1
unfolding replay_trades
replay_trades-IsLedger fmt ctx ids clock ts d l =
    replay_from-IsLedger ctx ids clock 0 (sort_trades fmt ts) d l

-- A replay that returns without a divergence has a result for every trade.
pub replay_trades_complete :
    (fmt : Format) (ctx : Context) (ids clock : ℕ → ℕ) (ts : List Trade) (d : PositionDb)
    (rs : List PositionManagerResult)
    → (replay_trades fmt ctx ids clock ts d).0 ≡ ok rs
    → has_divergence rs ≡ false
    → length rs ≡ length ts
unfolding replay_trades
replay_trades_complete fmt ctx ids clock ts d rs e quiet =
    replay_from-IsComplete ctx ids clock 0 (sort_trades fmt ts) d rs e quiet
    ∙ length-sort_trades fmt ts
