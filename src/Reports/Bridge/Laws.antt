-- ===== src/Reports/Bridge/Laws.antt =====
-- What a trade of the bridge stands for, and that it is made once.
use yanzl.Prelude.{
  ℕ, ◌≡◌, refl, sym, ap, ◌∙◌, Bool, true, false, not, ◌&&◌, ◌||◌, Option, none, some, ◌⊎◌, inl, inr,
  List, [], ◌∷◌, ◌++◌, String, arith,
}
use yanzl.Prelude.Tests.{Bool-cases, Option-cases, is_some, if◌then◌else◌}
use yanzl.Prelude.Equality.{Comparable, ◌==◌, ==_refl, ==_iff, String_eq, ℕ_eq, Option_eq}
use yanzl.Prelude.Lists.{contains}
use yanzl.Prelude.Int.{pos, ◌<ℤ◌, ℤ_eq}
use yanzl.Domain.Enums.{
  Direction_eq, Offset_eq, OrderStatus_eq, EventSource_eq, execution_report_normalizer,
}
use yanzl.Domain.Orders.{Decimal, OrderId, numeral, malformed, OrderId_eq}
use yanzl.Database.UnitOfWork.{Result, ok, err}
use yanzl.Reports.Models.{
  ExecutionReportStatus_eq, is_fill, NormalizedExecutionReport, ReportEvent, LineageTrade,
  TradeIdentitySource, from_exchange, derived_from_report,
}
use yanzl.Reports.Trades.{
  event_id_of, TradeDb, find_trade, same_source, same_canonical_trade, trade_of, check_trade,
  with_id, append_trade, add_trade, is_taken, new_trade, create_or_get,
}
use yanzl.Reports.Proof.{
  IdentityHash, Identity, identified, unidentified, BridgeContext, BridgeResult, BridgeStatus,
  trade_created, trade_duplicate, build_trade_identity, reject_reason, applied_event_reject_reason,
  lineage_reject_reason, expected_status, has_no_price, Refusal, proves, proves_price,
  typed_fields_reason,
}
use yanzl.Reports.Bridge.{
  store_trade, bridged, checked_trade, with_identity, with_price, unless_refused, identity_payload,
  bridge_result, create_trade,
}

-- The event is the OMS's record of this very fill: its source, its status and its every typed field.
pub record Proves (e : ReportEvent) (r : NormalizedExecutionReport) : Type 0 where
  pub source : e.base.event_source ≡ execution_report_normalizer
  pub status : e.base.new_status ≡ expected_status r.execution_status
  pub report_status : e.execution_status ≡ some r.execution_status
  pub report_id : e.report_id ≡ some r.report_id
  pub report_ts : e.report_ts ≡ some r.report_ts
  pub filled_qty : e.filled_qty ≡ some r.filled_qty
  pub fill_price : (e.fill_price ≡ r.fill_price)
  pub cumulative : e.cumulative_filled_qty ≡ some r.cumulative_filled_qty

proves-holds {ℓ} :
    {A : Type ℓ} ⦃c : Comparable A⦄ (proof : Option A) (value : A) (missing mismatch : String)
    (rest : Refusal)
    → proves (λ (a b : A). a == b) proof value missing mismatch rest ≡ none
    → (proof ≡ some value) × (rest ≡ none)
proves-holds none value missing mismatch rest h = absurd (cc h)
proves-holds (some p) value missing mismatch rest h = elim (Bool-cases (p == value)) [
  | inl same ↦ (ap some ((==_iff p value).0 same), rw same at h)
  | inr other ↦ absurd (cc (rw other at h))
]

-- A proof that gives the report's own value passes.
pub same_passes {ℓ} :
    {A : Type ℓ} ⦃c : Comparable A⦄ (value : A) (rest : Refusal) (refusal : BridgeStatus × String)
    → rest ≡ none
    → (if value == value then rest else some refusal) ≡ none
same_passes value rest refusal h =
    ap (λ same. if same then rest else some refusal) (==_refl value) ∙ h

pub price_passes :
    (price : Decimal) (o : Option Decimal) (rest : Refusal)
    → o ≡ some price
    → rest ≡ none
    → proves_price o o rest ≡ none
price_passes price none rest priced h = absurd (cc priced)
price_passes price (some p) rest priced h = same_passes (some p) rest _ h

proves_price-holds :
    (proof price : Option Decimal) (rest : Refusal)
    → proves_price proof price rest ≡ none
    → (proof ≡ price) × (rest ≡ none)
proves_price-holds none price rest h = absurd (cc h)
proves_price-holds (some p) price rest h = elim (Bool-cases (some p == price)) [
  | inl same ↦ ((==_iff (some p) price).0 same, rw same at h)
  | inr other ↦ absurd (cc (rw other at h))
]

typed-Proves :
    (e : ReportEvent) (r : NormalizedExecutionReport)
    → e.base.event_source ≡ execution_report_normalizer
    → e.base.new_status ≡ expected_status r.execution_status
    → typed_fields_reason e r ≡ none
    → Proves e r
unfolding typed_fields_reason
typed-Proves e r source status h =
    let (a, h1) = proves-holds e.execution_status r.execution_status _ _ _ h in
    let (b, h2) = proves-holds e.report_id r.report_id _ _ _ h1 in
    let (c, h3) = proves-holds e.report_ts r.report_ts _ _ _ h2 in
    let (f, h4) = proves-holds e.filled_qty r.filled_qty _ _ _ h3 in
    let (g, h5) = proves_price-holds e.fill_price r.fill_price _ h4 in
    let (k, _) = proves-holds e.cumulative_filled_qty r.cumulative_filled_qty _ _ _ h5 in
    record {
      source = source;
      status = status;
      report_status = a;
      report_id = b;
      report_ts = c;
      filled_qty = f;
      fill_price = g;
      cumulative = k;
    }

applied_event-Proves :
    (e : ReportEvent) (r : NormalizedExecutionReport)
    → applied_event_reject_reason e r ≡ none
    → Proves e r
unfolding applied_event_reject_reason
applied_event-Proves e r h =
    typed-Proves e r (ground (arith, ==_iff e.base.event_source execution_report_normalizer))
      (ground (arith, ==_iff e.base.new_status (expected_status r.execution_status))) (ground arith)

same_source_refl : (s : TradeIdentitySource) → same_source s s ≡ true
same_source_refl from_exchange = refl
same_source_refl derived_from_report = refl

same_canonical_refl : (n : ℕ) (t : LineageTrade) → same_canonical_trade (with_id n t) t ≡ true
unfolding same_canonical_trade
same_canonical_refl n t = simp (==_refl, same_source_refl)

find_trade-append_self :
    (d : List LineageTrade) (t : LineageTrade)
    → find_trade t.trade.account_id t.trade.exchange t.trade.exchange_trade_id d ≡ none
    → find_trade t.trade.account_id t.trade.exchange t.trade.exchange_trade_id (d ++ t ∷ [])
      ≡ some t
unfolding find_trade
find_trade-append_self [] t h = simp ==_refl
find_trade-append_self (x ∷ xs) t h = ground (arith, find_trade-append_self xs t)

-- A fill that the OMS applied, of this order, of a positive quantity at a positive price.
pub record IsAppliedFill (x : BridgeContext) (e : ReportEvent) (price : Decimal) : Type 0 where
  pub proof : x.applied_order_event ≡ some e
  pub fill : is_fill x.report.execution_status ≡ true
  pub proves : Proves e x.report
  pub order : x.report.order_id ≡ x.order_state.order_id
  pub client : x.report.client_order_id ≡ x.order_state.request.client_order_id
  pub event_order : x.report.order_id ≡ e.base.order_id
  pub quantity : pos 0 <ℤ x.report.filled_qty
  pub priced : x.report.fill_price ≡ some price
  pub positive : pos 0 <ℤ price

pub some_price :
    (o : Option Decimal) → has_no_price o ≡ false → (p : Decimal) × (o ≡ some p) × (pos 0 <ℤ p)
some_price none h = absurd (cc h)
some_price (some p) h = (p, refl, ground arith)

accepted_fill :
    (x : BridgeContext)
    → reject_reason x ≡ none
    → (e : ReportEvent) × (price : Decimal) × IsAppliedFill x e price
unfolding reject_reason lineage_reject_reason
accepted_fill x h = elim (Option-cases x.applied_order_event) [
  | inl absent ↦ absurd (ground arith)
  | inr (e, proof) ↦
      let (price, priced, positive) = some_price x.report.fill_price (ground arith) in
      (
        e,
        price,
        record {
          proof = proof;
          fill = ground arith;
          proves = applied_event-Proves e x.report (ground arith);
          order = ground (arith, ==_iff x.report.order_id x.order_state.order_id);
          client =
              ground (arith, ==_iff x.report.client_order_id x.order_state.request.client_order_id);
          event_order = ground (arith, ==_iff x.report.order_id e.base.order_id);
          quantity = ground arith;
          priced = priced;
          positive = positive;
        },
      )
]

stored_again :
    (x : BridgeContext) (n m : ℕ) (t : LineageTrade) (d : TradeDb)
    → find_trade t.trade.account_id t.trade.exchange t.trade.exchange_trade_id d.trades
      ≡ some (with_id n t)
    → store_trade x m t d ≡ (ok (bridge_result x trade_duplicate (some (with_id n t)) none), d)
unfolding store_trade append_trade
stored_again x n m t d found = rw (found, same_canonical_refl n t) refl

-- What a trade says of the fill and its order.
pub record IsTradeOf (x : BridgeContext) (t : LineageTrade) : Type 0 where
  pub quantity : t.trade.quantity ≡ x.report.filled_qty
  pub price : some t.trade.price ≡ x.report.fill_price
  pub time : t.trade.trade_time ≡ x.report.report_ts
  pub account : t.trade.account_id ≡ x.order_state.request.account_id
  pub exchange : t.trade.exchange ≡ x.order_state.request.exchange
  pub instrument : t.trade.instrument_id ≡ x.order_state.request.instrument_id
  pub direction : t.trade.direction ≡ x.order_state.request.direction
  pub offset : t.trade.offset ≡ x.order_state.request.offset
  pub order : t.order_id ≡ x.report.order_id
  pub report : t.source_report_id ≡ some x.report.report_id
  pub event : t.source_order_event_id ≡ event_id_of x.applied_order_event

pub trade_of-IsTradeOf :
    (x : BridgeContext) (n : ℕ) (key : String) (source : TradeIdentitySource) (price : Decimal)
    → x.report.fill_price ≡ some price
    → IsTradeOf x (with_id n (trade_of x key source price))
trade_of-IsTradeOf x n key source price priced = record {
  quantity = refl;
  price = sym priced;
  time = refl;
  account = refl;
  exchange = refl;
  instrument = refl;
  direction = refl;
  offset = refl;
  order = refl;
  report = refl;
  event = refl;
}

-- What a call appends.
pub record IsCreated (h : IdentityHash) (x : BridgeContext) (n : ℕ) (d : TradeDb)
    (res : Result BridgeResult) (d' : TradeDb) : Type 0 where
  pub key : String
  pub source : TradeIdentitySource
  pub event : ReportEvent
  pub price : Decimal
  pub unrefused : reject_reason x ≡ none
  pub accepted : IsAppliedFill x event price
  pub of_fill : IsTradeOf x (with_id n (trade_of x key source price))
  pub valid : check_trade (trade_of x key source price) ≡ none
  pub identity :
      build_trade_identity h x.report.exchange_trade_id (identity_payload x price)
      ≡ identified key source
  pub new :
      find_trade x.order_state.request.account_id x.order_state.request.exchange key d.trades ≡ none
  pub key_free : is_taken n d.trades ≡ false
  pub order_id : ℕ
  pub order_named : x.report.order_id ≡ numeral order_id
  pub order_stored : contains d.orders order_id ≡ true
  pub appended : d' ≡ add_trade (with_id n (trade_of x key source price)) d
  pub answer :
      res ≡ ok (bridge_result x trade_created (some (with_id n (trade_of x key source price))) none)

-- Whether a call says that it created a trade, and has one.
abbrev pub is_creating : Result BridgeResult → Bool
is_creating (ok r) = is_some r.created && elim r.status [ trade_created ↦ true | _ ↦ false ]
is_creating (err e) = false

-- What is known of the table where a trade is stored.
pub record IsStorable (n : ℕ) (t : LineageTrade) (d : TradeDb) : Type 0 where
  pub new : find_trade t.trade.account_id t.trade.exchange t.trade.exchange_trade_id d.trades ≡ none
  pub key_free : is_taken n d.trades ≡ false
  pub order_id : ℕ
  pub order_named : t.order_id ≡ numeral order_id
  pub order_stored : contains d.orders order_id ≡ true

-- The table is kept, or the trade is stored where it can be.
abbrev IsStored :
    BridgeContext → ℕ → LineageTrade → TradeDb → Result BridgeResult × TradeDb → Type 0
IsStored x n t d p =
    ((p.1 ≡ d) × (is_creating p.0 ≡ false))
    ⊎ (IsStorable n t d
        × (p.1 ≡ add_trade (with_id n t) d)
        × (p.0 ≡ ok (bridge_result x trade_created (some (with_id n t)) none)))

store_named :
    (x : BridgeContext) (n : ℕ) (t : LineageTrade) (d : TradeDb) (owner : OrderId)
    → t.order_id ≡ owner
    → find_trade t.trade.account_id t.trade.exchange t.trade.exchange_trade_id d.trades ≡ none
    → IsStored x n t d (bridged x none (new_trade n t owner d))
store_named x n t d (malformed key) named new = inl (refl, refl)
store_named x n t d (numeral k) named new =
    elim (Bool-cases (is_taken n d.trades || not (contains d.orders k))) [
      | inl broken ↦ rw broken (inl (refl, refl))
      | inr fits ↦ rw fits (
          inr (
            record {
              new = new;
              key_free = ground arith;
              order_id = k;
              order_named = named;
              order_stored = ground arith;
            },
            refl,
            refl,
          ))
    ]

store_found :
    (x : BridgeContext) (n : ℕ) (t old : LineageTrade) (d : TradeDb)
    → IsStored x n t d (bridged x (some old) (create_or_get n t (some old) d))
store_found x n t old d = elim (Bool-cases (same_canonical_trade old t)) [
  | inl same ↦ rw same (inl (refl, refl))
  | inr other ↦ rw other (inl (refl, refl))
]

store_by :
    (x : BridgeContext) (n : ℕ) (t : LineageTrade) (d : TradeDb) (o : Option LineageTrade)
    → find_trade t.trade.account_id t.trade.exchange t.trade.exchange_trade_id d.trades ≡ o
    → IsStored x n t d (bridged x o (create_or_get n t o d))
store_by x n t d none new = store_named x n t d t.order_id refl new
store_by x n t d (some old) found = store_found x n t old d

store_trade-outcome :
    (x : BridgeContext) (n : ℕ) (t : LineageTrade) (d : TradeDb)
    → IsStored x n t d (store_trade x n t d)
unfolding store_trade append_trade
store_trade-outcome x n t d = store_by x n t d _ refl

Identity-cases :
    (i : Identity)
    → ((reason : String) × (i ≡ unidentified reason))
      ⊎ ((key : String) × (source : TradeIdentitySource) × (i ≡ identified key source))
Identity-cases (unidentified reason) = inl (reason, refl)
Identity-cases (identified key source) = inr (key, source, refl)

module _ (h : IdentityHash) (x : BridgeContext) where
  abbrev pub identity_at : Decimal → Identity
  identity_at price = build_trade_identity h x.report.exchange_trade_id (identity_payload x price)

  pub create_trade-priced :
      (n : ℕ) (d : TradeDb) (price : Decimal)
      → reject_reason x ≡ none
      → x.report.fill_price ≡ some price
      → create_trade h x n d ≡ with_identity x n price (identity_at price) d
  unfolding create_trade
  create_trade-priced n d price accepted priced =
      ap (λ r. unless_refused x r d (with_price h x n x.report.fill_price d)) accepted
      ∙ ap (λ o. with_price h x n o d) priced

module _ (h : IdentityHash) (x : BridgeContext) (n : ℕ) (d : TradeDb) where
  abbrev pub IsKept : Result BridgeResult × TradeDb → Type 0
  IsKept p = (p.1 ≡ d) × (is_creating p.0 ≡ false)

  abbrev IsSettled : Result BridgeResult × TradeDb → Type 0
  IsSettled p = IsKept p ⊎ IsCreated h x n d p.0 p.1

  with_identity-IsSettled :
      (e : ReportEvent) (price : Decimal)
      → reject_reason x ≡ none
      → IsAppliedFill x e price
      → IsSettled (with_identity x n price (identity_at h x price) d)
  with_identity-IsSettled e price unrefused fill = elim (Identity-cases (identity_at h x price)) [
    | inl missing ↦ rw missing.1 (inl (refl, refl))
    | inr (key, source, identity) ↦
        let t = trade_of x key source price in
        rw identity (elim (Option-cases (check_trade t)) [
          | inr invalid ↦ rw invalid.1 (inl (refl, refl))
          | inl valid ↦ rw valid (elim (store_trade-outcome x n t d) [
            | inl kept ↦ inl kept
            | inr (s, appended, answer) ↦ inr (record {
              key = key;
              source = source;
              event = e;
              price = price;
              unrefused = unrefused;
              accepted = fill;
              of_fill = trade_of-IsTradeOf x n key source price fill.priced;
              valid = valid;
              identity = identity;
              new = s.new;
              key_free = s.key_free;
              order_id = s.order_id;
              order_named = s.order_named;
              order_stored = s.order_stored;
              appended = appended;
              answer = answer;
            })
          ])
        ])
  ]

  refused-IsSettled :
      (r : BridgeStatus × String) → reject_reason x ≡ some r → IsSettled (create_trade h x n d)
  unfolding create_trade
  refused-IsSettled r e = rw e (inl (refl, refl))

  -- A call of the bridge leaves the table of trades as it was, without saying that it created anything, or it
  -- appends one trade, under an identity and a key that are new, of a fill that the OMS applied to this order,
  -- which is stored.
  pub create_trade-outcome : let p = create_trade h x n d in IsKept p ⊎ IsCreated h x n d p.0 p.1
  create_trade-outcome = elim (Option-cases (reject_reason x)) [
    | inr refused ↦ refused-IsSettled refused.0 refused.1
    | inl accepted ↦
        let (e, price, fill) = accepted_fill x accepted in
        rw (create_trade-priced h x n d price accepted fill.priced)
          (with_identity-IsSettled e price accepted fill)
  ]

  again :
      (m : ℕ) (c : IsCreated h x n d (create_trade h x n d).0 (create_trade h x n d).1)
      → let t = with_id n (trade_of x c.key c.source c.price) in
        create_trade h x m (add_trade t d)
        ≡ (ok (bridge_result x trade_duplicate (some t) none), add_trade t d)
  again m c =
      let t = trade_of x c.key c.source c.price in
      create_trade-priced h x m (add_trade (with_id n t) d) c.price c.unrefused c.accepted.priced
      ∙ ap (λ i. with_identity x m c.price i (add_trade (with_id n t) d)) c.identity
      ∙ ap (λ v. checked_trade x m t v (add_trade (with_id n t) d)) c.valid
      ∙ stored_again x n m t (add_trade (with_id n t) d)
          (find_trade-append_self d.trades (with_id n t) c.new)

  -- A trade that was created, asked for again with the same report, order and proof, is a duplicate: the answer is the
  -- trade on record, and the table stays as it is.
  pub create_trade-again :
      (m : ℕ)
      → is_creating (create_trade h x n d).0 ≡ true
      → let d' = (create_trade h x n d).1 in
        (t : LineageTrade) × ((create_trade h x n d).0
          ≡ ok (bridge_result x trade_created (some t) none))
        × (create_trade h x m d' ≡ (ok (bridge_result x trade_duplicate (some t) none), d'))
  create_trade-again m said = elim create_trade-outcome [
    | inl kept ↦ absurd (cc (said, kept.1))
    | inr c ↦ (with_id n (trade_of x c.key c.source c.price), c.answer, rw c.appended (again m c))
  ]
