-- ===== src/Risk/Engine/Laws.antt =====
-- What the risk engine's verdicts mean.
use yanzl.Prelude.{
  ◌≡◌, refl, ap, ◌∙◌, ◌↔◌, ◌≢◌, true, false, not, ◌&&◌, Option, none, some, inl, inr, String, arith,
}
use yanzl.Prelude.Tests.{Bool-cases, Option-cases, is_some}
use yanzl.Prelude.Int.{pos, ◌*ℤ◌, ◌≤ℤ◌, ltb_ℤ, *ℤ_mono_left, *ℤ_comm}
use yanzl.Prelude.Lists.{contains}
use yanzl.Prelude.Equality.{String_eq}
use yanzl.Domain.Enums.{Offset_eq}
use yanzl.Domain.Orders.{Decimal}
use yanzl.Risk.Engine.{
  Signal, RiskConfig, RiskOutcome, misconfigured, get, accept, is_half, is_above, is_below,
  is_above_known, validate_cross_field_config, check_account, check_notional, check_rules,
  check_order,
}

-- A value is within a bound, if there is one.
abbrev pub AtMost : Decimal → Option Decimal → Type 0
AtMost value none = Unit {0}
AtMost value (some bound) = value ≤ℤ bound

abbrev pub AtLeast : Decimal → Option Decimal → Type 0
AtLeast value none = Unit {0}
AtLeast value (some bound) = bound ≤ℤ value

-- Two settings that are given together, the first no more than the second.
abbrev pub Covered : Option Decimal → Option Decimal → Type 0
Covered none none = Unit {0}
Covered (some value) (some bound) = value ≤ℤ bound
Covered _ _ = ⊥

-- The notional is within its bound; a bound needs the instrument's multiplier.
abbrev pub NotionalWithin : Option Decimal → Option Decimal → Signal → Type 0
NotionalWithin none multiplier s = Unit {0}
NotionalWithin (some bound) none s = ⊥
NotionalWithin (some bound) (some m) s = s.limit_price *ℤ s.quantity *ℤ m ≤ℤ bound

-- The limits that a signal must keep, as propositions and without an order among them.
pub record Keeps (c : RiskConfig) (s : Signal) : Type 0 where
  pub enabled : contains c.disabled_instruments s.instrument_id ≡ false
  pub session : c.is_trading_session_allowed ≡ true
  pub offset_allowed : contains c.allowed_offsets s.offset ≡ true
  pub order_quantity : AtMost s.quantity c.max_order_quantity
  pub limit_up : AtMost s.limit_price (get c.limit_up_by_instrument s.instrument_id)
  pub limit_down : AtLeast s.limit_price (get c.limit_down_by_instrument s.instrument_id)
  pub notional :
      NotionalWithin c.max_notional (get c.contract_multiplier_by_instrument s.instrument_id) s
  pub margin : Covered c.required_margin c.available_margin
  pub position : Covered c.projected_position c.max_position

AtMost-iff : (v : Decimal) (o : Option Decimal) → (is_above v o ≡ false) ↔ AtMost v o
AtMost-iff v none = (λ h. tt, λ h. refl)
AtMost-iff v (some b) = ground arith

AtLeast-iff : (v : Decimal) (o : Option Decimal) → (is_below v o ≡ false) ↔ AtLeast v o
AtLeast-iff v none = (λ h. tt, λ h. refl)
AtLeast-iff v (some b) = ground arith

Covered-iff :
    (v o : Option Decimal) → ((is_half o v ≡ false) × (is_above_known v o ≡ false)) ↔ Covered v o
Covered-iff none none = (λ h. tt, λ h. (refl, refl))
Covered-iff (some v) none = (λ h. absurd (cc h.0), λ h. absurd h)
Covered-iff none (some b) = (λ h. absurd (cc h.0), λ h. absurd h)
Covered-iff (some v) (some b) = ground arith

half_sym : (v o : Option Decimal) → is_half v o ≡ is_half o v
half_sym v o = ground arith

-- What the notional rule and the field check ask for together.
notional_iff :
    (o m : Option Decimal) (s : Signal) (rest : RiskOutcome)
    → (((is_some o && not (is_some m)) ≡ false) × (check_notional o m s rest ≡ accept))
      ↔ (NotionalWithin o m s × (rest ≡ accept))
unfolding check_notional
notional_iff none m s rest = (λ h. (tt, h.1), λ h. (refl, h.1))
notional_iff (some b) none s rest = (λ h. absurd (cc h.0), λ h. absurd h.0)
notional_iff (some b) (some m) s rest = ground arith

module _ (c : RiskConfig) (s : Signal) where
  abbrev pub multiplier : Option Decimal
  multiplier = get c.contract_multiplier_by_instrument s.instrument_id

  -- The tests that the engine runs, one by one.
  record Passes : Type 0 where
    given : (is_some c.max_notional && not (is_some multiplier)) ≡ false
    margins : is_half c.available_margin c.required_margin ≡ false
    positions : is_half c.projected_position c.max_position ≡ false
    disabled : contains c.disabled_instruments s.instrument_id ≡ false
    session_open : c.is_trading_session_allowed ≡ true
    offset_in : contains c.allowed_offsets s.offset ≡ true
    small : is_above s.quantity c.max_order_quantity ≡ false
    under : is_above s.limit_price (get c.limit_up_by_instrument s.instrument_id) ≡ false
    over : is_below s.limit_price (get c.limit_down_by_instrument s.instrument_id) ≡ false
    rest : check_notional c.max_notional multiplier s (check_account c) ≡ accept

  check_order-Passes : check_order c s ≡ accept → Passes
  unfolding check_order check_rules validate_cross_field_config
  check_order-Passes h = record {
    given = ground arith;
    margins = ground arith;
    positions = ground arith;
    disabled = ground arith;
    session_open = ground arith;
    offset_in = ground arith;
    small = ground arith;
    under = ground arith;
    over = ground arith;
    rest = ground arith;
  }

  Passes-check_order : Passes → check_order c s ≡ accept
  unfolding check_order check_rules validate_cross_field_config check_account
  Passes-check_order p =
      rw
        (
          p.given, p.margins, p.positions, p.disabled, p.session_open, p.offset_in, p.small,
          p.under, p.over,
        )
        p.rest

  account_iff :
      ((check_account c ≡ accept)
        × (is_half c.available_margin c.required_margin ≡ false)
        × (is_half c.projected_position c.max_position ≡ false))
      ↔ (Covered c.required_margin c.available_margin × Covered c.projected_position c.max_position)
  unfolding check_account
  account_iff = (
    λ h. (
      (Covered-iff c.required_margin c.available_margin).0 (h.1, let a = h.0 in ground arith),
      (Covered-iff c.projected_position c.max_position).0
          (rw (half_sym c.max_position c.projected_position) h.2, let a = h.0 in ground arith),
    ),
    λ h.
        let (m, ma) = (Covered-iff c.required_margin c.available_margin).1 h.0 in
        let (p, pa) = (Covered-iff c.projected_position c.max_position).1 h.1 in
        (rw ma (rw pa refl), m, rw (half_sym c.projected_position c.max_position) p),
  )

  -- The engine accepts a signal exactly when it keeps every limit of the configuration and the settings that
  -- belong together are given together.
  pub check_order-accepts : (check_order c s ≡ accept) ↔ Keeps c s
  check_order-accepts = (
    λ h.
        let p = check_order-Passes h in
        let (n, a) =
          (notional_iff c.max_notional multiplier s (check_account c)).0 (p.given, p.rest) in
        let (m, q) = account_iff.0 (a, p.margins, p.positions) in
        record {
          enabled = p.disabled;
          session = p.session_open;
          offset_allowed = p.offset_in;
          order_quantity = (AtMost-iff s.quantity c.max_order_quantity).0 p.small;
          limit_up =
              (AtMost-iff s.limit_price (get c.limit_up_by_instrument s.instrument_id)).0 p.under;
          limit_down =
              (AtLeast-iff s.limit_price (get c.limit_down_by_instrument s.instrument_id)).0 p.over;
          notional = n;
          margin = m;
          position = q;
        },
    λ k.
        let (a, m, q) = account_iff.1 (k.margin, k.position) in
        let (g, r) =
          (notional_iff c.max_notional multiplier s (check_account c)).1 (k.notional, a) in
        Passes-check_order (record {
          given = g;
          margins = m;
          positions = q;
          disabled = k.enabled;
          session_open = k.session;
          offset_in = k.offset_allowed;
          small = (AtMost-iff s.quantity c.max_order_quantity).1 k.order_quantity;
          under =
              (AtMost-iff s.limit_price (get c.limit_up_by_instrument s.instrument_id)).1
                k.limit_up;
          over =
              (AtLeast-iff s.limit_price (get c.limit_down_by_instrument s.instrument_id)).1
                k.limit_down;
          rest = r;
        }),
  )

check_account-verdict : (c : RiskConfig) (m : String) → check_account c ≢ misconfigured m
unfolding check_account
check_account-verdict c m h = ground arith

check_notional-known :
    (o m : Option Decimal) (s : Signal) (rest : RiskOutcome) (x : String)
    → (is_some o && not (is_some m)) ≡ false
    → rest ≢ misconfigured x
    → check_notional o m s rest ≢ misconfigured x
unfolding check_notional
check_notional-known none m s rest x h other e = other e
check_notional-known (some b) none s rest x h other e = absurd (cc h)
check_notional-known (some b) (some m) s rest x h other e =
    elim (Bool-cases (ltb_ℤ b (s.limit_price *ℤ s.quantity *ℤ m))) [
      | inl exceeds ↦ absurd (cc (rw exceeds at e))
      | inr within ↦ other (rw within at e)
    ]

check_rules-verdict :
    (c : RiskConfig) (s : Signal) (m : String)
    → validate_cross_field_config c s ≡ none
    → check_rules c s ≢ misconfigured m
unfolding check_rules validate_cross_field_config
check_rules-verdict c s m valid e =
    check_notional-known c.max_notional (multiplier c s) s (check_account c) m (ground arith)
      (check_account-verdict c m) (ground arith)

-- The engine raises exactly the error of the check across the fields: with that check passed, every rule
-- ends in a verdict.
pub check_order-raises :
    (c : RiskConfig) (s : Signal) (m : String)
    → (check_order c s ≡ misconfigured m) ↔ (validate_cross_field_config c s ≡ some m)
unfolding check_order
check_order-raises c s m = elim (Option-cases (validate_cross_field_config c s)) [
  | inl valid ↦
      (λ h. absurd (check_rules-verdict c s m valid (rw valid at h)), λ h. absurd (cc (valid, h)))
  | inr bad ↦ (
    λ h. bad.1 ∙ ap some (let x : misconfigured bad.0 ≡ misconfigured m = rw bad.1 at h in cc x),
    λ h. rw h refl,
  )
]

smaller_bound : (v w : Decimal) (o : Option Decimal) → w ≤ℤ v → AtMost v o → AtMost w o
smaller_bound v w none less h = tt
smaller_bound v w (some b) less h = omega arith

smaller_notional :
    (o m : Option Decimal) (s : Signal) (q : Decimal)
    → q ≤ℤ s.quantity
    → pos 0 ≤ℤ s.limit_price
    → ((x : Decimal) → m ≡ some x → pos 0 ≤ℤ x)
    → NotionalWithin o m s
    → NotionalWithin o m (record s { quantity = q })
smaller_notional none m s q less price factors h = tt
smaller_notional (some b) none s q less price factors h = h
smaller_notional (some b) (some m) s q less price factors h =
    let cheaper : s.limit_price *ℤ q ≤ℤ s.limit_price *ℤ s.quantity = rw (*ℤ_comm s.limit_price q) (
      rw (*ℤ_comm s.limit_price s.quantity) (*ℤ_mono_left q s.quantity s.limit_price less price)) in
    omega (
      arith,
      h,
      *ℤ_mono_left (s.limit_price *ℤ q) (s.limit_price *ℤ s.quantity) m cheaper (factors m refl),
    )

-- A signal that the engine accepts is accepted with a smaller quantity too, where the price and the
-- instrument's multiplier are not negative.
pub check_order-smaller :
    (c : RiskConfig) (s : Signal) (q : Decimal)
    → q ≤ℤ s.quantity
    → pos 0 ≤ℤ s.limit_price
    → ((x : Decimal) → multiplier c s ≡ some x → pos 0 ≤ℤ x)
    → check_order c s ≡ accept
    → check_order c (record s { quantity = q }) ≡ accept
check_order-smaller c s q less price factors h =
    let k = (check_order-accepts c s).0 h in
    (check_order-accepts c (record s { quantity = q })).1 (record {
      enabled = k.enabled;
      session = k.session;
      offset_allowed = k.offset_allowed;
      order_quantity = smaller_bound s.quantity q c.max_order_quantity less k.order_quantity;
      limit_up = k.limit_up;
      limit_down = k.limit_down;
      notional = smaller_notional c.max_notional (multiplier c s) s q less price factors k.notional;
      margin = k.margin;
      position = k.position;
    })
