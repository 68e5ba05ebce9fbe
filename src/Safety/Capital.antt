-- ===== src/Safety/Capital.antt =====
-- What the capital controls and the policy of replays ask for.
use yanzl.Prelude.{
  ◌≡◌, refl, ◌↔◌, ◌≢◌, ◌⊎◌, Bool, true, false, Option, none, some, List, [], ◌∷◌, String, arith,
}
use yanzl.Prelude.Tests.{is_some}
use yanzl.Prelude.Int.{◌≤ℤ◌}
use yanzl.Prelude.Equality.{String_eq}
use yanzl.Prelude.Lists.{contains}
use yanzl.Domain.Orders.{Decimal}
use yanzl.Safety.Config.{RolloutMode, live, SafetyConfig}
use yanzl.Safety.Gates.{evaluate_replay_gate}
use yanzl.Safety.Submit.{OperatorApproval}
use yanzl.Safety.Rollout.{
  CapitalControlContext, exceeds, is_unlisted, is_list_required, check_lists,
  evaluate_capital_controls, evaluate_replay_policy,
}

abbrev pub WithinLimit : Decimal → Option Decimal → Type 0
WithinLimit value none = Unit {0}
WithinLimit value (some bound) = value ≤ℤ bound

-- A key is on its whitelist; an empty whitelist does for a mode other than LIVE, where the flag allows it.
abbrev pub IsListed : List String → RolloutMode → Bool → String → Type 0
IsListed [] mode allow_empty key = (mode ≢ live) × (allow_empty ≡ true)
IsListed (x ∷ xs) mode allow_empty key = contains (x ∷ xs) key ≡ true

pub record KeepsCapital (c : SafetyConfig) (x : CapitalControlContext) : Type 0 where
  pub order : WithinLimit x.order_size c.rollout.capital_controls.max_order_size
  pub position : WithinLimit x.projected_position_size c.rollout.capital_controls.max_position_size
  pub loss : WithinLimit x.daily_loss c.rollout.capital_controls.max_daily_loss
  pub account :
      IsListed c.rollout.capital_controls.account_whitelist c.rollout.mode
        c.rollout.capital_controls.allow_empty_account_whitelist_in_non_live x.control_account
  pub instrument :
      IsListed c.rollout.capital_controls.allowed_instruments c.rollout.mode
        c.rollout.capital_controls.allow_empty_instrument_whitelist_in_non_live x.control_instrument

WithinLimit-iff : (v : Decimal) (o : Option Decimal) → (exceeds v o ≡ false) ↔ WithinLimit v o
WithinLimit-iff v none = (λ h. tt, λ h. refl)
WithinLimit-iff v (some b) = ground arith

IsListed-iff :
    (l : List String) (m : RolloutMode) (b : Bool) (key : String)
    → ((is_list_required l m b ≡ false) × (is_unlisted l key ≡ false)) ↔ IsListed l m b key
IsListed-iff [] m b key = ground arith
IsListed-iff (x ∷ xs) m b key = ground arith

controls_iff :
    (c : SafetyConfig) (x : CapitalControlContext)
    → let k = c.rollout.capital_controls in
      ((evaluate_capital_controls c x).passed ≡ true) ↔ (
        (exceeds x.order_size k.max_order_size ≡ false)
        × (exceeds x.projected_position_size k.max_position_size ≡ false)
        × (exceeds x.daily_loss k.max_daily_loss ≡ false)
        × ((is_list_required k.account_whitelist c.rollout.mode
                k.allow_empty_account_whitelist_in_non_live
              ≡ false)
            × (is_unlisted k.account_whitelist x.control_account ≡ false))
        × ((is_list_required k.allowed_instruments c.rollout.mode
                k.allow_empty_instrument_whitelist_in_non_live
              ≡ false)
            × (is_unlisted k.allowed_instruments x.control_instrument ≡ false)))
unfolding evaluate_capital_controls check_lists
controls_iff c x = ground arith

-- The capital controls pass exactly when the three sizes are within their limits and the account and the
-- instrument are on their whitelists, of which an empty one does only outside of LIVE.
pub capital_controls_iff :
    (c : SafetyConfig) (x : CapitalControlContext)
    → ((evaluate_capital_controls c x).passed ≡ true) ↔ KeepsCapital c x
capital_controls_iff c x =
    let k = c.rollout.capital_controls in
    let orders = WithinLimit-iff x.order_size k.max_order_size in
    let positions = WithinLimit-iff x.projected_position_size k.max_position_size in
    let losses = WithinLimit-iff x.daily_loss k.max_daily_loss in
    let accounts =
      IsListed-iff k.account_whitelist c.rollout.mode k.allow_empty_account_whitelist_in_non_live
        x.control_account in
    let instruments =
      IsListed-iff k.allowed_instruments c.rollout.mode
        k.allow_empty_instrument_whitelist_in_non_live x.control_instrument in
    (
      λ h.
          let (o, p, l, a, i) = (controls_iff c x).0 h in
          record {
            order = orders.0 o;
            position = positions.0 p;
            loss = losses.0 l;
            account = accounts.0 a;
            instrument = instruments.0 i;
          },
      λ q. (controls_iff c x).1 (
        orders.1 q.order,
        positions.1 q.position,
        losses.1 q.loss,
        accounts.1 q.account,
        instruments.1 q.instrument,
      ),
    )

-- A replay writes, instead of running dry, exactly when it was asked to, neither kill switch is set, and in LIVE
-- both the caller's permission and an operator's approval are given.
pub replay_policy_iff :
    (mode : RolloutMode) (requested allow_live : Bool) (approval : Option OperatorApproval)
    (c : SafetyConfig)
    → ((evaluate_replay_policy mode requested allow_live approval c).dry_run ≡ false) ↔ (
        (requested ≡ true)
        × (c.kill_switch.global_kill_switch ≡ false)
        × (c.kill_switch.replay_paused ≡ false)
        × ((mode ≢ live) ⊎ ((allow_live ≡ true) × (is_some approval ≡ true))))
unfolding evaluate_replay_policy evaluate_replay_gate
replay_policy_iff mode requested allow_live approval c = ground arith
