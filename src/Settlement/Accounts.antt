-- ===== src/Settlement/Accounts.antt =====
-- The snapshot that a settlement appends is the account's latest.
use yanzl.Prelude.{
  ℕ, ◌≡◌, refl, ap, ◌∙◌, false, none, some, List, [], ◌∷◌, ◌++◌, ◌<◌, arith, String,
}
use yanzl.Prelude.Tests.{if◌then◌else◌}
use yanzl.Prelude.Equality.{◌==◌, ==_iff, ==_refl, String_eq, ℕ_eq}
use yanzl.Prelude.Int.{ℤ_eq}
use yanzl.Settlement.Models.{AccountSnapshot}
use yanzl.Settlement.Store.{AccountRow, find_account, latest, later_snapshot}
use yanzl.Settlement.Live.{differs}

-- No snapshot of the account is as late as an instant.
abbrev pub Earlier : String → ℕ → List AccountRow → Type 0
Earlier account_id t [] = Unit {0}
Earlier account_id t (r ∷ rs) =
    (r.state.account_id ≡ account_id → r.state.snapshot_time < t) × Earlier account_id t rs

pub Earlier-append :
    (a : String) (t : ℕ) (rs : List AccountRow) (r : AccountRow)
    → Earlier a t rs
    → r.state.snapshot_time < t
    → Earlier a t (rs ++ r ∷ [])
Earlier-append a t [] r earlier before = (λ own. before, tt)
Earlier-append a t (q ∷ rs) r earlier before = (earlier.0, Earlier-append a t rs r earlier.1 before)

later_than :
    (a : String) (r q : AccountRow)
    → r.state.account_id ≡ a
    → (q.state.account_id ≡ a → q.state.snapshot_time < r.state.snapshot_time)
    → (if q.state.account_id == a then some (later_snapshot q (some r)) else some r) ≡ some r
later_than a r q own before = ground (arith, ==_iff q.state.account_id a)

pub latest-append :
    (a : String) (rs : List AccountRow) (r : AccountRow)
    → r.state.account_id ≡ a
    → Earlier a r.state.snapshot_time rs
    → latest a (rs ++ r ∷ []) ≡ some r
unfolding latest
latest-append a [] r own earlier =
    ap (λ b. if b then some r else none) ((==_iff r.state.account_id a).1 own)
latest-append a (q ∷ rs) r own earlier =
    ap (λ rest. if q.state.account_id == a then some (later_snapshot q rest) else rest)
      (latest-append a rs r own earlier.1)
    ∙ later_than a r q own earlier.0

pub find_account-append_new :
    (id : ℕ) (rs : List AccountRow) (r : AccountRow)
    → find_account id rs ≡ none
    → r.id ≡ id
    → find_account id (rs ++ r ∷ []) ≡ some r
unfolding find_account
find_account-append_new id [] r new same =
    ap (λ b. if b then some r else none) ((==_iff r.id id).1 same)
find_account-append_new id (q ∷ rs) r new same = ground (arith, find_account-append_new id rs r)

pub differs_self : (a : AccountSnapshot) → differs a a ≡ false
differs_self a =
    rw (==_refl a.equity) (
      rw (==_refl a.available_cash)
        (rw (==_refl a.margin_used) (rw (==_refl a.frozen_margin) refl)))
