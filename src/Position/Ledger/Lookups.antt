-- ===== src/Position/Ledger/Lookups.antt =====
-- How a new row, and the update of one row, show in the lookups by account and instrument.
use yanzl.Prelude.{
  ℕ, ◌≡◌, refl, ap, sym, ◌∙◌, true, false, ◌&&◌, ◌⊎◌, inl, inr, Option, none, some, List, [], ◌∷◌,
  ◌++◌, String, arith,
}
use yanzl.Prelude.Tests.{Option-cases, and_left, and_right}
use yanzl.Prelude.Equality.{◌==◌, ==_iff, ==_refl, String_eq, ℕ_eq}
use yanzl.Prelude.Int.{int_laws}
use yanzl.Domain.Positions.{Trade, Position}
use yanzl.Position.Apply.Laws.{IsSound}
use yanzl.Position.Store.{
  PositionRow, find_position, find_position_id, set_quantities, new_position,
}
use yanzl.Position.Store.Laws.{
  renewed, find_position-key, find_position-set_none, find_position-set_self, find_position-set_ne,
  find_position-append_old, find_position-append_new, find_position_id-append_old,
  find_position_id-append_new,
}
use yanzl.Position.Outcome.{HasKeys, Rows, held, opened}

-- Every position found is sound.
abbrev pub AllSound : List PositionRow → Type 0
AllSound rows =
    (a i : String) → (r : PositionRow) → find_position a i rows ≡ some r → IsSound r.state

find_new :
    (id : ℕ) (x y a i : String)
    → (find_position a i (new_position id x y ∷ []) ≡ some (new_position id x y))
      ⊎ (find_position a i (new_position id x y ∷ []) ≡ none)
unfolding find_position
find_new id x y a i = ground arith

pub new-IsSound : (id : ℕ) (x y : String) → IsSound (new_position id x y).state
new-IsSound id x y = record {
  long_today = omega arith;
  long_yesterday = omega arith;
  short_today = omega arith;
  short_yesterday = omega arith;
  long_frozen = omega int_laws;
  short_frozen = omega int_laws;
  long_price = omega arith;
  short_price = omega arith;
}

-- A new row beside the others changes no value that it has at its defaults.
rows-value :
    {A : Type 0} (f : Option PositionRow → A) (id : ℕ) (x y a i : String) (rs : List PositionRow)
    → f (some (new_position id x y)) ≡ f none
    → f (find_position a i (rs ++ new_position id x y ∷ [])) ≡ f (find_position a i rs)
rows-value f id x y a i rs zero = elim (Option-cases (find_position a i rs)) [
  | inr at ↦
      rw (find_position-append_old a i rs (new_position id x y ∷ []) at.0 at.1) (rw at.1 refl)
  | inl absent ↦ elim (find_new id x y a i) [
    | inl new ↦
        rw (find_position-append_new a i rs (new_position id x y ∷ []) absent)
          (rw absent (rw new zero))
    | inr other ↦
        rw (find_position-append_new a i rs (new_position id x y ∷ []) absent)
          (rw absent (rw other refl))
  ]
]

appended :
    (id : ℕ) (x y a i : String) (rs : List PositionRow) (r : PositionRow)
    → find_position a i rs ≡ none
    → find_position a i (rs ++ new_position id x y ∷ []) ≡ some r
    → new_position id x y ≡ r
appended id x y a i rs r absent at = elim (find_new id x y a i) [
  | inl new ↦ cc (new, at, find_position-append_new a i rs (new_position id x y ∷ []) absent)
  | inr other ↦
      absurd (cc (other, at, find_position-append_new a i rs (new_position id x y ∷ []) absent))
]

find_new_id :
    (id : ℕ) (x y : String)
    → find_position_id id (new_position id x y ∷ []) ≡ some (new_position id x y)
unfolding find_position_id
find_new_id id x y = rw (==_refl id) refl

module _ (next_id : ℕ) (t : Trade) (rs : List PositionRow) where
  abbrev pub opening_row : PositionRow
  opening_row = new_position next_id t.account_id t.instrument_id

  pub Rows-value :
      {A : Type 0} (f : Option PositionRow → A) {rows : List PositionRow}
      → Rows next_id t rs rows
      → f (some opening_row) ≡ f none
      → (a i : String) → f (find_position a i rows) ≡ f (find_position a i rs)
  Rows-value f held zero a i = refl
  Rows-value f (opened o absent free) zero a i =
      rows-value f next_id t.account_id t.instrument_id a i rs zero

  pub Rows-sound : {rows : List PositionRow} → Rows next_id t rs rows → AllSound rs → AllSound rows
  Rows-sound held s a i r at = s a i r at
  Rows-sound (opened o absent free) s a i r at = elim (Option-cases (find_position a i rs)) [
    | inr old ↦ s a i r (old.1 ∙ sym (find_position-append_old a i rs _ old.0 old.1) ∙ at)
    | inl fresh ↦
        rw (sym (appended next_id t.account_id t.instrument_id a i rs r fresh at))
          (new-IsSound next_id t.account_id t.instrument_id)
  ]

  pub Rows-keys : {rows : List PositionRow} → Rows next_id t rs rows → HasKeys rs → HasKeys rows
  Rows-keys held k a i r at = k a i r at
  Rows-keys (opened o absent free) k a i r at = elim (Option-cases (find_position a i rs)) [
    | inr old ↦
        find_position_id-append_old r.id rs _ r
          (k a i r (old.1 ∙ sym (find_position-append_old a i rs _ old.0 old.1) ∙ at))
    | inl fresh ↦ rw (sym (appended next_id t.account_id t.instrument_id a i rs r fresh at)) (
        find_position_id-append_new next_id rs _ free
        ∙ find_new_id next_id t.account_id t.instrument_id)
  ]

pub find-same :
    (x y a i : String) (rs : List PositionRow)
    → ((x == a) && (y == i)) ≡ true
    → find_position x y rs ≡ find_position a i rs
find-same x y a i rs same =
    rw ((==_iff x a).0 (and_left (x == a) (y == i) same))
      (rw ((==_iff y i).0 (and_right (x == a) (y == i) same)) refl)

-- How the update of one row shows in the lookup by account and instrument.
module _ (rows : List PositionRow) (keys : HasKeys rows) (x y : String) (r : PositionRow)
    (new : Position) (found : find_position x y rows ≡ some r) where
  -- The primary key tells two positions apart.
  pub same-key :
      (a i : String) (q : PositionRow)
      → find_position a i rows ≡ some q
      → q.id ≡ r.id
      → ((x == a) && (y == i)) ≡ true
  same-key a i q at same =
      let e : some q ≡ some r =
        sym (keys a i q at) ∙ ap (λ k. find_position_id k rows) same ∙ keys x y r found in
      let (ra, ri) = find_position-key x y rows r found in
      let (qa, qi) = find_position-key a i rows q at in
      rw ((==_iff x a).1 (cc)) ((==_iff y i).1 (cc))

  pub set_other :
      (a i : String)
      → ((x == a) && (y == i)) ≡ false
      → find_position a i (set_quantities r.id new rows) ≡ find_position a i rows
  set_other a i differs = elim (Option-cases (find_position a i rows)) [
    | inl absent ↦ find_position-set_none a i r.id new rows absent ∙ sym absent
    | inr at ↦
        find_position-set_ne a i r.id new rows at.0 at.1
          (λ same. absurd (cc (same-key a i at.0 at.1 same, differs)))
        ∙ sym at.1
  ]

  pub set_self :
      (a i : String)
      → ((x == a) && (y == i)) ≡ true
      → find_position a i (set_quantities r.id new rows) ≡ some (renewed r new)
  set_self a i same = rw (sym ((==_iff x a).0 (and_left (x == a) (y == i) same))) (
      rw (sym ((==_iff y i).0 (and_right (x == a) (y == i) same)))
        (find_position-set_self x y new rows r found))
