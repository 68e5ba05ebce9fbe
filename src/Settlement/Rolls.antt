-- ===== src/Settlement/Rolls.antt =====
-- The rows that a settlement rolls are those that its snapshot foresees.
use mathlib.Core.Option
use mathlib.Core.Path.{subst}
use yanzl.Prelude.{
  suc, ◌≡◌, refl, ap, ◌∙◌, Bool, true, false, not, ◌&&◌, ◌||◌, Option, none, some, List, [], ◌∷◌,
  map, arith,
}
use yanzl.Prelude.Tests.{if◌then◌else◌}
use yanzl.Prelude.Equality.{◌==◌, ==_iff, String_eq}
use yanzl.Prelude.Int.{pos, ◌+ℤ◌}
use yanzl.Domain.Positions.{Position}
use yanzl.Position.Store.{PositionRow, PositionDb, find_position, position_to_domain}
use yanzl.Position.Store.Laws.{find_position-key}
use yanzl.Position.Derived.{roll, changed, touched}
use yanzl.Position.Derived.Laws.{find_position-touched}
use yanzl.Settlement.Models.{
  PositionPayload, PositionPayload_eq, position_payload, rolled_position_payload,
}
use yanzl.Settlement.Live.{
  add_position, load_live_positions, lives_differ, position_reason, position_divergence,
}
use yanzl.Settlement.Rows.{roll_rows}

abbrev pub same_key : Position → Position → Bool
same_key p q = p.account_id == q.account_id && p.instrument_id == q.instrument_id

-- No position of the list has the key of the first.
abbrev pub Fresh : Position → List Position → Type 0
Fresh p [] = Unit {0}
Fresh p (q ∷ qs) = (same_key p q ≡ false) × Fresh p qs

-- The positions have different keys.
abbrev pub Distinct : List Position → Type 0
Distinct [] = Unit {0}
Distinct (p ∷ ps) = Fresh p ps × Distinct ps

abbrev pub Each : (Position → Type 0) → List Position → Type 0
Each P [] = Unit {0}
Each P (p ∷ ps) = P p × Each P ps

-- The row of a position, with what a JSON form says of it.
abbrev pub HasPayload : List PositionRow → Position → PositionPayload → Type 0
HasPayload rows p x =
    (r : PositionRow) × (find_position p.account_id p.instrument_id rows ≡ some r)
    × (position_payload (position_to_domain r) ≡ x)

abbrev pub Held : List PositionRow → Position → Type 0
Held rows p = HasPayload rows p (position_payload p)

abbrev pub RolledIn : List PositionRow → Position → Type 0
RolledIn rows p = HasPayload rows p (rolled_position_payload p)

same_key_sym : (p q : Position) → same_key p q ≡ false → same_key q p ≡ false
same_key_sym p q h = ground (
  arith,
  ==_iff p.account_id q.account_id,
  ==_iff q.account_id p.account_id,
  ==_iff p.instrument_id q.instrument_id,
  ==_iff q.instrument_id p.instrument_id,
)

touched_other :
    (p q : Position) (r : PositionRow)
    → (r.state.account_id ≡ p.account_id) × (r.state.instrument_id ≡ p.instrument_id)
    → same_key p q ≡ false
    → touched q.account_id q.instrument_id roll r ≡ r
touched_other p q r key other =
    ap (λ b. if b then record r { state = changed roll r.state } else r)
      (ap (λ a. a == q.account_id && r.state.instrument_id == q.instrument_id) key.0
        ∙ ap (λ i. p.account_id == q.account_id && i == q.instrument_id) key.1
        ∙ other)

is_own_row :
    (p : Position) (r : PositionRow)
    → (r.state.account_id ≡ p.account_id) × (r.state.instrument_id ≡ p.instrument_id)
    → (r.state.account_id == p.account_id && r.state.instrument_id == p.instrument_id) ≡ true
is_own_row p r key =
    ground
      (arith, ==_iff r.state.account_id p.account_id, ==_iff r.state.instrument_id p.instrument_id)

touched_self :
    (p : Position) (r : PositionRow)
    → (r.state.account_id ≡ p.account_id) × (r.state.instrument_id ≡ p.instrument_id)
    → touched p.account_id p.instrument_id roll r ≡ record r { state = changed roll r.state }
touched_self p r key =
    ap (λ b. if b then record r { state = changed roll r.state } else r) (is_own_row p r key)

-- A roll of another position leaves a row.
find-roll_other :
    (p q : Position) (rows : List PositionRow) (r : PositionRow)
    → same_key p q ≡ false
    → find_position p.account_id p.instrument_id rows ≡ some r
    → find_position p.account_id p.instrument_id
        (map (touched q.account_id q.instrument_id roll) rows)
      ≡ some r
find-roll_other p q rows r other at =
    find_position-touched q.account_id q.instrument_id roll p.account_id p.instrument_id rows
    ∙ ap (Option.map (touched q.account_id q.instrument_id roll)) at
    ∙ ap some (touched_other p q r (find_position-key p.account_id p.instrument_id rows r at) other)

find-roll_rest :
    (p : Position) (ps : List Position) (rows : List PositionRow) (r : PositionRow)
    → Fresh p ps
    → find_position p.account_id p.instrument_id rows ≡ some r
    → find_position p.account_id p.instrument_id (roll_rows ps rows) ≡ some r
find-roll_rest p [] rows r fresh at = at
find-roll_rest p (q ∷ qs) rows r fresh at =
    find-roll_rest p qs _ r fresh.1 (find-roll_other p q rows r fresh.0 at)

-- A row that is rolled has the rolled form.
abbrev roll_payload : PositionPayload → PositionPayload
roll_payload x = record x {
  long_yesterday_qty = x.long_yesterday_qty +ℤ x.long_today_qty;
  short_yesterday_qty = x.short_yesterday_qty +ℤ x.short_today_qty;
  long_today_qty = pos 0;
  short_today_qty = pos 0;
  version = suc x.version;
}

Held-rolled :
    (p : Position) (rows : List PositionRow)
    → Held rows p
    → RolledIn (map (touched p.account_id p.instrument_id roll) rows) p
Held-rolled p rows (r, at, eq) = (
  record r { state = changed roll r.state },
  find_position-touched p.account_id p.instrument_id roll p.account_id p.instrument_id rows
      ∙ ap (Option.map (touched p.account_id p.instrument_id roll)) at
      ∙ ap some (touched_self p r (find_position-key p.account_id p.instrument_id rows r at)),
  ap roll_payload eq,
)

Held-others :
    (p : Position) (ps : List Position) (rows : List PositionRow)
    → Fresh p ps
    → Each (Held rows) ps
    → Each (Held (map (touched p.account_id p.instrument_id roll) rows)) ps
Held-others p [] rows fresh held = tt
Held-others p (q ∷ qs) rows fresh ((r, at, eq), held) = (
  (r, find-roll_other q p rows r (same_key_sym p q fresh.0) at, eq),
  Held-others p qs rows fresh.1 held,
)

pub roll_rows-RolledIn :
    (ps : List Position) (rows : List PositionRow)
    → Distinct ps
    → Each (Held rows) ps
    → Each (RolledIn (roll_rows ps rows)) ps
roll_rows-RolledIn [] rows distinct held = tt
roll_rows-RolledIn (p ∷ ps) rows distinct held =
    let (r, at, eq) = Held-rolled p rows held.0 in
    (
      (r, find-roll_rest p ps _ r distinct.0 at, eq),
      roll_rows-RolledIn ps _ distinct.1 (Held-others p ps rows distinct.0 held.1),
    )

-- No divergence is found where every row has the form that is expected.
pub position_divergence-none :
    (d : PositionDb) (ps : List Position)
    → Each (RolledIn d.positions) ps
    → position_divergence d (map rolled_position_payload ps) ≡ none
unfolding position_divergence
position_divergence-none d [] each = refl
position_divergence-none d (p ∷ ps) ((r, at, eq), each) =
    ap
      (λ o.
        position_reason o (rolled_position_payload p)
          (position_divergence d (map rolled_position_payload ps)))
      (ap (Option.map position_to_domain) at)
    ∙ ap
        (λ b.
          if not b
          then some "live_position_diverged_from_settlement_snapshot"
          else position_divergence d (map rolled_position_payload ps))
        ((==_iff (position_payload (position_to_domain r)) (rolled_position_payload p)).1 eq)
    ∙ position_divergence-none d ps each

or_left : (a b : Bool) → (a || b) ≡ false → a ≡ false
or_left a b h = ground arith

or_right : (a b : Bool) → (a || b) ≡ false → b ≡ false
or_right a b h = ground arith

true_of_not : (a : Bool) → not a ≡ false → a ≡ true
true_of_not a h = ground arith

-- Live rows that repeat the context's positions: each is found with the position's payload, and their roll is
-- the roll of the context's positions.
abbrev Repeats : PositionDb → List Position → List Position → Type 0
Repeats d lives ps =
    Each (Held d.positions) ps
    × ((rows : List PositionRow) → roll_rows lives rows ≡ roll_rows ps rows)

module _ (d : PositionDb) (p : Position) (ps : List Position) where
  Repeats-first_row :
      (rest : List Position) (r : PositionRow)
      → find_position p.account_id p.instrument_id d.positions ≡ some r
      → lives_differ (position_to_domain r ∷ rest) (p ∷ ps) ≡ false
      → (lives_differ rest ps ≡ false → Repeats d rest ps)
      → Repeats d (position_to_domain r ∷ rest) (p ∷ ps)
  unfolding lives_differ
  Repeats-first_row rest r at undiverged repeats =
      let key = find_position-key p.account_id p.instrument_id d.positions r at in
      let rest_repeats = repeats (or_right _ _ undiverged) in
      (
        (
          (
            r,
            at,
            (==_iff (position_payload (position_to_domain r)) (position_payload p)).0
                (true_of_not _ (or_left _ _ undiverged)),
          ),
          rest_repeats.0,
        ),
        λ rows.
            ap (λ a. roll_rows rest (map (touched a r.state.instrument_id roll) rows)) key.0
            ∙ ap (λ i. roll_rows rest (map (touched p.account_id i roll) rows)) key.1
            ∙ rest_repeats.1 (map (touched p.account_id p.instrument_id roll) rows),
      )

  Repeats-by_rows :
      (o : Option PositionRow) (m : Option (List Position)) (lives : List Position)
      → find_position p.account_id p.instrument_id d.positions ≡ o
      → add_position (Option.map position_to_domain o) m ≡ some lives
      → lives_differ lives (p ∷ ps) ≡ false
      → ((rest : List Position) → m ≡ some rest → lives_differ rest ps ≡ false → Repeats d rest ps)
      → Repeats d lives (p ∷ ps)
  Repeats-by_rows none m lives at loaded undiverged repeats = absurd cc
  Repeats-by_rows (some r) none lives at loaded undiverged repeats = absurd cc
  Repeats-by_rows (some r) (some rest) lives at loaded undiverged repeats =
      subst (λ l. lives_differ l (p ∷ ps) ≡ false → Repeats d l (p ∷ ps)) (cc loaded)
        (λ h. Repeats-first_row rest r at h (repeats rest refl)) undiverged

pub loaded-Repeats :
    (d : PositionDb) (ps lives : List Position)
    → load_live_positions d ps ≡ some lives
    → lives_differ lives ps ≡ false
    → Repeats d lives ps
unfolding load_live_positions
loaded-Repeats d [] [] loaded undiverged = (tt, λ rows. refl)
loaded-Repeats d [] (x ∷ xs) loaded undiverged = absurd cc
loaded-Repeats d (p ∷ ps) lives loaded undiverged =
    Repeats-by_rows d p ps _ _ lives refl loaded undiverged (loaded-Repeats d ps)
