-- ===== src/Position/Store/Laws.antt =====
-- How the lookups in `positions` and `position_events` answer after an update or an insert.
use yanzl.Prelude.{ℕ, ◌≡◌, refl, ◌≢◌, none, some, List, [], ◌∷◌, ◌++◌, String, arith}
use yanzl.Prelude.Equality.{==_iff, String_eq, ℕ_eq}
use yanzl.Domain.Positions.{Position}
use yanzl.Position.Store.{
  PositionRow, PositionEventRow, find_position, find_position_id, find_trade_event, set_quantities,
  with_quantities,
}

-- A row after an update.
abbrev pub renewed : PositionRow → Position → PositionRow
renewed r new = record r { state = with_quantities r.state new }

pub find_position-key :
    (a i : String) (rs : List PositionRow) (r : PositionRow)
    → find_position a i rs ≡ some r
    → (r.state.account_id ≡ a) × (r.state.instrument_id ≡ i)
unfolding find_position
find_position-key a i [] r h = absurd cc
find_position-key a i (x ∷ rs) r h =
    ground (
      arith,
      find_position-key a i rs r,
      ==_iff x.state.account_id a,
      ==_iff x.state.instrument_id i,
    )

pub find_position_id-id :
    (id : ℕ) (rs : List PositionRow) (r : PositionRow) → find_position_id id rs ≡ some r → r.id ≡ id
unfolding find_position_id
find_position_id-id id [] r h = cc
find_position_id-id id (x ∷ rs) r h = ground (arith, find_position_id-id id rs r)

pub find_position_id-set_self :
    (id : ℕ) (new : Position) (rs : List PositionRow) (r : PositionRow)
    → find_position_id id rs ≡ some r
    → find_position_id id (set_quantities id new rs) ≡ some (renewed r new)
unfolding find_position_id set_quantities
find_position_id-set_self id new [] r h = cc
find_position_id-set_self id new (x ∷ rs) r h =
    ground (arith, find_position_id-set_self id new rs r)

pub find_position_id-set_ne :
    (id k : ℕ) (new : Position) (rs : List PositionRow)
    → k ≢ id
    → find_position_id id (set_quantities k new rs) ≡ find_position_id id rs
unfolding find_position_id set_quantities
find_position_id-set_ne id k new [] ne = refl
find_position_id-set_ne id k new (x ∷ rs) ne =
    ground (arith, find_position_id-set_ne id k new rs ne)

pub find_position-set_none :
    (a i : String) (k : ℕ) (new : Position) (rs : List PositionRow)
    → find_position a i rs ≡ none
    → find_position a i (set_quantities k new rs) ≡ none
unfolding find_position set_quantities
find_position-set_none a i k new [] h = refl
find_position-set_none a i k new (x ∷ rs) h = ground (arith, find_position-set_none a i k new rs)

pub find_position-set_self :
    (a i : String) (new : Position) (rs : List PositionRow) (r : PositionRow)
    → find_position a i rs ≡ some r
    → find_position a i (set_quantities r.id new rs) ≡ some (renewed r new)
unfolding find_position set_quantities
find_position-set_self a i new [] r h = cc
find_position-set_self a i new (x ∷ rs) r h = ground (arith, find_position-set_self a i new rs r)

pub find_position-set_ne :
    (a i : String) (k : ℕ) (new : Position) (rs : List PositionRow) (r : PositionRow)
    → find_position a i rs ≡ some r
    → r.id ≢ k
    → find_position a i (set_quantities k new rs) ≡ some r
unfolding find_position set_quantities
find_position-set_ne a i k new [] r h ne = cc
find_position-set_ne a i k new (x ∷ rs) r h ne = ground (arith, find_position-set_ne a i k new rs r)

pub find_position-append_old :
    (a i : String) (rs ss : List PositionRow) (r : PositionRow)
    → find_position a i rs ≡ some r
    → find_position a i (rs ++ ss) ≡ some r
unfolding find_position
find_position-append_old a i [] ss r h = cc
find_position-append_old a i (x ∷ rs) ss r h = ground (arith, find_position-append_old a i rs ss r)

pub find_position-append_new :
    (a i : String) (rs ss : List PositionRow)
    → find_position a i rs ≡ none
    → find_position a i (rs ++ ss) ≡ find_position a i ss
unfolding find_position
find_position-append_new a i [] ss h = refl
find_position-append_new a i (x ∷ rs) ss h = ground (arith, find_position-append_new a i rs ss)

pub find_position_id-append_old :
    (id : ℕ) (rs ss : List PositionRow) (r : PositionRow)
    → find_position_id id rs ≡ some r
    → find_position_id id (rs ++ ss) ≡ some r
unfolding find_position_id
find_position_id-append_old id [] ss r h = cc
find_position_id-append_old id (x ∷ rs) ss r h =
    ground (arith, find_position_id-append_old id rs ss r)

pub find_position_id-append_new :
    (id : ℕ) (rs ss : List PositionRow)
    → find_position_id id rs ≡ none
    → find_position_id id (rs ++ ss) ≡ find_position_id id ss
unfolding find_position_id
find_position_id-append_new id [] ss h = refl
find_position_id-append_new id (x ∷ rs) ss h = ground (arith, find_position_id-append_new id rs ss)

pub find_trade_event-append_new :
    (a x t : String) (es fs : List PositionEventRow)
    → find_trade_event a x t es ≡ none
    → find_trade_event a x t (es ++ fs) ≡ find_trade_event a x t fs
unfolding find_trade_event
find_trade_event-append_new a x t [] fs h = refl
find_trade_event-append_new a x t (e ∷ es) fs h =
    ground (arith, find_trade_event-append_new a x t es fs)

pub find_trade_event-append_old :
    (a x t : String) (es fs : List PositionEventRow) (r : PositionEventRow)
    → find_trade_event a x t es ≡ some r
    → find_trade_event a x t (es ++ fs) ≡ some r
unfolding find_trade_event
find_trade_event-append_old a x t [] fs r h = cc
find_trade_event-append_old a x t (e ∷ es) fs r h =
    ground (arith, find_trade_event-append_old a x t es fs r)
