-- ===== src/Safety/Ladder.antt =====
-- The rollout mode under the decisions on promotion and rollback: how LIVE is reached and left, and what the
-- global kill switch stops.
use yanzl.Prelude.{◌≡◌, refl, ap, ◌≢◌, ◌⊎◌, inl, inr, true, none, List, [], ◌∷◌, ◌++◌, arith}
use yanzl.Prelude.Tests.{Bool-cases, Option-cases, is_some, if◌then◌else◌}
use yanzl.Safety.Config.{RolloutMode, paper, sim, live}
use yanzl.Safety.Rollout.{
  RolloutGateContext, PromotionDecision, RollbackDecision, RollbackReason, is_promoted,
  evaluate_promotion, is_rollback_path, evaluate_rollback, evaluate_stage_p_live_gate,
  paper_to_sim_reject_reason,
}
use yanzl.Safety.LiveGate.{IsLiveReady, live_gate_iff}

-- What an operator asks for.
pub data Request : Type 0 where
  promote : RolloutMode → RolloutGateContext → Request
  roll_back : RolloutMode → RollbackReason → Request

-- The mode after a decision.
abbrev pub promoted_mode : PromotionDecision → RolloutMode
promoted_mode d = if is_promoted d.promotion_status then d.to_mode else d.from_mode

abbrev pub rolled_mode : RollbackDecision → RolloutMode
rolled_mode d = if d.rolled_back then d.rollback_to else d.rollback_from

unfoldable pub mode_after : RolloutMode → Request → RolloutMode
mode_after mode (promote requested x) = promoted_mode (evaluate_promotion mode requested x)
mode_after mode (roll_back requested reason) = rolled_mode (evaluate_rollback mode requested reason)

unfoldable pub follow : RolloutMode → List Request → RolloutMode
follow mode [] = mode
follow mode (r ∷ rs) = follow (mode_after mode r) rs

-- What a promotion from PAPER to SIM asks for.
pub record IsSimReady (x : RolloutGateContext) : Type 0 where
  pub runs : x.runtime_ready ≡ true
  pub migrated : x.migration.compatible ≡ true
  pub replayed : x.replay_healthy ≡ true
  pub approved : is_some x.approval ≡ true

-- A request that leads from one mode to another, and why it may.
pub data Rung : RolloutMode → Request → RolloutMode → Type 0 where
  stays : {m : RolloutMode} {r : Request} → Rung m r m
  to_sim : {x : RolloutGateContext} → IsSimReady x → Rung paper (promote sim x) sim
  to_live : {x : RolloutGateContext} → IsLiveReady x → Rung sim (promote live x) live
  down :
      {m n : RolloutMode} {reason : RollbackReason}
      → is_rollback_path m n ≡ true
      → Rung m (roll_back n reason) n

paper_gate : (x : RolloutGateContext) → paper_to_sim_reject_reason x ≡ none → IsSimReady x
unfolding paper_to_sim_reject_reason
paper_gate x h = record {
  runs = ground arith;
  migrated = ground arith;
  replayed = ground arith;
  approved = ground arith;
}

promote-Rung :
    (m n : RolloutMode) (x : RolloutGateContext)
    → Rung m (promote n x) (promoted_mode (evaluate_promotion m n x))
unfolding evaluate_promotion
promote-Rung paper sim x = elim (Option-cases (paper_to_sim_reject_reason x)) [
  | inl clean ↦ rw clean (to_sim (paper_gate x clean))
  | inr refused ↦ rw refused.1 stays
]
promote-Rung sim live x = elim (Bool-cases (evaluate_stage_p_live_gate x).allowed) [
  | inl open_gate ↦ rw open_gate (to_live ((live_gate_iff x).0 open_gate))
  | inr shut ↦ rw shut stays
]
promote-Rung paper paper x = stays
promote-Rung paper live x = stays
promote-Rung sim paper x = stays
promote-Rung sim sim x = stays
promote-Rung live paper x = stays
promote-Rung live sim x = stays
promote-Rung live live x = stays

roll_back-Rung :
    (m n : RolloutMode) (reason : RollbackReason)
    → Rung m (roll_back n reason) (rolled_mode (evaluate_rollback m n reason))
unfolding evaluate_rollback
roll_back-Rung m n reason = elim (Bool-cases (is_rollback_path m n)) [
  | inl path ↦ rw path (down path)
  | inr none_such ↦ rw none_such stays
]

mode_after-Rung : (m : RolloutMode) (r : Request) → Rung m r (mode_after m r)
unfolding mode_after
mode_after-Rung m (promote n x) = promote-Rung m n x
mode_after-Rung m (roll_back n reason) = roll_back-Rung m n reason

-- A promotion to LIVE among the requests, through an open live gate.
pub record Opening (rs : List Request) : Type 0 where
  pub before : List Request
  pub after : List Request
  pub context : RolloutGateContext
  pub is_ready : IsLiveReady context
  pub split : rs ≡ before ++ promote live context ∷ after

-- A promotion to SIM of a clean context, and behind it one to LIVE.
pub record Climb (rs : List Request) : Type 0 where
  pub before : List Request
  pub context : RolloutGateContext
  pub is_ready : IsSimReady context
  pub rest : List Request
  pub split : rs ≡ before ++ promote sim context ∷ rest
  pub opening : Opening rest

later-Opening : (r : Request) (rs : List Request) → Opening rs → Opening (r ∷ rs)
later-Opening r rs o = record {
  before = r ∷ o.before;
  after = o.after;
  context = o.context;
  is_ready = o.is_ready;
  split = ap (◌∷◌ r) o.split;
}

later-Climb : (r : Request) (rs : List Request) → Climb rs → Climb (r ∷ rs)
later-Climb r rs c = record {
  before = r ∷ c.before;
  context = c.context;
  is_ready = c.is_ready;
  rest = c.rest;
  split = ap (◌∷◌ r) c.split;
  opening = c.opening;
}

not_up : (m n : RolloutMode) → is_rollback_path m n ≡ true → n ≢ live
not_up m n path h = ground arith

not_from_paper : (m n : RolloutMode) → is_rollback_path m n ≡ true → m ≢ paper
not_from_paper m n path h = ground arith

Opening-step :
    {m n : RolloutMode} (r : Request) (rs : List Request)
    → Rung m r n
    → (n ≡ live) ⊎ Opening rs
    → (m ≡ live) ⊎ Opening (r ∷ rs)
Opening-step r rs _ (inr o) = inr (later-Opening r rs o)
Opening-step r rs stays (inl h) = inl h
Opening-step r rs (to_sim _) (inl h) = cc
Opening-step r rs (to_live {x} ok) (inl h) =
    inr (record { before = []; after = rs; context = x; is_ready = ok; split = refl })
Opening-step {m} {n} r rs (down path) (inl h) = absurd (not_up m n path h)

needs-Opening : (m : RolloutMode) (rs : List Request) → follow m rs ≡ live → (m ≡ live) ⊎ Opening rs
unfolding follow
needs-Opening m [] h = inl h
needs-Opening m (r ∷ rs) h =
    Opening-step r rs (mode_after-Rung m r) (needs-Opening (mode_after m r) rs h)

Climb-step :
    {m n : RolloutMode} (r : Request) (rs : List Request)
    → Rung m r n
    → m ≡ paper
    → (n ≡ paper → Climb rs)
    → (n ≡ live) ⊎ Opening rs
    → Climb (r ∷ rs)
Climb-step r rs stays p rest opens = later-Climb r rs (rest p)
Climb-step r rs (to_sim {x} ok) p rest (inl h) = cc
Climb-step r rs (to_sim {x} ok) p rest (inr o) = record {
  before = [];
  context = x;
  is_ready = ok;
  rest = rs;
  split = refl;
  opening = o;
}
Climb-step r rs (to_live ok) p rest opens = absurd (cc p)
Climb-step {m} {n} r rs (down path) p rest opens = absurd (not_from_paper m n path p)

Climb-from : (m : RolloutMode) (rs : List Request) → m ≡ paper → follow m rs ≡ live → Climb rs
unfolding follow
Climb-from m [] p h = absurd (cc (p, h))
Climb-from m (r ∷ rs) p h =
    Climb-step r rs (mode_after-Rung m r) p (λ q. Climb-from (mode_after m r) rs q h)
      (needs-Opening (mode_after m r) rs h)

-- Requests that lead from PAPER to LIVE have among them a promotion to SIM of a clean context and, behind it, one
-- to LIVE of a context that is ready for live orders.
pub Climb-to_live : (rs : List Request) → follow paper rs ≡ live → Climb rs
Climb-to_live rs h = Climb-from paper rs refl h

sim_ready_passes : (x : RolloutGateContext) → IsSimReady x → paper_to_sim_reject_reason x ≡ none
unfolding paper_to_sim_reject_reason
sim_ready_passes x k = ground (arith, k.runs, k.migrated, k.replayed, k.approved)

-- From every mode, a promotion to SIM and then one to LIVE, of contexts that are ready for it, lead to LIVE, and
-- one request to roll back leads to PAPER, whatever its reason.
pub ladder_moves :
    (m : RolloutMode) (x y : RolloutGateContext) (reason : RollbackReason)
    → IsSimReady x
    → IsLiveReady y
    → (follow m (promote sim x ∷ promote live y ∷ []) ≡ live)
      × (follow m (roll_back paper reason ∷ []) ≡ paper)
unfolding follow mode_after evaluate_promotion evaluate_rollback
ladder_moves paper x y reason clean ok =
    (rw (sim_ready_passes x clean, (live_gate_iff y).1 ok) refl, refl)
ladder_moves sim x y reason clean ok = (rw ((live_gate_iff y).1 ok) refl, refl)
ladder_moves live x y reason clean ok = (refl, refl)
