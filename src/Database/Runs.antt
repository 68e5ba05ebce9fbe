-- ===== src/Database/Runs.antt =====
-- How a computation on a session ends when it commits nothing: a triple with a postcondition for each
-- way to end.
use mathlib.Core.Path.{subst}
use yanzl.Prelude.{◌≡◌, refl, sym, Bool, true, false}
use yanzl.Prelude.Tests.{if◌then◌else◌}
use yanzl.Database.UnitOfWork.{Error, Result, ok, err, Session, Uow, pure, raise, ◌>>=◌, continue}

module _ {D A : Type 0} where
  -- What is committed stays; a result meets the postcondition with what is written.
  abbrev pub Ends : (A → D → Type 0) → D → Result A × Session D → Type 0
  Ends Q d (ok a, s) = (s.committed ≡ d) × Q a s.working
  Ends Q d (err e, s) = s.committed ≡ d

  -- The computation, from a session.
  unfoldable pub Runs : D → D → Uow D A → (A → D → Type 0) → Type 0
  Runs d w m Q = Ends Q d (m (record { committed = d; working = w }))

  Ends-weaken :
      (Q R : A → D → Type 0) (d : D) (x : Result A × Session D)
      → ((a : A) (w : D) → Q a w → R a w)
      → Ends Q d x
      → Ends R d x
  Ends-weaken Q R d (ok a, s) f h = (h.0, f a s.working h.1)
  Ends-weaken Q R d (err e, s) f h = h

  pub Runs-weaken :
      (Q R : A → D → Type 0) (d w : D) (m : Uow D A)
      → ((a : A) (v : D) → Q a v → R a v)
      → Runs d w m Q
      → Runs d w m R
  unfolding Runs
  Runs-weaken Q R d w m f h = Ends-weaken Q R d (m (record { committed = d; working = w })) f h

  -- A branch, with what its test says.
  pub Runs-if :
      (Q : A → D → Type 0) (d w : D) (m n : Uow D A) (b : Bool)
      → (b ≡ true → Runs d w m Q)
      → (b ≡ false → Runs d w n Q)
      → Runs d w (if b then m else n) Q
  Runs-if Q d w m n true f g = f refl
  Runs-if Q d w m n false f g = g refl

  pub Runs-pure : (Q : A → D → Type 0) (d w : D) (a : A) → Q a w → Runs d w (pure a) Q
  unfolding Runs
  Runs-pure Q d w a q = (refl, q)

  pub Runs-raise : (Q : A → D → Type 0) (d w : D) (e : Error) → Runs d w (raise e) Q
  unfolding Runs
  Runs-raise Q d w e = refl

module _ {D A B : Type 0} (Q : A → D → Type 0) (R : B → D → Type 0) (d : D) (m : Uow D A)
    (f : A → Uow D B) where
  resume :
      (c w : D) (a : A)
      → ((x : A) (v : D) → Q x v → Runs d v (f x) R)
      → d ≡ c
      → Q a w
      → Ends R d (f a (record { committed = c; working = w }))
  unfolding Runs
  resume c w a next e q =
      subst (λ x. Ends R d (f a (record { committed = x; working = w }))) e (next a w q)

  Ends-continue :
      (x : Result A × Session D)
      → ((a : A) (v : D) → Q a v → Runs d v (f a) R)
      → Ends Q d x
      → Ends R d (continue x.0 f x.1)
  Ends-continue (ok a, s) next h = resume s.committed s.working a next (sym h.0) h.1
  Ends-continue (err e, s) next h = h

  -- What follows runs from what was written so far.
  pub Runs-bind :
      (w : D) → Runs d w m Q → ((a : A) (v : D) → Q a v → Runs d v (f a) R) → Runs d w (m >>= f) R
  unfolding Runs
  Runs-bind w h next = Ends-continue (m (record { committed = d; working = w })) next h
