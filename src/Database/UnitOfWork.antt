-- ===== src/Database/UnitOfWork.antt =====
-- src/futures_mvp/db/unit_of_work.py, and the exceptions of interfaces/repositories.py and
-- modules/oms/errors.py. A service method runs on a session: what is committed, and what the session
-- has written on top. Leaving the `with` block drops what was not committed, also by an exception.
use yanzl.Prelude.{Option, none, some, String}
use yanzl.Domain.Enums.{OrderStatus}
use yanzl.Domain.Orders.{OrderId}

pub data Error : Type 0 where
  order_not_found : OrderId → Error
  idempotency_conflict : String → Error
  event_already_exists : String → Error
  optimistic_lock : OrderId → Error
  position_event_conflict : String → Error
  settlement_snapshot_conflict : String → Error
  repository : String → Error
  event_key_collision : String → Error
  invalid_order_transition : OrderStatus → OrderStatus → Error
  value_error : String → Error
  integrity_error : String → Error  -- the driver's, where no handler turns it into another

pub data Result {ℓ} (A : Type ℓ) : Type ℓ where
  ok : A → Result A
  err : Error → Result A

pub record Session (D : Type 0) : Type 0 where
  pub committed : D
  pub working : D

abbrev pub Uow : Type 0 → Type 0 → Type 0
Uow D A = Session D → Result A × Session D

module _ {D A : Type 0} where
  abbrev pub pure : A → Uow D A
  pure a s = (ok a, s)

  abbrev pub raise : Error → Uow D A
  raise e s = (err e, s)

  -- A query: it reads what the session sees.
  abbrev pub gets : (D → A) → Uow D A
  gets f s = (ok (f s.working), s)

  abbrev pub or_raise : Option A → Error → Uow D A
  or_raise none e s = (err e, s)
  or_raise (some a) e s = (ok a, s)

  -- `except EventAlreadyExistsError: handler`
  abbrev pub handle_exists : Result A → Uow D A → Uow D A
  handle_exists (err (event_already_exists k)) handler s = handler s
  handle_exists r handler s = (r, s)

  abbrev pub except_exists : Uow D A → Uow D A → Uow D A
  except_exists m handler s = let (r, s') = m s in handle_exists r handler s'

  -- `except` clauses that see every error.
  abbrev pub handle_any : Result A → (Error → Uow D A) → Uow D A
  handle_any (ok a) handler s = (ok a, s)
  handle_any (err e) handler s = handler e s

  abbrev pub except_any : Uow D A → (Error → Uow D A) → Uow D A
  except_any m handler s = let (r, s') = m s in handle_any r handler s'

  -- `with uow_factory() as uow:` around a whole method.
  abbrev pub with_uow : Uow D A → D → Result A × D
  with_uow m d = let (r, s) = m (record { committed = d; working = d }) in (r, s.committed)

module _ {D : Type 0} where
  abbrev pub modify : (D → D) → Uow D (Unit {0})
  modify f s = (ok tt, record s { working = f s.working })

  abbrev pub commit : Uow D (Unit {0})
  commit s = (ok tt, record s { committed = s.working })

  abbrev pub rollback : Uow D (Unit {0})
  rollback s = (ok tt, record s { working = s.committed })

module _ {D A B : Type 0} where
  abbrev pub continue : Result A → (A → Uow D B) → Uow D B
  continue (ok a) f s = f a s
  continue (err e) f s = (err e, s)

  infixl 5 ◌>>=◌ ◌>>◌
  abbrev pub ◌>>=◌ : Uow D A → (A → Uow D B) → Uow D B
  ◌>>=◌ m f s = let (r, s') = m s in continue r f s'

  abbrev pub ◌>>◌ : Uow D A → Uow D B → Uow D B
  m >> k = m >>= λ _. k
