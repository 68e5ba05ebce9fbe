-- ===== src/Oms/Recovery/Refinement.antt =====
-- What `create_order` and `recover_order` leave, as steps of the journal.
use yanzl.Prelude.{
  ℕ, ◌≡◌, refl, true, false, Option, none, some, ◌⊎◌, inl, inr, [], ◌∷◌, map, String, ap, sym,
  arith,
}
use yanzl.Prelude.Tests.{Bool-cases, Option-cases}
use yanzl.Prelude.Equality.{◌==◌, Option_eq}
use yanzl.Prelude.Lists.{contains}
use yanzl.Domain.Enums.{OrderStatus, created, unknown, oms, OrderStatus_eq, status_eq_iff}
use yanzl.Domain.Orders.{OrderId, numeral, malformed, OrderRequest, OrderEvent, Payload}
use yanzl.Oms.Status.{can_transition, is_terminal, unknown_recovery_targets}
use yanzl.Oms.Store.{
  OrderRow, OmsDb, find_order, find_client_order, find_event, order_to_domain, new_order, events_of,
  order_event_to_domain,
}
use yanzl.Oms.Store.Laws.{find_order-append_self}
use yanzl.Oms.Events.{Format, initial_event_id}
use yanzl.Oms.Journal.{open_order, moved, opened, Steps, here, next, same_db}
use yanzl.Oms.Writes.{oms_event, enter_unknown, recovery_event}
use yanzl.Oms.Writes.Effects.{clean, recover_unknown-db}
use yanzl.Oms.Service.Dispatch.{enter_unknown-db}
use yanzl.Oms.Recovery.{create_order, recover_order, reconcile, replay_status, resolve_unknown}

abbrev pub initial_event : Format → ℕ → ℕ → OrderEvent
initial_event fmt now id =
    oms_event (numeral id) none created (initial_event_id fmt (numeral id))
      (("reason", some "order_created") ∷ []) now

-- Creating an order leaves the database as it was, or it writes the order and its first event together,
-- where the row's key, the client's key and the event's key are all new.
pub create_order-db :
    (fmt : Format) (now id : ℕ) (request : OrderRequest) (key : String) (d : OmsDb)
    → let d' = (create_order fmt now id request key d).1 in
      (d' ≡ d)
      ⊎ ((find_order id d.orders ≡ none)
          × (find_client_order key d.orders ≡ none)
          × (find_event oms (initial_event_id fmt (numeral id)) d.events ≡ none)
          × (d' ≡ open_order d id request key (initial_event fmt now id)))
unfolding create_order
create_order-db fmt now id request key d =
    ground (arith, find_order-append_self d.orders (new_order id request key))

-- Creating an order opens it, or finds it, and never touches another order.
pub create_order-Steps :
    (fmt : Format) (now id : ℕ) (request : OrderRequest) (key : String) (d : OmsDb)
    → Steps d (create_order fmt now id request key d).1
create_order-Steps fmt now id request key d = elim (create_order-db fmt now id request key d) [
  | inl same ↦ same_db same
  | inr (free, unused, new, is) ↦
      next here (opened id request key (initial_event fmt now id) free unused refl refl new is)
]

-- A recovery target is what UNKNOWN may move to.
recovery_target_allowed :
    (s : OrderStatus) → contains unknown_recovery_targets s ≡ true → can_transition unknown s ≡ true
unfolding can_transition
recovery_target_allowed s h = h

module _ (d : OmsDb) (id : ℕ) (r : OrderRow) (found : find_order id d.orders ≡ some r) where
  resolve_unknown-Steps :
      (fmt : Format) (now : ℕ) (o : Option OrderStatus)
      → r.status ≡ unknown
      → Steps d (resolve_unknown fmt now (order_to_domain r) o (clean d)).1.committed
  resolve_unknown-Steps fmt now none lost = here
  resolve_unknown-Steps fmt now (some s) lost =
      elim (Bool-cases (contains unknown_recovery_targets s)) [
        | inr other ↦ rw other here
        | inl target ↦
            let allowed = recovery_target_allowed s target in
            let e = recovery_event fmt now (numeral id) s in
            rw target (elim (recover_unknown-db d id r found fmt now s allowed) [
              | inl same ↦ same_db same
              | inr (new, is) ↦
                  next here (moved id r e found (ap some (sym lost)) (rw lost allowed) new is)
            ])
      ]

  enter_unknown-Steps :
      (reason key : String) (now : ℕ) (payload : Payload)
      → Steps d (enter_unknown (order_to_domain r) reason key now payload (clean d)).1.committed
  enter_unknown-Steps reason key now payload =
      elim (enter_unknown-db d id r found reason key now payload) [
        | inl same ↦ same_db same
        | inr (allowed, new, is) ↦
            let e = oms_event (numeral id) (some r.status) unknown key payload now in
            next here (moved id r e found refl allowed new is)
      ]

  reconcile-Steps :
      (fmt : Format) (now : ℕ) (o : Option OrderStatus)
      → Steps d (reconcile fmt now (order_to_domain r) o (clean d)).1.committed
  unfolding reconcile
  reconcile-Steps fmt now o = elim (Bool-cases (o == some r.status)) [
    | inl same ↦ rw same here
    | inr differs ↦ rw differs (elim (Bool-cases (r.status == unknown)) [
      | inl lost ↦
          rw lost (resolve_unknown-Steps fmt now o ((status_eq_iff r.status unknown).0 lost))
      | inr known ↦ rw known (enter_unknown-Steps _ _ now _)
    ])
  ]

  recover_order-eq_reconcile :
      (fmt : Format) (now : ℕ)
      → is_terminal r.status ≡ false
      → (recover_order fmt now (numeral id) d).1
        ≡ (reconcile fmt now
            (order_to_domain r)
            (replay_status (map order_event_to_domain (events_of id d.events)))
            (clean d)).1.committed
  unfolding recover_order
  recover_order-eq_reconcile fmt now live = ground arith

  recover_order-terminal :
      (fmt : Format) (now : ℕ)
      → is_terminal r.status ≡ true
      → (recover_order fmt now (numeral id) d).1 ≡ d
  unfolding recover_order
  recover_order-terminal fmt now ended = ground arith

no_order-same :
    (fmt : Format) (now : ℕ) (o : OrderId) (d : OmsDb)
    → (elim o [ numeral id ↦ find_order id d.orders | malformed t ↦ none ]) ≡ none
    → (recover_order fmt now o d).1 ≡ d
unfolding recover_order
no_order-same fmt now o d missing = ground arith

-- A recovery moves an order whose events disagree with its status, or writes nothing.
pub recover_order-Steps :
    (fmt : Format) (now : ℕ) (o : OrderId) (d : OmsDb) → Steps d (recover_order fmt now o d).1
recover_order-Steps fmt now (malformed t) d = same_db (no_order-same fmt now (malformed t) d refl)
recover_order-Steps fmt now (numeral id) d = elim (Option-cases (find_order id d.orders)) [
  | inl missing ↦ same_db (no_order-same fmt now (numeral id) d missing)
  | inr (r, found) ↦ elim (Bool-cases (is_terminal r.status)) [
    | inl ended ↦ same_db (recover_order-terminal d id r found fmt now ended)
    | inr live ↦
        rw (recover_order-eq_reconcile d id r found fmt now live)
          (reconcile-Steps d id r found fmt now _)
  ]
]
