-- ===== src/Counter/Refines.antt =====
-- common/counter/traffic.go against its abstract view: a total map from the users to two numbers.
use yav2bx.Base.{
  ℕ, ◌<◌, ◌≡◌, refl, ap, ◌∙◌, inl, inr, List, [], ◌∷◌, none, some, arith, if◌then◌else◌,
  Option-cases,
}
use yav2bx.Int.{ℤ, pos, ◌+ℤ◌, wrap64}
use yav2bx.Keys.{Str, str_eq, str_beq, str_beq_iff, nat_eq}
use yav2bx.Maps.{lookup, insert, lookup-erase, erase-Vals}
use yav2bx.Counter.{
  TrafficCounter, new_traffic_counter, storage_at, get_counter, get_up_count, get_down_count,
  add_up, add_down, store_up, store_down, reset, delete, rx, tx,
}
use yav2bx.Counter.Views.{
  IsValid, new_traffic_counter-IsValid, get_counter-IsValid, view, get_counter-view, write-view,
  get_counter-lookup, storage-view,
}

-- The calls of a counter.
pub data Op : Type 0 where
  txs rxs : Str → ℤ → Op
  resets deletes gets : Str → Op

unfoldable pub run_op : Op → TrafficCounter → TrafficCounter
run_op (txs id n) c = tx c id n
run_op (rxs id n) c = rx c id n
run_op (resets id) c = reset c id
run_op (deletes id) c = delete c id
run_op (gets id) c = (get_counter c id).0

-- The abstract effect of a call on one user's two numbers.
abbrev pub spec_op : Op → Str → ℤ × ℤ → ℤ × ℤ
spec_op (txs id n) j (u, d) = if str_beq id j then (wrap64 (u +ℤ n), d) else (u, d)
spec_op (rxs id n) j (u, d) = if str_beq id j then (u, wrap64 (d +ℤ n)) else (u, d)
spec_op (resets id) j (u, d) = if str_beq id j then (pos 0, pos 0) else (u, d)
spec_op (deletes id) j (u, d) = if str_beq id j then (pos 0, pos 0) else (u, d)
spec_op (gets id) j p = p

pub run_op-IsValid : (o : Op) (c : TrafficCounter) → IsValid c → IsValid (run_op o c)
unfolding run_op tx rx reset delete add_up add_down store_up store_down
run_op-IsValid (txs id n) c v =
    let w = get_counter-IsValid c id v in record { allocated = w.allocated; apart = w.apart }
run_op-IsValid (rxs id n) c v =
    let w = get_counter-IsValid c id v in record { allocated = w.allocated; apart = w.apart }
run_op-IsValid (gets id) c v = get_counter-IsValid c id v
run_op-IsValid (resets id) c v = elim (Option-cases (lookup id c.counters)) [
  | inl q ↦ rw (q, reset) v
  | inr (a, q) ↦ rw (q, reset) (record { allocated = v.allocated; apart = v.apart })
]
run_op-IsValid (deletes id) c v = record {
  allocated = erase-Vals (λ a. a < c.next) id c.counters v.allocated;
  apart = λ i j a p r. ground (
    arith,
    p,
    r,
    str_beq_iff id i,
    str_beq_iff id j,
    lookup-erase id i c.counters,
    lookup-erase id j c.counters,
    v.apart i j a,
  );
}

module _ (c : TrafficCounter) (id j : Str) (v : IsValid c) where
  tx-view : (n : ℤ) → view (tx c id n) j ≡ spec_op (txs id n) j (view c j)
  unfolding tx add_up
  tx-view n =
      let r = get_counter c id in
      let at = get_counter-lookup c id in
      let s = storage_at r.0 r.1 in
      ground (
        arith,
        write-view r.0 id j r.1 (record s { up_counter = wrap64 (s.up_counter +ℤ n) })
            (get_counter-IsValid c id v) at,
        storage-view r.0 id r.1 at,
        get_counter-view c id j v,
        get_counter-view c id id v,
        str_beq_iff id j,
      )

  rx-view : (n : ℤ) → view (rx c id n) j ≡ spec_op (rxs id n) j (view c j)
  unfolding rx add_down
  rx-view n =
      let r = get_counter c id in
      let at = get_counter-lookup c id in
      let s = storage_at r.0 r.1 in
      ground (
        arith,
        write-view r.0 id j r.1 (record s { down_counter = wrap64 (s.down_counter +ℤ n) })
            (get_counter-IsValid c id v) at,
        storage-view r.0 id r.1 at,
        get_counter-view c id j v,
        get_counter-view c id id v,
        str_beq_iff id j,
      )

  reset_known :
      (a : ℕ)
      → lookup id c.counters ≡ some a
      → view (store_down (store_up c a (pos 0)) a (pos 0)) j ≡ spec_op (resets id) j (view c j)
  unfolding store_up store_down
  reset_known a q =
      let s1 = record (storage_at c a) { up_counter = pos 0 } in
      let c1 = record c { store = insert a s1 c.store } in
      let valid : IsValid c1 = record { allocated = v.allocated; apart = v.apart } in
      ground (
        arith,
        write-view c1 id j a (record (storage_at c1 a) { down_counter = pos 0 }) valid q,
        write-view c id j a s1 v q,
        write-view c id id a s1 v q,
        storage-view c1 id a q,
        str_beq_iff id j,
        str_beq_iff id id,
      )

  view_unknown : lookup id c.counters ≡ none → view c id ≡ (pos 0, pos 0)
  unfolding get_up_count get_down_count
  view_unknown q = ground (arith, q)

  delete-view : view (delete c id) j ≡ spec_op (deletes id) j (view c j)
  unfolding delete get_up_count get_down_count
  delete-view = ground (arith, lookup-erase id j c.counters)

  reset-view : view (reset c id) j ≡ spec_op (resets id) j (view c j)
  unfolding reset
  reset-view = elim (Option-cases (lookup id c.counters)) [
    | inl q ↦ rw (q, reset) (ground (arith, view_unknown q, str_beq_iff id j))
    | inr (a, q) ↦ rw (q, reset) (reset_known a q)
  ]

pub run_op-view :
    (o : Op) (c : TrafficCounter) (j : Str)
    → IsValid c
    → view (run_op o c) j ≡ spec_op o j (view c j)
unfolding run_op
run_op-view (gets id) c j v = get_counter-view c id j v
run_op-view (txs id n) c j v = tx-view c id j v n
run_op-view (rxs id n) c j v = rx-view c id j v n
run_op-view (resets id) c j v = reset-view c id j v
run_op-view (deletes id) c j v = delete-view c id j v

pub run_ops : List Op → TrafficCounter → TrafficCounter
run_ops [] c = c
run_ops (o ∷ os) c = run_ops os (run_op o c)

abbrev pub spec_ops : List Op → Str → ℤ × ℤ → ℤ × ℤ
spec_ops [] j p = p
spec_ops (o ∷ os) j p = spec_ops os j (spec_op o j p)

run_ops-view :
    (os : List Op) (c : TrafficCounter) (j : Str)
    → IsValid c
    → view (run_ops os c) j ≡ spec_ops os j (view c j)
unfolding run_ops
run_ops-view [] c j v = refl
run_ops-view (o ∷ os) c j v =
    run_ops-view os (run_op o c) j (run_op-IsValid o c v) ∙ ap (spec_ops os j) (run_op-view o c j v)

-- After any calls on a new counter, GetUpCount and GetDownCount of every user are what the calls say:
-- the wrapped sums of what Tx and Rx counted for that user since its last Reset or Delete.
pub run_ops_lem :
    (os : List Op) (j : Str)
    → view (run_ops os new_traffic_counter) j ≡ spec_ops os j (pos 0, pos 0)
unfolding new_traffic_counter get_up_count get_down_count lookup
run_ops_lem os j = run_ops-view os new_traffic_counter j new_traffic_counter-IsValid
