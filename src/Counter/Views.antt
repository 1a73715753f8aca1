-- ===== src/Counter/Views.antt =====
-- common/counter/traffic.go: the two numbers of a user, through the addresses of the storages.
use yav2bx.Base.{
  ℕ, ◌+◌, ◌<◌, ◌≡◌, refl, inl, inr, [], ◌∷◌, some, arith, if◌then◌else◌, nat_beq_iff, Option-cases,
}
use yav2bx.Int.{ℤ}
use yav2bx.Keys.{Str, str_eq, str_beq, str_beq_iff, nat_eq}
use yav2bx.Maps.{Map, lookup, insert, lookup-insert, Vals, insert-Vals, Vals-lookup}
use yav2bx.Counter.{
  TrafficStorage, TrafficCounter, zero_storage, new_traffic_counter, storage_at, get_counter,
  get_up_count, get_down_count,
}

-- The addresses in use are allocated, and no two users share one.
pub record IsValid (c : TrafficCounter) : Type 0 where
  pub allocated : Vals (λ a. a < c.next) c.counters
  pub apart :
      (i j : Str) (a : ℕ) → lookup i c.counters ≡ some a → lookup j c.counters ≡ some a → i ≡ j

pub new_traffic_counter-IsValid : IsValid new_traffic_counter
unfolding new_traffic_counter lookup
new_traffic_counter-IsValid = record {
  allocated = tt;
  apart = λ i j a p q. absurd (ground (arith, p));
}

Vals-weaken : (m : Map Str ℕ) (n k : ℕ) → n < k → Vals (λ a. a < n) m → Vals (λ a. a < k) m
Vals-weaken [] n k h v = tt
Vals-weaken ((i, a) ∷ m) n k h v = (omega (arith, v.0), Vals-weaken m n k h v.1)

pub get_counter-IsValid : (c : TrafficCounter) (id : Str) → IsValid c → IsValid (get_counter c id).0
unfolding get_counter
get_counter-IsValid c id v = elim (Option-cases (lookup id c.counters)) [
  | inr (a, q) ↦ rw (q, get_counter) v
  | inl q ↦
      rw (q, get_counter)
        (record {
          allocated =
              insert-Vals (λ a. a < c.next + 1) id c.next c.counters (omega arith)
                (Vals-weaken c.counters c.next (c.next + 1) (omega arith) v.allocated);
          apart = λ i j a p r. ground (
            arith,
            p,
            r,
            q,
            str_beq_iff id i,
            str_beq_iff id j,
            lookup-insert id i c.next c.counters,
            lookup-insert id j c.next c.counters,
            v.apart i j a,
            Vals-lookup (λ a. a < c.next) i c.counters a v.allocated,
            Vals-lookup (λ a. a < c.next) j c.counters a v.allocated,
          );
        })
]

-- The abstract view.
abbrev pub view : TrafficCounter → Str → ℤ × ℤ
view c j = (get_up_count c j, get_down_count c j)

pub get_counter-view :
    (c : TrafficCounter) (id j : Str) → IsValid c → view (get_counter c id).0 j ≡ view c j
unfolding get_counter get_up_count get_down_count
get_counter-view c id j v = elim (Option-cases (lookup id c.counters)) [
  | inr (a, q) ↦ rw (q, get_counter) refl
  | inl q ↦ elim (Option-cases (lookup j c.counters)) [
    | inl r ↦ ground (
      arith,
      q,
      r,
      str_beq_iff id j,
      lookup-insert id j c.next c.counters,
      lookup-insert c.next c.next zero_storage c.store,
    )
    | inr (b, r) ↦ ground (
      arith,
      q,
      r,
      str_beq_iff id j,
      lookup-insert id j c.next c.counters,
      lookup-insert c.next b zero_storage c.store,
      Vals-lookup (λ a. a < c.next) j c.counters b v.allocated r,
    )
  ]
]

-- A write to the storage of a user shows in that user's view alone.
pub write-view :
    (c : TrafficCounter) (id j : Str) (a : ℕ) (s : TrafficStorage)
    → IsValid c
    → lookup id c.counters ≡ some a
    → view (record c { store = insert a s c.store }) j
      ≡ (if str_beq id j then (s.up_counter, s.down_counter) else view c j)
unfolding get_up_count get_down_count
write-view c id j a s v q = elim (Option-cases (lookup j c.counters)) [
  | inl r ↦ ground (arith, q, r, str_beq_iff id j, lookup-insert a a s c.store)
  | inr (b, r) ↦ ground (
    arith,
    q,
    r,
    str_beq_iff id j,
    lookup-insert a b s c.store,
    nat_beq_iff a b,
    v.apart id j a,
    v.apart id j b,
  )
]

pub get_counter-lookup :
    (c : TrafficCounter) (id : Str)
    → lookup id (get_counter c id).0.counters ≡ some (get_counter c id).1
unfolding get_counter
get_counter-lookup c id = elim (Option-cases (lookup id c.counters)) [
  | inr (a, q) ↦ rw (q, get_counter) q
  | inl q ↦ ground (arith, q, str_beq_iff id id, lookup-insert id id c.next c.counters)
]

pub storage-view :
    (c : TrafficCounter) (id : Str) (a : ℕ)
    → lookup id c.counters ≡ some a
    → view c id ≡ ((storage_at c a).up_counter, (storage_at c a).down_counter)
unfolding get_up_count get_down_count
storage-view c id a q = ground (arith, q)
