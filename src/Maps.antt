-- ===== src/Maps.antt =====
-- Go's maps and `sync.Map`: association lists whose keys are distinct. `Range` visits the entries in
-- the list's order, which Go leaves open, so the theorems speak of lookups and not of that order.
use yav2bx.Base.{
  suc, ◌≤◌, ◌≡◌, ◌≢◌, sym, refl, inl, inr, List, [], ◌∷◌, Option, none, some, arith, true,
  if◌then◌else◌, ◌>>=◌, length, Option-cases,
}
use yav2bx.Keys.{Eq, ◌==◌}

abbrev pub Map {ℓ κ} : Type ℓ → Type κ → Type (ℓ ⊔ κ)
Map K V = List (K × V)

module _ {ℓ κ} {K : Type ℓ} {V : Type κ} ⦃e : Eq K⦄ where
  unfoldable pub insert : K → V → Map K V → Map K V
  insert key new [] = (key, new) ∷ []
  insert key new ((j, old) ∷ rest) =
      if j == key then (key, new) ∷ rest else (j, old) ∷ insert key new rest

  unfoldable pub lookup : K → Map K V → Option V
  lookup key [] = none
  lookup key ((j, found) ∷ rest) = if j == key then some found else lookup key rest

  unfoldable pub erase : K → Map K V → Map K V
  erase k [] = []
  erase k ((j, w) ∷ m) = if j == k then erase k m else (j, w) ∷ erase k m

  -- A `Range` that keeps, rewrites or deletes each entry that it visits.
  unfoldable pub refine : (V → Option V) → Map K V → Map K V
  refine f [] = []
  refine f ((j, w) ∷ m) = elim (f w) [ none ↦ refine f m | some v ↦ (j, v) ∷ refine f m ]

  abbrev pub Distinct : Map K V → Type κ
  Distinct [] = Unit
  Distinct ((j, w) ∷ m) = (lookup j m ≡ none) × Distinct m

  pub lookup-insert :
      (key other : K) (new : V) (m : Map K V)
      → lookup other (insert key new m) ≡ (if key == other then some new else lookup other m)
  unfolding insert lookup
  lookup-insert key other new [] = refl
  lookup-insert key other new ((i, old) ∷ rest) = ground (
    arith,
    lookup-insert key other new rest,
    e.beq_iff i key,
    e.beq_iff i other,
    e.beq_iff key other,
  )

  pub lookup-erase :
      (k j : K) (m : Map K V) → lookup j (erase k m) ≡ (if k == j then none else lookup j m)
  unfolding lookup erase
  lookup-erase k j [] = ground arith
  lookup-erase k j ((i, w) ∷ m) =
      ground (arith, e.beq_iff k j, e.beq_iff i k, e.beq_iff i j, lookup-erase k j m)

  pub insert-Distinct : (k : K) (v : V) (m : Map K V) → Distinct m → Distinct (insert k v m)
  unfolding insert lookup
  insert-Distinct k v [] d = (refl, tt)
  insert-Distinct k v ((i, w) ∷ m) d =
      ground (arith, e.beq_iff i k, e.beq_iff k i, lookup-insert k i v m, insert-Distinct k v m d.1)

  pub erase-Distinct : (k : K) (m : Map K V) → Distinct m → Distinct (erase k m)
  unfolding erase
  erase-Distinct k [] d = d
  erase-Distinct k ((i, w) ∷ m) d =
      ground (arith, e.beq_iff i k, e.beq_iff k i, lookup-erase k i m, erase-Distinct k m d.1)

  lookup-refine-none :
      (f : V → Option V) (k : K) (m : Map K V) → lookup k m ≡ none → lookup k (refine f m) ≡ none
  unfolding lookup refine
  lookup-refine-none f k [] h = refl
  lookup-refine-none f k ((i, w) ∷ m) h = ground (arith, lookup-refine-none f k m)

  pub lookup-refine :
      (f : V → Option V) (k : K) (m : Map K V)
      → Distinct m
      → lookup k (refine f m) ≡ (lookup k m >>= f)
  unfolding lookup refine
  lookup-refine f k [] d = refl
  lookup-refine f k ((i, w) ∷ m) d =
      ground (arith, e.beq_iff i k, lookup-refine f k m d.1, lookup-refine-none f i m d.0)

  pub refine-Distinct : (f : V → Option V) (m : Map K V) → Distinct m → Distinct (refine f m)
  unfolding refine
  refine-Distinct f [] d = d
  refine-Distinct f ((i, w) ∷ m) d =
      ground (arith, lookup-refine-none f i m d.0, refine-Distinct f m d.1)

  pub lookup-insert_self : (k : K) (v : V) (m : Map K V) → lookup k (insert k v m) ≡ some v
  lookup-insert_self k v m =
      rw (lookup-insert k k v m, e.beq_iff k k) (ground (arith, e.beq_iff k k))

  pub lookup-erase_self : (k : K) (m : Map K V) → lookup k (erase k m) ≡ none
  lookup-erase_self k m = rw lookup-erase (ground (arith, e.beq_iff k k))

  pub lookup-insert_ne :
      (k j : K) (v : V) (m : Map K V) → j ≢ k → lookup j (insert k v m) ≡ lookup j m
  lookup-insert_ne k j v m ne = rw lookup-insert (ground (arith, e.beq_iff k j, other))
    where
      other : e.beq k j ≡ true → ⊥
      other q = ne (sym ((e.beq_iff k j).0 q))

  -- A store adds an entry exactly when the key is new.
  pub length-insert :
      (k : K) (v : V) (m : Map K V)
      → length (insert k v m) ≡ elim (lookup k m) [ none ↦ suc (length m) | some _ ↦ length m ]
  unfolding lookup insert
  length-insert k v [] = refl
  length-insert k v ((i, w) ∷ m) = ground (arith, length-insert k v m)

  pub length-erase : (k : K) (m : Map K V) → length (erase k m) ≤ length m
  unfolding erase
  length-erase k [] = omega arith
  length-erase k ((i, w) ∷ m) = ground (arith, length-erase k m)

  pub length-refine : (f : V → Option V) (m : Map K V) → length (refine f m) ≤ length m
  unfolding refine
  length-refine f [] = omega arith
  length-refine f ((i, w) ∷ m) = ground (arith, length-refine f m)

-- A predicate that holds of every value of a map.
module _ {ℓ κ μ} {K : Type ℓ} {V : Type κ} ⦃e : Eq K⦄ (P : V → Type μ) where
  abbrev pub Vals : Map K V → Type μ
  Vals [] = Unit
  Vals ((j, w) ∷ m) = P w × Vals m

  pub Vals-lookup : (k : K) (m : Map K V) (v : V) → Vals m → lookup k m ≡ some v → P v
  unfolding lookup
  Vals-lookup k [] v h q = cc
  Vals-lookup k ((i, w) ∷ m) v h q = ground (arith, Vals-lookup k m v h.1)

  pub insert-Vals : (k : K) (v : V) (m : Map K V) → P v → Vals m → Vals (insert k v m)
  unfolding insert
  insert-Vals k v [] p h = (p, tt)
  insert-Vals k v ((i, w) ∷ m) p h = ground (arith, insert-Vals k v m p h.1)

  pub erase-Vals : (k : K) (m : Map K V) → Vals m → Vals (erase k m)
  unfolding erase
  erase-Vals k [] h = h
  erase-Vals k ((i, w) ∷ m) h = ground (arith, erase-Vals k m h.1)

  pub refine-Vals :
      (f : V → Option V) (m : Map K V)
      → ((v w : V) → P v → f v ≡ some w → P w)
      → Vals m
      → Vals (refine f m)
  unfolding refine
  refine-Vals f [] keep h = h
  refine-Vals f ((i, w) ∷ m) keep h = elim (Option-cases (f w)) [
    | inl q ↦ rw (q, refine) (refine-Vals f m keep h.1)
    | inr (v, q) ↦ rw (q, refine) (keep w v h.0 q, refine-Vals f m keep h.1)
  ]
