-- ===== src/Node/Compare.antt =====
-- node/user.go, compareUserList: what changed between two user lists. The map from keys to indices of
-- the old list is modelled with its indices; `none` would be an index out of range.
use yav2bx.Base.{
  ℕ, zero, suc, ◌+◌, ◌≡◌, refl, ap, ◌∙◌, inl, inr, Bool, true, false, not, ◌&&◌, ◌||◌, List, [],
  ◌∷◌, ◌++◌, Option, none, some, arith, ◌>>=◌, Bool-cases, Option-cases, Ensures, Ensures-map,
}
use yav2bx.Keys.{Str, str_eq, str_beq, str_beq_iff}
use yav2bx.Maps.{Map, lookup, insert, erase, lookup-insert, lookup-erase}
use yav2bx.Panel.{UserInfo}
use yav2bx.Node.Key.{user_compare_key}

abbrev pub get_elem? : List UserInfo → ℕ → Option UserInfo
get_elem? [] i = none
get_elem? (x ∷ xs) zero = some x
get_elem? (x ∷ xs) (suc i) = get_elem? xs i

-- The loop over the old users, from index `i` on.
unfoldable pub index_users : Map Str ℕ → ℕ → List UserInfo → Map Str ℕ
index_users m i [] = m
index_users m i (u ∷ us) = index_users (insert (user_compare_key u) i m) (suc i) us

-- The loop over the new users: the indices that are left, and the added users.
unfoldable pub match_users : Map Str ℕ → List UserInfo → List UserInfo → Map Str ℕ × List UserInfo
match_users m added [] = (m, added)
match_users m added (u ∷ us) =
    let key = user_compare_key u in
    let known = match_users (erase key m) added us in
    let unknown = match_users m (added ++ (u ∷ [])) us in
    elim (lookup key m) [ none ↦ unknown | some _ ↦ known ]

-- The loop over the indices that are left.
unfoldable pub take_users : List UserInfo → Map Str ℕ → Option (List UserInfo)
take_users old [] = some []
take_users old ((_, i) ∷ m) = get_elem? old i >>= λ u. (take_users old m >>= λ us. some (u ∷ us))

-- compareUserList: the deleted and the added users.
unfoldable pub compare_user_list :
    List UserInfo → List UserInfo → Option (List UserInfo × List UserInfo)
compare_user_list old new =
    let r = match_users (index_users [] 0 old) [] new in
    take_users old r.0 >>= λ deleted. some (deleted, r.1)

abbrev pub same_key : UserInfo → Str → Bool
same_key u k = str_beq (user_compare_key u) k

-- A list has a user with the key.
abbrev pub has_key : Str → List UserInfo → Bool
has_key k [] = false
has_key k (u ∷ us) = same_key u k || has_key k us

abbrev known : Str → Map Str ℕ → Bool
known k m = elim (lookup k m) [ none ↦ false | some _ ↦ true ]

-- The indices of a map lead to users with the keys.
abbrev Indexes : List UserInfo → Map Str ℕ → Type 0
Indexes old [] = Unit
Indexes old ((k, i) ∷ m) =
    ((u : UserInfo) × ((get_elem? old i ≡ some u) × (user_compare_key u ≡ k))) × Indexes old m

insert-Indexes :
    (old : List UserInfo) (u : UserInfo) (i : ℕ) (m : Map Str ℕ)
    → get_elem? old i ≡ some u
    → Indexes old m
    → Indexes old (insert (user_compare_key u) i m)
unfolding insert
insert-Indexes old u i [] q h = ((u, (q, refl)), tt)
insert-Indexes old u i ((k, j) ∷ m) q h = elim (Bool-cases (str_beq k (user_compare_key u))) [
  | inl e ↦ rw e ((u, (q, refl)), h.1)
  | inr e ↦ rw e (h.0, insert-Indexes old u i m q h.1)
]

erase-Indexes :
    (old : List UserInfo) (k : Str) (m : Map Str ℕ) → Indexes old m → Indexes old (erase k m)
unfolding erase
erase-Indexes old k [] h = tt
erase-Indexes old k ((j, i) ∷ m) h = elim (Bool-cases (str_beq j k)) [
  | inl e ↦ rw e (erase-Indexes old k m h.1)
  | inr e ↦ rw e (h.0, erase-Indexes old k m h.1)
]

index_users-Indexes :
    (old : List UserInfo) (m : Map Str ℕ) (i : ℕ) (us : List UserInfo)
    → ((j : ℕ) → get_elem? old (j + i) ≡ get_elem? us j)
    → Indexes old m
    → Indexes old (index_users m i us)
unfolding index_users
index_users-Indexes old m i [] at h = h
index_users-Indexes old m i (u ∷ us) at h =
    index_users-Indexes old (insert (user_compare_key u) i m) (suc i) us
      (λ j. ap (get_elem? old) (omega arith) ∙ at (suc j))
      (insert-Indexes old u i m (ap (get_elem? old) (omega arith) ∙ at 0) h)

index_users-known :
    (k : Str) (m : Map Str ℕ) (i : ℕ) (us : List UserInfo)
    → known k (index_users m i us) ≡ (known k m || has_key k us)
unfolding index_users
index_users-known k m i [] = ground arith
index_users-known k m i (u ∷ us) = ground (
  arith,
  index_users-known k (insert (user_compare_key u) i m) (suc i) us,
  lookup-insert (user_compare_key u) k i m,
)

match_users-Indexes :
    (old : List UserInfo) (m : Map Str ℕ) (added new : List UserInfo)
    → Indexes old m
    → Indexes old (match_users m added new).0
unfolding match_users
match_users-Indexes old m added [] h = h
match_users-Indexes old m added (u ∷ us) h = elim (Option-cases (lookup (user_compare_key u) m)) [
  | inl q ↦ rw (q, match_users) (match_users-Indexes old m (added ++ (u ∷ [])) us h)
  | inr (i, q) ↦
      rw (q, match_users)
        (match_users-Indexes old (erase (user_compare_key u) m) added us
          (erase-Indexes old (user_compare_key u) m h))
]

match_users-known :
    (k : Str) (m : Map Str ℕ) (added new : List UserInfo)
    → known k (match_users m added new).0 ≡ (known k m && not (has_key k new))
unfolding match_users
match_users-known k m added [] = ground arith
match_users-known k m added (u ∷ us) = elim (Option-cases (lookup (user_compare_key u) m)) [
  | inl q ↦
      ground
        (arith, q, match_users-known k m (added ++ (u ∷ [])) us, str_beq_iff (user_compare_key u) k)
  | inr (i, q) ↦ ground (
    arith,
    q,
    match_users-known k (erase (user_compare_key u) m) added us,
    lookup-erase (user_compare_key u) k m,
  )
]

has_key-append :
    (k : Str) (us : List UserInfo) (u : UserInfo)
    → has_key k (us ++ (u ∷ [])) ≡ (has_key k us || same_key u k)
has_key-append k [] u = ground arith
has_key-append k (w ∷ us) u = ground (arith, has_key-append k us u)

-- No two users of a list have the same key.
abbrev pub KeysApart : List UserInfo → Type 0
KeysApart [] = Unit
KeysApart (u ∷ us) = (has_key (user_compare_key u) us ≡ false) × KeysApart us

match_users-added :
    (k : Str) (m : Map Str ℕ) (added new : List UserInfo)
    → KeysApart new
    → has_key k (match_users m added new).1
      ≡ (has_key k added || (has_key k new && not (known k m)))
unfolding match_users
match_users-added k m added [] a = ground arith
match_users-added k m added (u ∷ us) a = elim (Option-cases (lookup (user_compare_key u) m)) [
  | inl q ↦ ground (
    arith,
    q,
    a.0,
    match_users-added k m (added ++ (u ∷ [])) us a.1,
    has_key-append k added u,
    str_beq_iff (user_compare_key u) k,
  )
  | inr (i, q) ↦ ground (
    arith,
    q,
    a.0,
    match_users-added k (erase (user_compare_key u) m) added us a.1,
    lookup-erase (user_compare_key u) k m,
    str_beq_iff (user_compare_key u) k,
  )
]

take_users-known :
    (old : List UserInfo) (m : Map Str ℕ)
    → Indexes old m
    → Ensures (λ us. (k : Str) → has_key k us ≡ known k m) (take_users old m)
unfolding take_users lookup
take_users-known old [] h = λ k. refl
take_users-known old ((j, i) ∷ m) h = rw h.0.1.0 (
    Ensures-map (λ us. (k : Str) → has_key k us ≡ known k m) _ (take_users old m) _
      (take_users-known old m h.1) (λ us same k. ground (arith, same k, h.0.1.1)))

-- The users that are no longer there: the comparison gives a result, and a key is among the deleted
-- users exactly when the old list has it and the new one does not.
pub compare_user_list_deleted :
    (old new : List UserInfo)
    → Ensures
        (λ r. (k : Str) → has_key k r.0 ≡ (has_key k old && not (has_key k new)))
        (compare_user_list old new)
unfolding compare_user_list lookup
compare_user_list_deleted old new =
    let m = index_users [] 0 old in
    Ensures-map (λ us. (k : Str) → has_key k us ≡ known k (match_users m [] new).0) _
      (take_users old (match_users m [] new).0) _
      (take_users-known old (match_users m [] new).0 (
        match_users-Indexes old m [] new
          (index_users-Indexes old [] 0 old (λ j. ap (get_elem? old) (omega arith)) tt)))
      (λ us same k.
        same k
        ∙ match_users-known k m [] new
        ∙ ap (λ b. b && not (has_key k new)) (index_users-known k [] 0 old))

-- The users that are new: when no two users of the new list have the same key, a key is among the
-- added users exactly when the new list has it and the old one does not.
pub compare_user_list_added :
    (old new : List UserInfo)
    → KeysApart new
    → Ensures
        (λ r. (k : Str) → has_key k r.1 ≡ (has_key k new && not (has_key k old)))
        (compare_user_list old new)
unfolding compare_user_list lookup
compare_user_list_added old new apart =
    let m = index_users [] 0 old in
    Ensures-map (λ us. (k : Str) → has_key k us ≡ known k (match_users m [] new).0) _
      (take_users old (match_users m [] new).0) _
      (take_users-known old (match_users m [] new).0 (
        match_users-Indexes old m [] new
          (index_users-Indexes old [] 0 old (λ j. ap (get_elem? old) (omega arith)) tt)))
      (λ us same k.
        match_users-added k m [] new apart
        ∙ ap (λ b. has_key k new && not b) (index_users-known k [] 0 old))
