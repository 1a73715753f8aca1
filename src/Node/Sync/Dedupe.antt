-- ===== src/Node/Sync/Dedupe.antt =====
-- node/user.go, dedupeOnlineUsersByIP.
use yav2bx.Base.{
  ℕ, ◌+◌, ◌≡◌, refl, Bool, true, false, not, ◌&&◌, ◌||◌, List, [], ◌∷◌, arith, ◌∙◌, ap,
  if◌then◌else◌,
}
use yav2bx.Int.{ℤ, eq_ℤ, eq_ℤ_iff}
use yav2bx.Keys.{Str, str_eq, str_beq, str_beq_iff, int_eq, pair_eq}
use yav2bx.Maps.{lookup, insert, lookup-insert}
use yav2bx.Panel.{OnlineUser, normalize_ip}
use yav2bx.Node.Sync.{
  Seen, str_lt, insert_sorted, sort, online_less, has_seen, dedupe_online_users,
  dedupe_online_users_by_ip,
}

-- Whether an entry is the one of a user and an address, and how many of a list are.
abbrev is_entry : ℤ → Str → OnlineUser → Bool
is_entry uid ip o = eq_ℤ o.uid uid && str_beq o.ip ip

abbrev pub count : ℤ → Str → List OnlineUser → ℕ
count uid ip [] = 0
count uid ip (o ∷ os) = (if is_entry uid ip o then 1 else 0) + count uid ip os

-- Whether a user is online from an address, in its normal form.
abbrev pub is_online : ℤ → Str → List OnlineUser → Bool
is_online uid ip [] = false
is_online uid ip (o ∷ os) =
    (eq_ℤ o.uid uid && str_beq (normalize_ip o.ip) ip) || is_online uid ip os

-- No entry stands before a smaller one.
abbrev pub Sorted {ℓ} : {A : Type ℓ} → (A → A → Bool) → List A → Type 0
Sorted less [] = Unit
Sorted less (x ∷ []) = Unit
Sorted less (x ∷ y ∷ ys) = (less y x ≡ false) × Sorted less (y ∷ ys)

module _ {ℓ} {A : Type ℓ} (less : A → A → Bool)
    (asym : (a b : A) → less a b ≡ true → less b a ≡ false) where
  insert_sorted-Sorted :
      (x : A) (xs : List A) → Sorted less xs → Sorted less (insert_sorted less x xs)
  unfolding insert_sorted
  insert_sorted-Sorted x [] s = tt
  insert_sorted-Sorted x (y ∷ []) s = ground (arith, asym y x)
  insert_sorted-Sorted x (y ∷ z ∷ zs) s =
      ground (arith, asym y x, s, insert_sorted-Sorted x (z ∷ zs) s.1)

  sort-Sorted : (xs : List A) → Sorted less (sort less xs)
  unfolding sort
  sort-Sorted [] = tt
  sort-Sorted (x ∷ xs) = insert_sorted-Sorted x (sort less xs) (sort-Sorted xs)

str_lt-asym : (a b : Str) → str_lt a b ≡ true → str_lt b a ≡ false
unfolding str_lt
str_lt-asym a [] h = absurd (ground (arith, h))
str_lt-asym [] (y ∷ ys) h = refl
str_lt-asym (x ∷ xs) (y ∷ ys) h = ground (arith, h, str_lt-asym xs ys)

online_less-asym : (a b : OnlineUser) → online_less a b ≡ true → online_less b a ≡ false
online_less-asym a b h = ground (arith, h, str_lt-asym a.ip b.ip)

count-insert_sorted :
    (uid : ℤ) (ip : Str) (x : OnlineUser) (xs : List OnlineUser)
    → count uid ip (insert_sorted online_less x xs) ≡ count uid ip (x ∷ xs)
unfolding insert_sorted
count-insert_sorted uid ip x [] = refl
count-insert_sorted uid ip x (y ∷ ys) = ground (arith, count-insert_sorted uid ip x ys)

count-sort :
    (uid : ℤ) (ip : Str) (xs : List OnlineUser)
    → count uid ip (sort online_less xs) ≡ count uid ip xs
unfolding sort
count-sort uid ip [] = refl
count-sort uid ip (x ∷ xs) =
    count-insert_sorted uid ip x (sort online_less xs)
    ∙ ap (λ n. (if is_entry uid ip x then 1 else 0) + n) (count-sort uid ip xs)

count-dedupe_online_users :
    (uid : ℤ) (ip : Str) (seen : Seen) (us : List OnlineUser)
    → count uid ip (dedupe_online_users seen us) ≡ (
        if not (str_beq ip []) && (is_online uid ip us && not (has_seen (uid, ip) seen))
        then 1
        else 0)
unfolding dedupe_online_users
count-dedupe_online_users uid ip seen [] = ground arith
count-dedupe_online_users uid ip seen (u ∷ us) = ground (
  arith,
  count-dedupe_online_users uid ip (insert (u.uid, normalize_ip u.ip) tt seen) us,
  count-dedupe_online_users uid ip seen us,
  lookup-insert (u.uid, normalize_ip u.ip) (uid, ip) tt seen,
  eq_ℤ_iff u.uid uid,
  str_beq_iff (normalize_ip u.ip) ip,
)

-- The online users of a report: an entry is there once, if its address is not empty and the user is
-- online from it, in its normal form, and else it is not there; and the entries are in order.
dedupe_online_users_by_ip_lem :
    (uid : ℤ) (ip : Str) (users : List OnlineUser)
    → (count uid ip (dedupe_online_users_by_ip users)
        ≡ (if not (str_beq ip []) && is_online uid ip users then 1 else 0))
      × Sorted online_less (dedupe_online_users_by_ip users)
unfolding dedupe_online_users_by_ip lookup
dedupe_online_users_by_ip_lem uid ip users = (
  count-sort uid ip (dedupe_online_users [] users)
      ∙ count-dedupe_online_users uid ip [] users
      ∙ ground arith,
  sort-Sorted online_less online_less-asym (dedupe_online_users [] users),
)
