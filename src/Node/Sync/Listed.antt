-- ===== src/Node/Sync/Listed.antt =====
-- node/user.go, dedupeOnlineIPMapByIP: the result lists what the loops have seen.
use yav2bx.Base.{
  ℕ, ◌+◌, ◌≡◌, refl, Bool, true, false, not, ◌&&◌, ◌||◌, List, [], ◌∷◌, ◌++◌, map, arith, ◌∙◌, ap,
  if◌then◌else◌, Bool-cases, inl, inr,
}
use yav2bx.Int.{ℤ, eq_ℤ, lt_ℤ, eq_ℤ_iff}
use yav2bx.Keys.{Str, str_eq, str_beq, str_beq_iff, int_eq, pair_eq}
use yav2bx.Maps.{Map, lookup, insert, lookup-insert}
use yav2bx.Panel.{normalize_ip}
use yav2bx.Limiter.Online.{append_ip}
use yav2bx.Limiter.Reports.{list_at, append_ip-list_at}
use yav2bx.Node.Sync.{Seen, str_lt, insert_sorted, sort, has_seen, dedupe_ips, dedupe_uids}

-- How often a list has an address, and whether it has one of that normal form.
abbrev pub count_ip : Str → List Str → ℕ
count_ip ip [] = 0
count_ip ip (x ∷ xs) = (if str_beq x ip then 1 else 0) + count_ip ip xs

abbrev pub has_ip : Str → List Str → Bool
has_ip ip [] = false
has_ip ip (x ∷ xs) = str_beq (normalize_ip x) ip || has_ip ip xs

count_ip-append :
    (ip : Str) (xs : List Str) (x : Str)
    → count_ip ip (xs ++ (x ∷ [])) ≡ count_ip ip xs + (if str_beq x ip then 1 else 0)
count_ip-append ip [] x = ground arith
count_ip-append ip (y ∷ xs) x = ground (arith, count_ip-append ip xs x)

count_ip-insert_sorted :
    (ip x : Str) (xs : List Str) → count_ip ip (insert_sorted str_lt x xs) ≡ count_ip ip (x ∷ xs)
unfolding insert_sorted
count_ip-insert_sorted ip x [] = refl
count_ip-insert_sorted ip x (y ∷ ys) = ground (arith, count_ip-insert_sorted ip x ys)

count_ip-sort : (ip : Str) (xs : List Str) → count_ip ip (sort str_lt xs) ≡ count_ip ip xs
unfolding sort
count_ip-sort ip [] = refl
count_ip-sort ip (x ∷ xs) =
    ground (arith, count_ip-insert_sorted ip x (sort str_lt xs), count_ip-sort ip xs)

-- The loop over the addresses of one user.
dedupe_ips-has_seen :
    (uid u : ℤ) (ip : Str) (ips : List Str) (r : Seen × Map ℤ (List Str))
    → has_seen (u, ip) (dedupe_ips uid ips r).0
      ≡ (has_seen (u, ip) r.0 || (eq_ℤ uid u && (not (str_beq ip []) && has_ip ip ips)))
unfolding dedupe_ips
dedupe_ips-has_seen uid u ip [] r = ground arith
dedupe_ips-has_seen uid u ip (x ∷ ips) r = ground (
  arith,
  dedupe_ips-has_seen uid u ip ips r,
  dedupe_ips-has_seen uid u ip ips
      (insert (uid, normalize_ip x) tt r.0, append_ip uid (normalize_ip x) r.1),
  lookup-insert (uid, normalize_ip x) (u, ip) tt r.0,
  eq_ℤ_iff uid u,
  str_beq_iff (normalize_ip x) ip,
)

-- The result lists what was seen.
abbrev pub Lists : Seen × Map ℤ (List Str) → Type 0
Lists r = (u : ℤ) (ip : Str) → count_ip ip (list_at u r.1) ≡ (if has_seen (u, ip) r.0 then 1 else 0)

append-Lists :
    (uid : ℤ) (x : Str) (r : Seen × Map ℤ (List Str))
    → has_seen (uid, x) r.0 ≡ false
    → Lists r
    → Lists (insert (uid, x) tt r.0, append_ip uid x r.1)
append-Lists uid x r fresh h u ip =
    ap (count_ip ip) (append_ip-list_at uid u x r.1) ∙ elim (Bool-cases (eq_ℤ uid u)) [
      | inl e ↦ rw e (
          count_ip-append ip (list_at u r.1) x
          ∙ ground (
            arith,
            e,
            fresh,
            h u ip,
            lookup-insert (uid, x) (u, ip) tt r.0,
            eq_ℤ_iff uid u,
            str_beq_iff x ip,
          ))
      | inr e ↦ rw e (ground (arith, e, h u ip, lookup-insert (uid, x) (u, ip) tt r.0))
    ]

if-Lists :
    (b : Bool) (p r : Seen × Map ℤ (List Str))
    → (b ≡ true → Lists p)
    → Lists r
    → Lists (if b then p else r)
if-Lists true p r h k = h refl
if-Lists false p r h k = k

dedupe_ips-Lists :
    (uid : ℤ) (ips : List Str) (r : Seen × Map ℤ (List Str))
    → Lists r
    → Lists (dedupe_ips uid ips r)
unfolding dedupe_ips
dedupe_ips-Lists uid [] r h = h
dedupe_ips-Lists uid (x ∷ ips) r h = dedupe_ips-Lists uid ips _ (
    if-Lists (not (str_beq (normalize_ip x) []) && not (has_seen (uid, normalize_ip x) r.0)) _ r
      (λ e. append-Lists uid (normalize_ip x) r (ground (arith, e)) h) h)

-- The loop over the users.
abbrev has_user : ℤ → List ℤ → Bool
has_user u [] = false
has_user u (x ∷ xs) = eq_ℤ x u || has_user u xs

pub dedupe_uids-has_seen :
    (by_uid : Map ℤ (List Str)) (u : ℤ) (ip : Str) (uids : List ℤ) (r : Seen × Map ℤ (List Str))
    → has_seen (u, ip) (dedupe_uids by_uid uids r).0 ≡ (
        has_seen (u, ip) r.0
        || (has_user u uids && (not (str_beq ip []) && has_ip ip (list_at u by_uid))))
unfolding dedupe_uids
dedupe_uids-has_seen by_uid u ip [] r = ground arith
dedupe_uids-has_seen by_uid u ip (x ∷ uids) r = ground (
  arith,
  dedupe_uids-has_seen by_uid u ip uids (dedupe_ips x (list_at x by_uid) r),
  dedupe_ips-has_seen x u ip (list_at x by_uid) r,
  eq_ℤ_iff x u,
)

pub dedupe_uids-Lists :
    (by_uid : Map ℤ (List Str)) (uids : List ℤ) (r : Seen × Map ℤ (List Str))
    → Lists r
    → Lists (dedupe_uids by_uid uids r)
unfolding dedupe_uids
dedupe_uids-Lists by_uid [] r h = h
dedupe_uids-Lists by_uid (x ∷ uids) r h =
    dedupe_uids-Lists by_uid uids _ (dedupe_ips-Lists x (list_at x by_uid) r h)

-- The sorted keys of a map are its keys.
has_user-insert_sorted :
    (u x : ℤ) (xs : List ℤ) → has_user u (insert_sorted lt_ℤ x xs) ≡ has_user u (x ∷ xs)
unfolding insert_sorted
has_user-insert_sorted u x [] = refl
has_user-insert_sorted u x (y ∷ ys) = ground (arith, has_user-insert_sorted u x ys)

pub has_user-sort : (u : ℤ) (xs : List ℤ) → has_user u (sort lt_ℤ xs) ≡ has_user u xs
unfolding sort
has_user-sort u [] = refl
has_user-sort u (x ∷ xs) =
    ground (arith, has_user-insert_sorted u x (sort lt_ℤ xs), has_user-sort u xs)

pub keys-list_at :
    (u : ℤ) (ip : Str) (m : Map ℤ (List Str))
    → (has_user u (map (λ e. e.0) m) && has_ip ip (list_at u m)) ≡ has_ip ip (list_at u m)
unfolding lookup
keys-list_at u ip [] = refl
keys-list_at u ip ((x, ips) ∷ m) = ground (arith, keys-list_at u ip m)

-- Sorting each user's addresses, and dropping the users with none.
pub count_ip-sorted :
    (u : ℤ) (ip : Str) (m : Map ℤ (List Str))
    → count_ip ip (list_at u (map (λ e. (e.0, sort str_lt e.1)) m)) ≡ count_ip ip (list_at u m)
unfolding lookup
count_ip-sorted u ip [] = refl
count_ip-sorted u ip ((x, ips) ∷ m) = ground (arith, count_ip-sort ip ips, count_ip-sorted u ip m)
