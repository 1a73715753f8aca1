-- ===== src/Node/Sync/Payload.antt =====
-- node/user.go, buildOnlineIPPayload: which addresses a report lists for a user.
use yav2bx.Base.{
  ◌≡◌, refl, Bool, true, false, not, ◌&&◌, ◌||◌, List, [], ◌∷◌, ◌++◌, map, none, arith, ◌∙◌, ap,
  if◌then◌else◌, Bool-cases, inl, inr,
}
use yav2bx.Int.{ℤ, eq_ℤ, lt_ℤ, eq_ℤ_iff}
use yav2bx.Keys.{Str, str_eq, str_beq, str_beq_iff, int_eq, pair_eq}
use yav2bx.Maps.{Map, lookup, Distinct, insert-Distinct}
use yav2bx.Panel.{OnlineUser, normalize_ip, cut_prefix}
use yav2bx.Limiter.Online.{append_ip}
use yav2bx.Limiter.Reports.{list_at, append_ip-list_at}
use yav2bx.Node.Sync.Dedupe.{is_online}
use yav2bx.Node.Sync.{
  Seen, str_lt, sort, has_seen, dedupe_ips, dedupe_uids, dedupe_online_ip_map_by_ip, drop_empty,
  build_online_ip_map_payload, group_ips, build_online_ip_payload,
}
use yav2bx.Node.Sync.Listed.{
  count_ip, has_ip, Lists, dedupe_uids-has_seen, dedupe_uids-Lists, has_user-sort, keys-list_at,
  count_ip-sorted,
}

-- The users of a result are distinct.
append_ip-Distinct :
    (uid : ℤ) (ip : Str) (m : Map ℤ (List Str)) → Distinct m → Distinct (append_ip uid ip m)
unfolding append_ip
append_ip-Distinct uid ip m d = insert-Distinct uid _ m d

dedupe_ips-Distinct :
    (uid : ℤ) (ips : List Str) (r : Seen × Map ℤ (List Str))
    → Distinct r.1
    → Distinct (dedupe_ips uid ips r).1
unfolding dedupe_ips
dedupe_ips-Distinct uid [] r d = d
dedupe_ips-Distinct uid (x ∷ ips) r d = dedupe_ips-Distinct uid ips _ (
    choose (not (str_beq (normalize_ip x) []) && not (has_seen (uid, normalize_ip x) r.0)) _ r
      (append_ip-Distinct uid (normalize_ip x) r.1 d) d)
  where
    choose :
        (b : Bool) (p q : Seen × Map ℤ (List Str))
        → Distinct p.1
        → Distinct q.1
        → Distinct (if b then p else q).1
    choose true p q dp dq = dp
    choose false p q dp dq = dq

dedupe_uids-Distinct :
    (by_uid : Map ℤ (List Str)) (uids : List ℤ) (r : Seen × Map ℤ (List Str))
    → Distinct r.1
    → Distinct (dedupe_uids by_uid uids r).1
unfolding dedupe_uids
dedupe_uids-Distinct by_uid [] r d = d
dedupe_uids-Distinct by_uid (x ∷ uids) r d =
    dedupe_uids-Distinct by_uid uids _ (dedupe_ips-Distinct x (list_at x by_uid) r d)

sorted-none :
    (u : ℤ) (m : Map ℤ (List Str))
    → lookup u m ≡ none
    → lookup u (map (λ e. (e.0, sort str_lt e.1)) m) ≡ none
unfolding lookup
sorted-none u [] q = refl
sorted-none u ((x, ips) ∷ m) q = ground (arith, q, sorted-none u m)

sorted-Distinct :
    (m : Map ℤ (List Str)) → Distinct m → Distinct (map (λ e. (e.0, sort str_lt e.1)) m)
sorted-Distinct [] d = tt
sorted-Distinct ((x, ips) ∷ m) d = (sorted-none x m d.0, sorted-Distinct m d.1)

drop_empty-none :
    (u : ℤ) (m : Map ℤ (List Str)) → lookup u m ≡ none → lookup u (drop_empty m) ≡ none
unfolding drop_empty lookup
drop_empty-none u [] q = refl
drop_empty-none u ((x, []) ∷ m) q = ground (arith, q, drop_empty-none u m)
drop_empty-none u ((x, ip ∷ ips) ∷ m) q = ground (arith, q, drop_empty-none u m)

drop_empty-list_at :
    (u : ℤ) (m : Map ℤ (List Str)) → Distinct m → list_at u (drop_empty m) ≡ list_at u m
unfolding drop_empty lookup
drop_empty-list_at u [] d = refl
drop_empty-list_at u ((x, []) ∷ m) d =
    ground (arith, d.0, eq_ℤ_iff x u, drop_empty-none u m, drop_empty-list_at u m d.1)
drop_empty-list_at u ((x, ip ∷ ips) ∷ m) d = ground (arith, drop_empty-list_at u m d.1)

-- The grouped addresses are those that are online.
has_ip-append :
    (ip x : Str) (xs : List Str)
    → has_ip ip (xs ++ (x ∷ [])) ≡ (has_ip ip xs || str_beq (normalize_ip x) ip)
has_ip-append ip x [] = ground arith
has_ip-append ip x (y ∷ xs) = ground (arith, has_ip-append ip x xs)

empty-normal : normalize_ip [] ≡ []
unfolding normalize_ip cut_prefix
empty-normal = refl

group_ips-has_ip :
    (u : ℤ) (ip : Str) (m : Map ℤ (List Str)) (us : List OnlineUser)
    → (not (str_beq ip []) && has_ip ip (list_at u (group_ips m us)))
      ≡ (not (str_beq ip []) && (has_ip ip (list_at u m) || is_online u ip us))
unfolding group_ips
group_ips-has_ip u ip m [] = ground arith
group_ips-has_ip u ip m (o ∷ us) = elim (Bool-cases (str_beq o.ip [])) [
  | inl e ↦
      rw (e, group_ips)
        (group_ips-has_ip u ip m us
          ∙ ground (
            arith,
            ap normalize_ip ((str_beq_iff o.ip []).0 e) ∙ empty-normal,
            str_beq_iff (normalize_ip o.ip) ip,
            str_beq_iff ip [],
          ))
  | inr e ↦ rw (e, group_ips) (group_ips-has_ip u ip (append_ip o.uid o.ip m) us ∙ grouped o m us)
]
  where
    grouped :
        (o : OnlineUser) (m : Map ℤ (List Str)) (us : List OnlineUser)
        → (not (str_beq ip [])
            && (has_ip ip (list_at u (append_ip o.uid o.ip m)) || is_online u ip us))
          ≡ (not (str_beq ip []) && (has_ip ip (list_at u m) || is_online u ip (o ∷ us)))
    grouped o m us = elim (Bool-cases (eq_ℤ o.uid u)) [
      | inl e ↦
          rw (append_ip-list_at o.uid u o.ip m, e)
            (ground (arith, has_ip-append ip o.ip (list_at u m)))
      | inr e ↦ rw (append_ip-list_at o.uid u o.ip m, e) refl
    ]

empty-Lists : Lists ([], [])
unfolding lookup
empty-Lists u ip = refl

-- The payload of a report: a user's address is listed once, if it is not empty and the user is online
-- from it, in its normal form, and else it is not listed.
pub build_online_ip_payload_lem :
    (u : ℤ) (ip : Str) (users : List OnlineUser)
    → count_ip ip (list_at u (build_online_ip_payload users))
      ≡ (if not (str_beq ip []) && is_online u ip users then 1 else 0)
unfolding build_online_ip_payload build_online_ip_map_payload dedupe_online_ip_map_by_ip lookup
build_online_ip_payload_lem u ip users =
    let by_uid = group_ips [] users in
    let uids = sort lt_ℤ (map (λ e. e.0) by_uid) in
    let r = dedupe_uids by_uid uids ([], []) in
    ap (count_ip ip) (
      drop_empty-list_at u (map (λ e. (e.0, sort str_lt e.1)) r.1)
        (sorted-Distinct r.1 (dedupe_uids-Distinct by_uid uids ([], []) tt)))
    ∙ count_ip-sorted u ip r.1
    ∙ dedupe_uids-Lists by_uid uids ([], []) empty-Lists u ip
    ∙ ap (λ b. if b then 1 else 0)
        (dedupe_uids-has_seen by_uid u ip uids ([], [])
          ∙ ground (
            arith,
            has_user-sort u (map (λ e. e.0) by_uid),
            keys-list_at u ip by_uid,
            group_ips-has_ip u ip [] users,
          ))
