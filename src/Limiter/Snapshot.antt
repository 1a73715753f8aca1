-- ===== src/Limiter/Snapshot.antt =====
-- limiter/limiter.go, snapshotOnlineUsers: who is listed.
use yav2bx.Base.{
  ◌≡◌, refl, inl, inr, Bool, false, not, ◌&&◌, ◌||◌, List, [], ◌∷◌, ◌++◌, none, some, arith,
  Bool-cases, Option-cases,
}
use yav2bx.Int.{ℤ, pos, eq_ℤ, eq_ℤ_iff}
use yav2bx.Keys.{Str, str_eq, str_beq, str_beq_iff, int_eq}
use yav2bx.Maps.{Map, lookup}
use yav2bx.Panel.{OnlineUser, normalize_ip}
use yav2bx.Conn.{Online}
use yav2bx.Limiter.{UserLimitInfo, Limiter}
use yav2bx.Limiter.Online.{reported, report, report_ips, report_users, snapshot_online_users}

-- No pair is listed twice.
abbrev pub NoRepeat : List OnlineUser → Type 0
NoRepeat [] = Unit
NoRepeat (o ∷ os) = (reported o.uid o.ip os ≡ false) × NoRepeat os

-- An entry of the user's addresses reads as the address.
abbrev pub has_address {ℓ} : {V : Type ℓ} → Str → Map Str V → Bool
has_address ip [] = false
has_address ip ((a, _) ∷ ips) =
    (not (str_beq (normalize_ip a) []) && str_beq (normalize_ip a) ip) || has_address ip ips

-- Some user with the id, which is not zero, has the address.
abbrev pub is_online : Map Str UserLimitInfo → ℤ → Str → Map Str (Map Str Online) → Bool
is_online info uid ip [] = false
is_online info uid ip ((taguuid, ips) ∷ us) =
    (elim (lookup taguuid info) [
      | none ↦ false
      | some u ↦ not (eq_ℤ u.uid (pos 0)) && eq_ℤ u.uid uid && has_address ip ips
    ])
    || is_online info uid ip us

reported-append :
    (uid : ℤ) (ip : Str) (acc : List OnlineUser) (o : OnlineUser)
    → reported uid ip (acc ++ (o ∷ []))
      ≡ (reported uid ip acc || (eq_ℤ o.uid uid && str_beq o.ip ip))
unfolding reported
reported-append uid ip [] o = ground arith
reported-append uid ip (a ∷ acc) o = ground (arith, reported-append uid ip acc o)

NoRepeat-append :
    (acc : List OnlineUser) (o : OnlineUser)
    → NoRepeat acc
    → reported o.uid o.ip acc ≡ false
    → NoRepeat (acc ++ (o ∷ []))
unfolding reported
NoRepeat-append [] o n h = (refl, tt)
NoRepeat-append (a ∷ acc) o n h = (
  ground (
    arith,
    n.0,
    h,
    reported-append a.uid a.ip acc o,
    eq_ℤ_iff a.uid o.uid,
    eq_ℤ_iff o.uid a.uid,
    str_beq_iff a.ip o.ip,
    str_beq_iff o.ip a.ip,
  ),
  NoRepeat-append acc o n.1 (ground (arith, h)),
)

report-reported :
    (u : ℤ) (i : Str) (uid : ℤ) (ip : Str) (acc : List OnlineUser)
    → reported u i (report uid ip acc)
      ≡ (reported u i acc || (eq_ℤ uid u && (not (str_beq ip []) && str_beq ip i)))
unfolding report
report-reported u i uid ip acc = ground (
  arith,
  reported-append u i acc (record { uid = uid; ip = ip }),
  eq_ℤ_iff uid u,
  str_beq_iff ip i,
)

report-NoRepeat :
    (uid : ℤ) (ip : Str) (acc : List OnlineUser) → NoRepeat acc → NoRepeat (report uid ip acc)
unfolding report
report-NoRepeat uid ip acc n = ground (arith, NoRepeat-append acc (record { uid = uid; ip = ip }) n)

report_ips-reported :
    (u : ℤ) (i : Str) (uid : ℤ) (acc : List OnlineUser) (ips : Map Str Online)
    → reported u i (report_ips uid acc ips)
      ≡ (reported u i acc || (eq_ℤ uid u && has_address i ips))
unfolding report_ips
report_ips-reported u i uid acc [] = ground arith
report_ips-reported u i uid acc ((ip, o) ∷ ips) = ground (
  arith,
  report_ips-reported u i uid (report uid (normalize_ip ip) acc) ips,
  report-reported u i uid (normalize_ip ip) acc,
)

report_ips-NoRepeat :
    (uid : ℤ) (acc : List OnlineUser) (ips : Map Str Online)
    → NoRepeat acc
    → NoRepeat (report_ips uid acc ips)
unfolding report_ips
report_ips-NoRepeat uid acc [] n = n
report_ips-NoRepeat uid acc ((ip, o) ∷ ips) n =
    report_ips-NoRepeat uid (report uid (normalize_ip ip) acc) ips
      (report-NoRepeat uid (normalize_ip ip) acc n)

report_users-reported :
    (info : Map Str UserLimitInfo) (u : ℤ) (i : Str) (acc : List OnlineUser)
    (us : Map Str (Map Str Online))
    → reported u i (report_users info acc us) ≡ (reported u i acc || is_online info u i us)
unfolding report_users
report_users-reported info u i acc [] = ground arith
report_users-reported info u i acc ((t, ips) ∷ us) = elim (Option-cases (lookup t info)) [
  | inl q ↦ rw q (report_users-reported info u i acc us)
  | inr (w, q) ↦ rw q (elim (Bool-cases (eq_ℤ w.uid (pos 0))) [
    | inl z ↦ rw z (report_users-reported info u i acc us)
    | inr nz ↦ rw nz (
        ground (
          arith,
          report_users-reported info u i (report_ips w.uid acc ips) us,
          report_ips-reported u i w.uid acc ips,
        ))
  ])
]

report_users-NoRepeat :
    (info : Map Str UserLimitInfo) (acc : List OnlineUser) (us : Map Str (Map Str Online))
    → NoRepeat acc
    → NoRepeat (report_users info acc us)
unfolding report_users
report_users-NoRepeat info acc [] n = n
report_users-NoRepeat info acc ((t, ips) ∷ us) n = elim (Option-cases (lookup t info)) [
  | inl q ↦ rw q (report_users-NoRepeat info acc us n)
  | inr (w, q) ↦ rw q (elim (Bool-cases (eq_ℤ w.uid (pos 0))) [
    | inl z ↦ rw z (report_users-NoRepeat info acc us n)
    | inr nz ↦ rw nz (
        report_users-NoRepeat info (report_ips w.uid acc ips) us
          (report_ips-NoRepeat w.uid acc ips n))
  ])
]

module _ {Regexp Bucket : Type 0} where
  -- The snapshot of the online users lists no pair twice, and lists a user id with an address exactly
  -- when the id is not zero and some user with a record of that id is online at an address that
  -- normalizes to it and is not empty.
  pub snapshot_online_users_lem :
      (l : Limiter Regexp Bucket)
      → NoRepeat (snapshot_online_users l)
        × ((uid : ℤ) (ip : Str)
            → reported uid ip (snapshot_online_users l)
              ≡ is_online l.user_limit_info uid ip l.conn_limiter.ip)
  unfolding snapshot_online_users reported
  snapshot_online_users_lem l = (
    report_users-NoRepeat l.user_limit_info [] l.conn_limiter.ip tt,
    λ uid ip. report_users-reported l.user_limit_info uid ip [] l.conn_limiter.ip,
  )
