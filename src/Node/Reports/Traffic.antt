-- ===== src/Node/Reports/Traffic.antt =====
-- node/user.go, reportUserTrafficTask: the traffic that is reported is what the server counted.
use yav2bx.Base.{
  ℕ, ◌≡◌, refl, Bool, true, false, ◌||◌, List, [], ◌∷◌, Option, none, some, if◌then◌else◌, arith,
  Bool-cases, Option-cases, inl, inr, subst, sym, ap₂, ◌∙◌, ◌&&◌,
}
use yav2bx.Int.{ℤ, pos, lt_ℤ, ◌+ℤ◌, wrap64}
use yav2bx.Keys.{Str, str_eq, str_beq, str_beq_iff}
use yav2bx.Maps.{Map, lookup}
use yav2bx.Panel.{Client, UserInfo, UserTraffic}
use yav2bx.Limiter.Users.{has_uuid}
use yav2bx.Node.{Options, Core, Controller}
use yav2bx.Api.{Float, Panel, Request}
use yav2bx.Api.Report.{report_node_status}
use yav2bx.Node.Traffic.{add_traffic, dynamic_speed_limit_enabled}
use yav2bx.Node.Reports.{
  OnlineUserReporter, SystemStatus, node_status, send_online, send_traffic, collect_traffic,
  get_online_users, report_user_traffic_task,
}

-- A read of traffic whose counts are `view`: with a reset it gives a user's counts, which are then 0,
-- and changes those of no other user.
pub record Counts {S : Type 0} (read : Str → Str → Bool → S → S × (ℤ × ℤ))
    (view : Str → Str → S → ℤ × ℤ) : Type 0 where
  pub reads : (tag uuid : Str) (s : S) → (read tag uuid true s).1 ≡ view tag uuid s
  pub resets :
      (tag uuid other : Str) (s : S)
      → view tag other (read tag uuid true s).0
        ≡ (if str_beq uuid other then (pos 0, pos 0) else view tag other s)

-- The traffic of a user, if there is any, before that of others.
abbrev pub with_traffic : UserInfo → ℤ × ℤ → List UserTraffic → List UserTraffic
with_traffic u n others =
    if lt_ℤ (pos 0) n.0 || lt_ℤ (pos 0) n.1
    then record { uid = u.id; upload = n.0; download = n.1; key = [] } ∷ others
    else others

-- The traffic of the users that have any, in their order.
abbrev pub used_traffic : (Str → ℤ × ℤ) → List UserInfo → List UserTraffic
used_traffic count [] = []
used_traffic count (u ∷ us) = with_traffic u (count u.uuid) (used_traffic count us)

-- Each user has an uuid of its own.
abbrev pub Apart : List UserInfo → Type 0
Apart [] = Unit
Apart (u ∷ us) = (has_uuid u.uuid us ≡ false) × Apart us

used_traffic-cong :
    (f g : Str → ℤ × ℤ) (us : List UserInfo)
    → ((uuid : Str) → has_uuid uuid us ≡ true → f uuid ≡ g uuid)
    → used_traffic f us ≡ used_traffic g us
used_traffic-cong f g [] h = refl
used_traffic-cong f g (u ∷ us) h =
    let self : str_beq u.uuid u.uuid ≡ true = (str_beq_iff u.uuid u.uuid).1 refl in
    let own : f u.uuid ≡ g u.uuid = h u.uuid (rw self refl) in
    let rest = used_traffic-cong f g us (λ uuid q. h uuid (ground (arith, q))) in
    rw (own, rest) refl

has_uuid_differs :
    (v w : Str) (us : List UserInfo)
    → has_uuid v us ≡ false
    → has_uuid w us ≡ true
    → str_beq v w ≡ false
has_uuid_differs v w us absent there = elim (Bool-cases (str_beq v w)) [
  | inl q ↦ absurd (
      ground (arith, absent, subst (λ z. has_uuid z us ≡ true) (sym ((str_beq_iff v w).0 q)) there))
  | inr q ↦ q
]

module _ {S : Type 0} (core : Core S) (view : Str → Str → S → ℤ × ℤ) where
  collect_traffic_lem :
      (dynamic : Bool) (tag : Str) (us : List UserInfo) (s : S × Map Str ℤ)
      → Counts core.get_user_traffic view
      → Apart us
      → let r = collect_traffic core dynamic tag us s in
        (r.1 ≡ used_traffic (λ uuid. view tag uuid s.0) us)
        × ((uuid : Str)
            → view tag uuid r.0.0
              ≡ (if has_uuid uuid us then (pos 0, pos 0) else view tag uuid s.0))
  unfolding collect_traffic
  collect_traffic_lem dynamic tag [] s k a = (refl, λ uuid. refl)
  collect_traffic_lem dynamic tag (u ∷ us) s k a =
      let one = core.get_user_traffic tag u.uuid true s.0 in
      let used = lt_ℤ (pos 0) one.1.0 || lt_ℤ (pos 0) one.1.1 in
      let traffic : Map Str ℤ =
        if used && dynamic then add_traffic u.uuid (wrap64 (one.1.0 +ℤ one.1.1)) s.1 else s.1 in
      let ih = collect_traffic_lem dynamic tag us (one.0, traffic) k a.1 in
      let same =
        used_traffic-cong (λ uuid. view tag uuid one.0) (λ uuid. view tag uuid s.0) us
          (λ uuid there.
            k.resets tag u.uuid uuid s.0 ∙ rw (has_uuid_differs u.uuid uuid us a.0 there) refl) in
      (
        ap₂ (with_traffic u) (k.reads tag u.uuid s.0) (ih.0 ∙ same),
        λ uuid. ih.1 uuid ∙ rw (k.resets tag u.uuid uuid s.0) (ground arith),
      )

module _ {S Regexp Bucket : Type 0} where
  get_online_users_lem :
      (reporter : Option (OnlineUserReporter S)) (c : Controller S Regexp Bucket) (server : S)
      (traffic : Map Str ℤ)
      → let r = get_online_users reporter (record c { server = server; traffic = traffic }) in
        (r.0.server ≡ server) × (r.1 ≡ (get_online_users reporter (record c { server = server })).1)
  unfolding get_online_users
  get_online_users_lem (some r) c server traffic = (refl, refl)
  get_online_users_lem none c server traffic = elim (Option-cases (lookup c.tag c.limiters)) [
    | inl q ↦ rw (q, get_online_users) (refl, refl)
    | inr (l, q) ↦ rw (q, get_online_users) (refl, refl)
  ]

  -- (the server's reads are those of its counts, and the users' uuids are distinct)
  -- reportUserTrafficTask reports the online users, then exactly the counts that the server had of each
  -- user, those without any left out, and then the status; afterwards the server's counts of these
  -- users are 0, whatever the panel answered, and those of all others are what they were.
  pub report_user_traffic_task_lem :
      (panel : Panel) (core : Core S) (view : Str → Str → S → ℤ × ℤ)
      (reporter : Option (OnlineUserReporter S)) (percent : ℕ → ℕ → Float) (client : Client)
      (o : Options) (status : Option SystemStatus) (now : ℕ) (c : Controller S Regexp Bucket)
      (sent : List Request)
      → Counts core.get_user_traffic view
      → Apart c.user_list
      → let r =
          report_user_traffic_task panel core reporter percent client o status now (c, sent) in
        let traffic = used_traffic (λ uuid. view c.tag uuid c.server) c.user_list in
        let online = (get_online_users reporter (record c { server = r.0.server })).1 in
        (r.1
          ≡ (report_node_status panel client (node_status percent status) now (
              send_traffic panel client traffic
                (send_online panel client o traffic online sent))).0)
        × ((uuid : Str)
            → view c.tag uuid r.0.server
              ≡ (if has_uuid uuid c.user_list then (pos 0, pos 0) else view c.tag uuid c.server))
  unfolding report_user_traffic_task
  report_user_traffic_task_lem panel core view reporter percent client o status now c sent k a =
      let dynamic = dynamic_speed_limit_enabled o.limit_config in
      let r = collect_traffic core dynamic c.tag c.user_list (c.server, c.traffic) in
      let counts =
        collect_traffic_lem core view dynamic c.tag c.user_list (c.server, c.traffic) k a in
      let online = get_online_users_lem reporter c r.0.0 r.0.1 in
      rw (online.0, online.1, counts.0) (refl, counts.1)
