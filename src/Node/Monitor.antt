-- ===== src/Node/Monitor.antt =====
-- node/task.go, nodeInfoMonitor: a node follows its panel. The answers of the panel are arguments, and
-- so is what requestCert says; `compile` is regexp.MustCompile. `none` is a panic, log.Panic's too.
-- The end of a reload, which restarts tasks, is modelled with the tasks in Task/Deadlock.
pub mod Follow
pub mod Reload
use yav2bx.Base.{
  ℕ, suc, zero, Bool, true, false, not, ◌&&◌, ◌||◌, List, [], ◌∷◌, ◌++◌, Option, none, some, leb,
  if◌then◌else◌, ◌>>=◌,
}
use yav2bx.Int.{ℤ, pos, eq_ℤ}
use yav2bx.Keys.{Str, str_eq}
use yav2bx.Maps.{Map, lookup, insert}
use yav2bx.Panel.{UserInfo, Rules, LimitConfig, Client, Reply}
use yav2bx.Limiter.{Limiter, add_limiter, delete_limiter, set_alive_list, update_user}
use yav2bx.Limiter.Check.{update_rule}
use yav2bx.Node.{NodeInfo, Options, Core, Controller}
use yav2bx.Text.{print_int}
use yav2bx.Node.Compare.{compare_user_list}
use yav2bx.Node.Traffic.{reset_traffic, delete_traffic, dynamic_speed_limit_enabled}
use yav2bx.Node.Speed.{with_limiter}

abbrev pub is_failed {ℓ} : {A : Type ℓ} → Reply A → Bool
is_failed Reply.failed = true
is_failed Reply.unchanged = false
is_failed (Reply.answer a) = false

-- buildNodeTag: `[%s]-%s:%d`
unfoldable pub build_node_tag : Client → NodeInfo → Str
build_node_tag client node =
    b'[' ∷ (client.api_host ++ (b']' ∷ b'-' ∷ (node.type ++ (b':' ∷ print_int node.id))))

-- What follows a run of the monitor: nothing, as it returned early; the restart of the tasks; or the
-- restart of the online sync alone.
pub data Monitored (S Regexp Bucket : Type 0) : Type 0 where
  ended : Controller S Regexp Bucket → Monitored S Regexp Bucket
  reloaded : Controller S Regexp Bucket → Monitored S Regexp Bucket
  synced : Controller S Regexp Bucket → Monitored S Regexp Bucket

-- The loop that clears the traffic of the deleted users.
unfoldable pub delete_all_traffic : List UserInfo → Map Str ℤ → Map Str ℤ
delete_all_traffic [] m = m
delete_all_traffic (u ∷ us) m = delete_all_traffic us (delete_traffic u.uuid m)

abbrev pub is_empty {ℓ} : {A : Type ℓ} → List A → Bool
is_empty [] = true
is_empty (x ∷ xs) = false

module _ {S Regexp Bucket : Type 0} where
  -- `if newA != nil { c.limiter.SetAliveList(newA) }`
  unfoldable pub refresh_alive :
      Reply (Map ℤ ℤ) → Controller S Regexp Bucket → Controller S Regexp Bucket
  refresh_alive (Reply.answer alive) c = with_limiter (set_alive_list alive) c
  refresh_alive Reply.failed c = c
  refresh_alive Reply.unchanged c = c

  -- `c.limiter.UpdateRule(&newN.Rules)`
  unfoldable pub refresh_rules :
      (Str → Option Regexp)
      → Rules
      → Controller S Regexp Bucket
      → Option (Controller S Regexp Bucket)
  refresh_rules compile rules c = elim (lookup c.tag c.limiters) [
    | none ↦ none
    | some l ↦ update_rule compile rules l >>= λ l'.
        some (record c { limiters = insert c.tag l' c.limiters })
  ]

  -- A node without a configured name gets the tag of the new node, and a new limiter.
  unfoldable pub renew_limiter :
      Options
      → Client
      → NodeInfo
      → Reply (Map ℤ ℤ)
      → Controller S Regexp Bucket
      → Controller S Regexp Bucket
  renew_limiter o client node alive c =
      let tag = build_node_tag client node in
      let counts : Map ℤ ℤ = elim alive [
        | Reply.failed ↦ []
        | Reply.unchanged ↦ []
        | Reply.answer a ↦ a
      ] in
      if is_empty o.name
      then record c {
        tag = tag;
        limiters =
            (add_limiter tag o.limit_config c.user_list counts (delete_limiter tag c.limiters)).0;
      }
      else c

  -- The new node goes to the server, and its users.
  unfoldable pub install_node :
      Core S
      → Options
      → NodeInfo
      → Bool
      → Controller S Regexp Bucket
      → Option (Monitored S Regexp Bucket)
  install_node core o node cert_ok c =
      let r = core.add_node c.tag node o c.server in
      let s = core.add_users c.tag c.user_list node r.0 in
      if eq_ℤ node.security (pos 1) && not cert_ok
      then some (Monitored.ended c)
      else if r.1
      then none
      else elim s.1 [
        | none ↦ some (Monitored.ended (record c { server = s.0 }))
        | some _ ↦ some (Monitored.reloaded (record c { server = s.0 }))
      ]

  -- The branch for a node that changed, up to the restart of the tasks.
  unfoldable pub reload_node :
      Core S
      → Options
      → Client
      → (Str → Option Regexp)
      → Bool
      → NodeInfo
      → Reply (List UserInfo)
      → Reply (Map ℤ ℤ)
      → Controller S Regexp Bucket
      → Option (Monitored S Regexp Bucket)
  reload_node core o client compile cert_ok node users alive c =
      let list : List UserInfo = elim users [
        | Reply.failed ↦ c.user_list
        | Reply.unchanged ↦ c.user_list
        | Reply.answer us ↦ us
      ] in
      let r = core.del_node c.tag c.server in
      let removed : Controller S Regexp Bucket = record c {
        info = node;
        user_list = list;
        traffic = reset_traffic c.traffic;
        server = r.0;
      } in
      if r.1
      then none
      else (refresh_rules compile node.rules
            (refresh_alive alive (renew_limiter o client node alive removed))
          >>= λ ready. install_node core o node cert_ok ready)

  -- The limiter and the traffic follow the lists of deleted and added users.
  unfoldable pub follow_users :
      LimitConfig
      → List UserInfo
      → List UserInfo
      → Controller S Regexp Bucket
      → Controller S Regexp Bucket
  follow_users config deleted added c =
      let limited = with_limiter (update_user c.tag added deleted) c in
      if is_empty added && is_empty deleted then c else record limited {
        traffic =
            if dynamic_speed_limit_enabled config
            then delete_all_traffic deleted limited.traffic
            else limited.traffic;
      }

  -- The branch for a new list of users.
  unfoldable pub update_users :
      Core S
      → LimitConfig
      → List UserInfo
      → Controller S Regexp Bucket
      → Option (Monitored S Regexp Bucket)
  update_users core config users c = compare_user_list c.user_list users >>= λ d.
      let r =
        if is_empty d.0 then (c.server, false) else core.del_users d.0 c.tag c.info c.server in
      let s : S × Option ℤ =
        if is_empty d.1 then (r.0, some (pos 0)) else core.add_users c.tag d.1 c.info r.0 in
      let updated = follow_users config d.0 d.1 (record c { server = s.0 }) in
      if r.1 then some (Monitored.ended (record c { server = r.0 })) else elim s.1 [
        | none ↦ some (Monitored.ended (record c { server = s.0 }))
        | some _ ↦ some (Monitored.synced (record updated { user_list = users }))
      ]

  -- nodeInfoMonitor, behind the three answers of the panel.
  unfoldable pub node_info_monitor :
      Core S
      → Options
      → Client
      → (Str → Option Regexp)
      → Bool
      → Reply NodeInfo
      → Reply (List UserInfo)
      → Reply (Map ℤ ℤ)
      → Controller S Regexp Bucket
      → Option (Monitored S Regexp Bucket)
  node_info_monitor core o client compile cert_ok node users alive c =
      let refreshed = refresh_alive alive c in
      if is_failed node || is_failed users || is_failed alive
      then some (Monitored.ended c)
      else elim node [
        | Reply.failed ↦ some (Monitored.ended c)
        | Reply.answer n ↦ reload_node core o client compile cert_ok n users alive c
        | Reply.unchanged ↦ elim users [
          | Reply.answer us ↦
              if is_empty us
              then some (Monitored.ended refreshed)
              else update_users core o.limit_config us refreshed
          | _ ↦ some (Monitored.ended refreshed)
        ]
      ]
