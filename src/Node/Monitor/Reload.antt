-- ===== src/Node/Monitor/Reload.antt =====
-- node/task.go, nodeInfoMonitor: whose records the limiter has when a node was reloaded.
use yav2bx.Base.{
  ◌≡◌, refl, subst, inl, inr, Bool, true, false, List, Option, none, some, if◌then◌else◌,
  Bool-cases, Option-cases, Ensures, Ensures-bind,
}
use yav2bx.Int.{ℤ}
use yav2bx.Keys.{Str, str_eq, ==_refl}
use yav2bx.Maps.{Map, lookup, lookup-insert}
use yav2bx.Panel.{Reply, Client, UserInfo, Rules, user_tag}
use yav2bx.Limiter.{
  UserLimitInfo, Limiter, user_limit_of, set_alive_list, new_limiter, add_limiter, delete_limiter,
}
use yav2bx.Limiter.Check.{compile_all, update_rule}
use yav2bx.Limiter.Users.{last_user, new_limiter_users}
use yav2bx.Node.{NodeInfo, Options, Core, Controller}
use yav2bx.Node.Traffic.{reset_traffic}
use yav2bx.Node.Speed.{with_limiter_lem}
use yav2bx.Node.Monitor.{
  Monitored, is_empty, build_node_tag, refresh_alive, refresh_rules, renew_limiter, install_node,
  reload_node,
}

module _ {S Regexp Bucket : Type 0} where
  -- The controller behind a run.
  abbrev pub after : Monitored S Regexp Bucket → Controller S Regexp Bucket
  after (Monitored.ended c) = c
  after (Monitored.reloaded c) = c
  after (Monitored.synced c) = c

  -- The controller has the list, and its limiter has the records.
  abbrev pub Has :
      (Str → Option UserLimitInfo) → List UserInfo → Controller S Regexp Bucket → Type 0
  Has records users c =
      (c.user_list ≡ users)
      × Ensures (λ l. (uuid : Str) → lookup (user_tag c.tag uuid) l.user_limit_info ≡ records uuid)
          (lookup c.tag c.limiters)

  module _ (records : Str → Option UserLimitInfo) (users : List UserInfo) where
    refresh_alive-Has :
        (alive : Reply (Map ℤ ℤ)) (c : Controller S Regexp Bucket)
        → Has records users c
        → Has records users (refresh_alive alive c)
    unfolding refresh_alive set_alive_list
    refresh_alive-Has Reply.failed c h = h
    refresh_alive-Has Reply.unchanged c h = h
    refresh_alive-Has (Reply.answer a) c h = elim (Option-cases (lookup c.tag c.limiters)) [
      | inl q ↦ absurd (subst (Ensures _) q h.1)
      | inr (l, q) ↦ rw (with_limiter_lem (set_alive_list a) c l q) (
        h.0,
        rw (lookup-insert c.tag c.tag (set_alive_list a l) c.limiters, ==_refl c.tag)
            (subst (Ensures _) q h.1),
      )
    ]

    refresh_rules-Has :
        (compile : Str → Option Regexp) (rules : Rules) (c : Controller S Regexp Bucket)
        → Ensures (λ _. Unit) (compile_all compile rules.regexp)
        → Has records users c
        → Ensures (Has records users) (refresh_rules compile rules c)
    unfolding refresh_rules update_rule
    refresh_rules-Has compile rules c k h = elim (Option-cases (lookup c.tag c.limiters)) [
      | inl q ↦ absurd (subst (Ensures _) q h.1)
      | inr (l, q) ↦ elim (Option-cases (compile_all compile rules.regexp)) [
        | inl p ↦ absurd (subst (Ensures _) p k)
        | inr (rs, p) ↦
            rw (q, p, refresh_rules, update_rule)
              (
                h.0,
                rw
                    (
                      lookup-insert c.tag c.tag
                          (record l { domain_rules = rs; protocol_rules = rules.protocol })
                          c.limiters,
                      ==_refl c.tag,
                    )
                    (subst (Ensures _) q h.1),
              )
      ]
    ]

    installed :
        (b : Bool) (n : Option ℤ) (c d : Controller S Regexp Bucket)
        → Has records users c
        → Has records users d
        → Ensures
            (λ m. Has records users (after m))
            (if b then some (Monitored.ended c) else elim n [
              | none ↦ some (Monitored.ended d)
              | some _ ↦ some (Monitored.reloaded d)
            ])
    installed true n c d hc hd = hc
    installed false none c d hc hd = hd
    installed false (some n) c d hc hd = hd

    install_node-Has :
        (core : Core S) (o : Options) (node : NodeInfo) (cert_ok : Bool)
        (c : Controller S Regexp Bucket)
        → ((tag : Str) (s : S) → (core.add_node tag node o s).1 ≡ false)
        → Has records users c
        → Ensures (λ m. Has records users (after m)) (install_node core o node cert_ok c)
    unfolding install_node
    install_node-Has core o node cert_ok c k h =
        rw (k c.tag c.server) (installed _ _ c (record c { server = _ }) h h)

  renew_limiter-Has :
      (o : Options) (client : Client) (node : NodeInfo) (alive : Reply (Map ℤ ℤ))
      (c : Controller S Regexp Bucket) (l : Limiter Regexp Bucket)
      → lookup c.tag c.limiters ≡ some l
      → Has
          (λ uuid.
            if is_empty o.name
            then elim (last_user uuid c.user_list) [ some u ↦ some (user_limit_of u) | none ↦ none ]
            else lookup (user_tag c.tag uuid) l.user_limit_info)
          c.user_list
          (renew_limiter o client node alive c)
  unfolding renew_limiter add_limiter
  renew_limiter-Has o client node alive c l q = elim (Bool-cases (is_empty o.name)) [
    | inl e ↦ rw e (
      refl,
      rw
          (
            lookup-insert (build_node_tag client node) (build_node_tag client node)
                (new_limiter (build_node_tag client node) o.limit_config c.user_list _)
                (delete_limiter (build_node_tag client node) c.limiters),
            ==_refl (build_node_tag client node),
          )
          (λ uuid.
            (new_limiter_users Regexp Bucket (build_node_tag client node) uuid o.limit_config
              c.user_list _).0),
    )
    | inr e ↦ rw (e, q) (refl, λ uuid. refl)
  ]

  -- A node that changed, with a new list of users (the server removes the old node and takes the new
  -- one, and the rules compile): the run does not panic, and the controller has the new list. The
  -- limiter has the records of exactly its users if the node has no configured name; with a configured
  -- name the limiter keeps the old records.
  pub reload_node-Has :
      (core : Core S) (o : Options) (client : Client) (compile : Str → Option Regexp)
      (cert_ok : Bool) (node : NodeInfo) (users : List UserInfo) (alive : Reply (Map ℤ ℤ))
      (c : Controller S Regexp Bucket) (l : Limiter Regexp Bucket)
      → lookup c.tag c.limiters ≡ some l
      → (core.del_node c.tag c.server).1 ≡ false
      → ((tag : Str) (s : S) → (core.add_node tag node o s).1 ≡ false)
      → Ensures (λ _. Unit) (compile_all compile node.rules.regexp)
      → Ensures
          (λ m.
            Has
              (λ uuid.
                if is_empty o.name
                then elim (last_user uuid users) [ some u ↦ some (user_limit_of u) | none ↦ none ]
                else lookup (user_tag c.tag uuid) l.user_limit_info)
              users
              (after m))
          (reload_node core o client compile cert_ok node (Reply.answer users) alive c)
  unfolding reload_node
  reload_node-Has core o client compile cert_ok node users alive c l q removes takes compiles =
      let records : Str → Option UserLimitInfo = λ uuid.
        if is_empty o.name
        then elim (last_user uuid users) [ some u ↦ some (user_limit_of u) | none ↦ none ]
        else lookup (user_tag c.tag uuid) l.user_limit_info in
      let removed : Controller S Regexp Bucket = record c {
        info = node;
        user_list = users;
        traffic = reset_traffic c.traffic;
        server = (core.del_node c.tag c.server).0;
      } in
      let renewed = renew_limiter o client node alive removed in
      let refreshed = refresh_alive alive renewed in
      rw removes (
        Ensures-bind (Has records users) (λ m. Has records users (after m))
          (refresh_rules compile node.rules refreshed)
          (λ ready. install_node core o node cert_ok ready)
          (refresh_rules-Has records users compile node.rules refreshed compiles (
            refresh_alive-Has records users alive renewed
              (renew_limiter-Has o client node alive removed l q)))
          (λ ready h. install_node-Has records users core o node cert_ok ready takes h))
