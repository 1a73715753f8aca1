-- ===== src/Node/Lifecycle/Start.antt =====
-- node/controller.go, Start: what a controller has when it runs.
use yav2bx.Base.{
  ◌≡◌, ◌≢◌, refl, Bool, false, ◌&&◌, List, ◌∷◌, Option, none, some, subst, Option-cases, inl, inr,
  Ensures, Ensures-map,
}
use yav2bx.Int.{ℤ, pos, eq_ℤ}
use yav2bx.Keys.{Str, str_eq}
use yav2bx.Maps.{Map, lookup, insert, lookup-insert_self}
use yav2bx.Panel.{Client, Reply, UserInfo, user_tag}
use yav2bx.Limiter.{UserLimitInfo, Limiter, user_limit_of, new_limiter, add_limiter}
use yav2bx.Limiter.Check.{compile_all, update_rule}
use yav2bx.Limiter.Users.{last_user, new_limiter_users}
use yav2bx.Node.{NodeInfo, Options, Core}
use yav2bx.Node.Monitor.Reload.{Has}
use yav2bx.Node.Tasks.{start_tasks}
use yav2bx.Node.Tasks.Running.{Prepared, Synced, start_tasks-Prepared}
use yav2bx.Node.Lifecycle.{World, Begun, refused, running, no_tasks, tag_of, serve, set_up, start}

-- The records that a limiter has of a list of users.
abbrev pub records_of : List UserInfo → Str → Option UserLimitInfo
records_of users uuid = elim (last_user uuid users) [
  | some u ↦ some (user_limit_of u)
  | none ↦ none
]

module _ {S Regexp Bucket : Type 0} (o : Options) (client : Client) (mode : Str) where
  -- The controller runs with the node and the users: its limiter has exactly their records, and its
  -- tasks run.
  abbrev pub Serving :
      NodeInfo → List UserInfo → World S Regexp Bucket × Begun S Regexp Bucket → Type 0
  Serving node users (w, refused tag) = ⊥
  Serving node users (w, running c ts jobs) =
      (c.tag ≡ tag_of o client node)
      × (c.info ≡ node)
      × (c.limiters ≡ w.1)
      × Has (records_of users) users c
      × Prepared client o.limit_config mode node ts
      × Synced client o.limit_config users ts

  serve-Serving :
      (core : Core S) (node : NodeInfo) (users : List UserInfo) (w : World S Regexp Bucket)
      (l : Limiter Regexp Bucket)
      → ((tag : Str) (s : S) → (core.add_node tag node o s).1 ≡ false)
      → ((tag : Str) (s : S) → (core.add_users tag users node s).1 ≢ none)
      → lookup (tag_of o client node) w.1 ≡ some l
      → ((uuid : Str)
          → lookup (user_tag (tag_of o client node) uuid) l.user_limit_info ≡ records_of users uuid)
      → Ensures (Serving node users) (serve core o client mode node users (tag_of o client node) w)
  unfolding serve
  serve-Serving core node users (server, limiters) l takes adds q h =
      let tag = tag_of o client node in
      let r = core.add_node tag node o server in
      elim (Option-cases (core.add_users tag users node r.0).1) [
        | inl z ↦ absurd (adds tag r.0 z)
        | inr (n, z) ↦
            rw (takes tag server, z)
              (Ensures-map _ (Serving node users)
                (start_tasks client o.limit_config mode users node no_tasks) _
                (start_tasks-Prepared client o.limit_config mode users node no_tasks tt)
                (λ ts p. (refl, refl, refl, (refl, rw q h), p.0, p.1)))
      ]

  -- (the panel gives a node and at least one user, the rules compile, the certificate is there if the
  -- node needs one, and the server takes the node and the users) Start does not panic, and the
  -- controller runs: its limiter has the records of exactly these users, and its tasks run with the
  -- node's intervals.
  pub start-Serving :
      (core : Core S) (compile : Str → Option Regexp) (cert_fails : Bool) (node : NodeInfo)
      (u : UserInfo) (us : List UserInfo) (alive : Map ℤ ℤ) (w : World S Regexp Bucket)
      → Ensures (λ _. Unit) (compile_all compile node.rules.regexp)
      → (eq_ℤ node.security (pos 1) && cert_fails) ≡ false
      → ((tag : Str) (s : S) → (core.add_node tag node o s).1 ≡ false)
      → ((tag : Str) (s : S) → (core.add_users tag (u ∷ us) node s).1 ≢ none)
      → Ensures (Serving node (u ∷ us)) (
          start core o client compile mode cert_fails
            (Reply.answer node)
            (Reply.answer (u ∷ us))
            alive
            w)
  unfolding start set_up add_limiter update_rule
  start-Serving core compile cert_fails node u us alive (server, limiters) compiles cert takes
        adds =
      elim (Option-cases (compile_all compile node.rules.regexp)) [
        | inl p ↦ absurd (subst (Ensures _) p compiles)
        | inr (rs, p) ↦
            let tag = tag_of o client node in
            let made : Limiter Regexp Bucket = new_limiter tag o.limit_config (u ∷ us) alive in
            let l = record made { domain_rules = rs; protocol_rules = node.rules.protocol } in
            rw (p, cert)
              (serve-Serving core node (u ∷ us) (server, insert tag l (insert tag made limiters)) l
                takes adds (lookup-insert_self tag l (insert tag made limiters))
                (λ uuid.
                  (new_limiter_users Regexp Bucket tag uuid o.limit_config (u ∷ us) alive).0))
      ]
