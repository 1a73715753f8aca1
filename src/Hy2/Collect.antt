-- ===== src/Hy2/Collect.antt =====
-- core/hy2/hook.go and core/hy2/user.go: what is counted and what is collected, by user.
use yav2bx.Base.{
  ℕ, ◌≡◌, refl, sym, ◌∙◌, ap, subst, inl, inr, true, false, ◌||◌, List, [], ◌∷◌, none, some, arith,
  if◌then◌else◌, Option-cases, Bool-cases, Ensures,
}
use yav2bx.Int.{ℤ, pos}
use yav2bx.Keys.{Str, str_eq, str_beq, ==_refl}
use yav2bx.Maps.{lookup-insert_self, Map, lookup, insert, erase, lookup-insert, lookup-erase}
use yav2bx.Panel.{UserInfo, user_tag}
use yav2bx.Limiter.{Limiter, get_limiter}
use yav2bx.Limiter.Users.{has_uuid}
use yav2bx.Counter.{
  TrafficCounter, new_traffic_counter, get_up_count, get_down_count, reset, rx, tx,
}
use yav2bx.Counter.Refines.{Op, run_op, spec_op, run_op-view, run_op-IsValid}
use yav2bx.Counter.Views.{IsValid, view}
use yav2bx.Hy2.{
  HookServer, Users, authenticate, store_users, remove_users, as_int, counter_of, count_traffic,
  log_traffic, get_user_traffic,
}

-- The counts of a user at the hook.
abbrev pub hook_view : HookServer → Str → ℤ × ℤ
hook_view h j = view (counter_of h) j

-- The hook's counter is well formed.
abbrev pub HookOk : HookServer → Type 0
HookOk h = IsValid (counter_of h)

counter_at :
    (h : HookServer) (c : TrafficCounter) → lookup h.tag h.counter ≡ some c → counter_of h ≡ c
counter_at h c q = rw (q, counter_of) refl

counter_set :
    (h : HookServer) (c : TrafficCounter)
    → counter_of (record h { counter = insert h.tag c h.counter }) ≡ c
counter_set h c =
    counter_at (record h { counter = insert h.tag c h.counter }) c
      (lookup-insert h.tag h.tag c h.counter ∙ rw (==_refl h.tag) refl)

-- The counts of a hook without a counter.
no_counter :
    (h : HookServer) (j : Str) → lookup h.tag h.counter ≡ none → hook_view h j ≡ (pos 0, pos 0)
unfolding new_traffic_counter get_up_count get_down_count lookup
no_counter h j q = ground (arith, q)

count_traffic-view :
    (h : HookServer) (id j : Str) (sent received : ℕ)
    → HookOk h
    → hook_view (count_traffic h id sent received) j
      ≡ spec_op
          (Op.txs id (as_int sent))
          j
          (spec_op (Op.rxs id (as_int received)) j (hook_view h j))
unfolding count_traffic run_op
count_traffic-view h id j sent received v =
    let c = counter_of h in
    let c1 = rx c id (as_int received) in
    ap (λ k. view k j) (counter_set h (tx c1 id (as_int sent)))
    ∙ run_op-view (Op.txs id (as_int sent)) c1 j (run_op-IsValid (Op.rxs id (as_int received)) c v)
    ∙ ap (spec_op (Op.txs id (as_int sent)) j) (run_op-view (Op.rxs id (as_int received)) c j v)

-- LogTraffic, on every branch (the hook's counter is well formed): if the connection may go on, its
-- bytes are added to its user's two counts, and if not, nothing is counted; no other user's counts
-- change.
pub log_traffic-view :
    {Regexp Bucket : Type 0} (registry : Map Str (Limiter Regexp Bucket)) (h : HookServer)
    (id j : Str) (sent received : ℕ)
    → HookOk h
    → let r = log_traffic registry h id sent received in
      hook_view r.1 j ≡ (
        if r.2
        then spec_op
            (Op.txs id (as_int sent))
            j
            (spec_op (Op.rxs id (as_int received)) j (hook_view h j))
        else hook_view h j)
unfolding log_traffic get_limiter
log_traffic-view registry h id j sent received v = elim (Option-cases (lookup h.tag registry)) [
  | inl q ↦ rw (q, log_traffic) refl
  | inr (l, q) ↦ elim (Option-cases (lookup (user_tag h.tag id) l.user_limit_info)) [
    | inl p ↦ rw (q, p, log_traffic) (count_traffic-view h id j sent received v)
    | inr (u, p) ↦ elim (Bool-cases u.over_limit) [
      | inl o ↦ rw (q, p, o, log_traffic) refl
      | inr o ↦ rw (q, p, o, log_traffic) (count_traffic-view h id j sent received v)
    ]
  ]
]

-- GetUserTraffic with a reset (the node's hook has a well-formed counter): it gives the two counts of
-- the user, which are zero behind it, and leaves every other user's counts.
get_user_traffic-view :
    (nodes : Map Str HookServer) (h : HookServer) (uuid j : Str)
    → lookup h.tag nodes ≡ some h
    → HookOk h
    → Ensures
        (λ r.
          (r.1 ≡ hook_view h uuid)
          × Ensures
              (λ h'. hook_view h' j ≡ (if str_beq uuid j then (pos 0, pos 0) else hook_view h j))
              (lookup h.tag r.0))
        (get_user_traffic nodes h.tag uuid true)
unfolding get_user_traffic run_op
get_user_traffic-view nodes h uuid j q v = elim (Option-cases (lookup h.tag h.counter)) [
  | inl p ↦
      rw (q, p, get_user_traffic)
        (
          sym (no_counter h uuid p),
          subst (Ensures _) (sym q) (elim (Bool-cases (str_beq uuid j)) [
            | inl e ↦ rw e (no_counter h j p)
            | inr e ↦ rw e refl
          ]),
        )
  | inr (c, p) ↦
      let h' = record h { counter = insert h.tag (reset c uuid) h.counter } in
      rw (q, p, get_user_traffic)
        (
          sym (ap (λ k. view k uuid) (counter_at h c p)),
          subst (Ensures _) (sym (lookup-insert_self h.tag h' nodes)) (
              ap (λ k. view k j) (counter_set h (reset c uuid))
              ∙ run_op-view (Op.resets uuid) c j (subst IsValid (counter_at h c p) v)
              ∙ ap (λ k. if str_beq uuid j then (pos 0, pos 0) else view k j)
                  (sym (counter_at h c p))),
        )
]

store_users-authenticate :
    (us : List UserInfo) (users : Users) (auth : Str)
    → (authenticate (store_users us users) auth).0
      ≡ (has_uuid auth us || (authenticate users auth).0)
unfolding store_users authenticate
store_users-authenticate [] users auth = refl
store_users-authenticate (u ∷ us) users auth = ground (
  arith,
  store_users-authenticate us (insert u.uuid u.id users) auth,
  lookup-insert u.uuid auth u.id users,
)

remove_users-authenticate :
    (us : List UserInfo) (users : Users) (auth : Str)
    → (authenticate (remove_users us users) auth).0
      ≡ (if has_uuid auth us then false else (authenticate users auth).0)
unfolding remove_users authenticate
remove_users-authenticate [] users auth = refl
remove_users-authenticate (u ∷ us) users auth =
    ground (
      arith,
      remove_users-authenticate us (erase u.uuid users) auth,
      lookup-erase u.uuid auth users,
    )

-- After AddUsers and DelUsers, Authenticate accepts a password exactly when it is the uuid of a user
-- that was there or was added, and that was not deleted.
authenticate_lem :
    (users : Users) (added deleted : List UserInfo) (auth : Str)
    → (authenticate (remove_users deleted (store_users added users)) auth).0 ≡ (
        if has_uuid auth deleted
        then false
        else (has_uuid auth added || (authenticate users auth).0))
authenticate_lem users added deleted auth = ground (
  arith,
  remove_users-authenticate deleted (store_users added users) auth,
  store_users-authenticate added users auth,
)
