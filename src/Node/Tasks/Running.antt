-- ===== src/Node/Tasks/Running.antt =====
-- node/task.go and node/controller.go: which tasks run.
use yav2bx.Base.{
  ◌≡◌, refl, sym, ap, subst, Bool, true, false, not, List, [], ◌∷◌, Option, none, some,
  if◌then◌else◌, arith, Bool-cases, inl, inr, Ensures, Ensures-of, Ensures-map, Ensures-bind, ◌&&◌,
}
use yav2bx.Int.{ℤ, eq_ℤ_iff}
use yav2bx.Panel.{UserInfo, LimitConfig, Client}
use yav2bx.Keys.{Str}
use yav2bx.Task.{Task, start, close, has_closed, checked_execute, execute_locked, arm, stop_timer}
use yav2bx.Node.{NodeInfo}
use yav2bx.Node.Traffic.{dynamic_speed_limit_enabled}
use yav2bx.Node.Speed.{
  normalized_push_interval, dynamic_speed_limit_interval, online_ip_sync_enabled,
  online_ip_sync_interval,
}
use yav2bx.Node.Tasks.{
  Tasks, Job, started, close_some, restart_online_ip, has_interval, ensure_online_ip_sync_task,
  renews, day, prepare_tasks, start_tasks, close_tasks,
}

-- The task runs, with its interval, and its mutex is free.
abbrev pub Runs : ℤ → Option Task → Type 0
Runs interval none = ⊥
Runs interval (some t) = (t.interval ≡ interval) × (t.running ≡ true) × (t.locked ≡ false)

-- A task that is there runs, and its mutex is free.
abbrev pub Healthy : Option Task → Type 0
Healthy none = Unit
Healthy (some t) = (t.running ≡ true) × (t.locked ≡ false)

-- A task that is there is stopped, and its mutex is free.
abbrev pub Stopped : Option Task → Type 0
Stopped none = Unit
Stopped (some t) = (t.running ≡ false) × (t.locked ≡ false) × (t.timer ≡ none)

started-Runs : (first : Bool) (interval : ℤ) → Runs interval (started first interval)
unfolding start checked_execute has_closed execute_locked arm
started-Runs true interval = (refl, refl, refl)
started-Runs false interval = (refl, refl, refl)

close_some-Stopped : (t : Option Task) → Healthy t → Ensures Stopped (close_some t)
unfolding close stop_timer
close_some-Stopped none h = tt
close_some-Stopped (some t) h = ground (arith, h)

-- What the online sync is when it is set up.
abbrev pub Synced : Client → LimitConfig → List UserInfo → Tasks → Type 0
Synced client config users ts =
    (online_ip_sync_enabled client config users ≡ true
      → Runs (online_ip_sync_interval config) ts.online_ip_report)
    × (online_ip_sync_enabled client config users ≡ false → ts.online_ip_report ≡ none)

-- A new task runs, and has run once; the other tasks stay.
abbrev pub Restarted : ℤ → Tasks → Tasks × List Job → Type 0
Restarted interval ts r =
    Runs interval r.0.online_ip_report
    × (r.1 ≡ Job.sync_online_users ∷ [])
    × (r.0 ≡ record ts { online_ip_report = r.0.online_ip_report })

restart_online_ip-Runs :
    (interval : ℤ) (ts : Tasks)
    → Healthy ts.online_ip_report
    → Ensures (Restarted interval ts) (restart_online_ip interval ts)
unfolding restart_online_ip start checked_execute has_closed execute_locked arm
restart_online_ip-Runs interval ts h =
    Ensures-bind Stopped (Restarted interval ts) (close_some ts.online_ip_report) _
      (close_some-Stopped ts.online_ip_report h) (λ closed _. ((refl, refl, refl), refl, refl))

has_interval-Runs :
    (interval : ℤ) (t : Option Task) → Healthy t → has_interval interval t ≡ true → Runs interval t
has_interval-Runs interval none h q = cc
has_interval-Runs interval (some t) h q = ((eq_ℤ_iff t.interval interval).0 q, h.0, h.1)

-- What ensureOnlineIPSyncTask leaves and runs.
abbrev pub Ensured : Client → LimitConfig → List UserInfo → Tasks → Tasks × List Job → Type 0
Ensured client config users ts r =
    Synced client config users r.0
    × (r.1 ≡ (
        if online_ip_sync_enabled client config users
          && not (has_interval (online_ip_sync_interval config) ts.online_ip_report)
        then Job.sync_online_users ∷ []
        else []))
    × (r.0 ≡ record ts { online_ip_report = r.0.online_ip_report })

-- (a task that is there runs, and its mutex is free) ensureOnlineIPSyncTask ends; afterwards the sync
-- runs with the configured interval exactly when it is enabled, and there is no task otherwise; it
-- runs once right away exactly when it is enabled and had no task with this interval.
ensure_online_ip_sync_task_lem :
    (client : Client) (config : LimitConfig) (users : List UserInfo) (ts : Tasks)
    → Healthy ts.online_ip_report
    → Ensures (Ensured client config users ts) (ensure_online_ip_sync_task client config users ts)
unfolding ensure_online_ip_sync_task
ensure_online_ip_sync_task_lem client config users ts h =
    let interval = online_ip_sync_interval config in
    elim (Bool-cases (online_ip_sync_enabled client config users)) [
      | inl on ↦ elim (Bool-cases (has_interval interval ts.online_ip_report)) [
        | inl same ↦
            rw (on, same)
              (
                (λ _. has_interval-Runs interval ts.online_ip_report h same, λ q. cc),
                rw (on, same) refl,
                refl,
              )
        | inr other ↦
            rw (on, other)
              (Ensures-of _ _ (restart_online_ip interval ts) (restart_online_ip-Runs interval ts h)
                (λ r _ p. ((λ _. p.0, λ q. cc), rw (on, other) p.1, p.2)))
      ]
      | inr off ↦ rw off (
          Ensures-bind Stopped _ (close_some ts.online_ip_report) _
            (close_some-Stopped ts.online_ip_report h)
            (λ _ _. ((λ q. cc, λ _. refl), rw off refl, refl)))
    ]

-- The tasks for the node and for the traffic run, with the node's intervals; that for the certificate
-- runs daily, and that for the speed limit with its interval, when they are wanted.
abbrev pub Prepared : Client → LimitConfig → Str → NodeInfo → Tasks → Type 0
Prepared client config mode node ts =
    Runs node.pull_interval ts.node_info_monitor
    × Runs (normalized_push_interval client node.push_interval) ts.user_report
    × (renews node mode ≡ true → Runs day ts.renew_cert)
    × (dynamic_speed_limit_enabled config ≡ true
        → Runs (dynamic_speed_limit_interval config) ts.dynamic_speed_limit)

prepare_tasks-Prepared :
    (client : Client) (config : LimitConfig) (mode : Str) (node : NodeInfo) (ts : Tasks)
    → Ensures
        (λ r. Prepared client config mode node r × (r.online_ip_report ≡ ts.online_ip_report))
        (prepare_tasks client config mode node ts)
unfolding prepare_tasks start checked_execute has_closed execute_locked arm
prepare_tasks-Prepared client config mode node ts = elim (Bool-cases (renews node mode)) [
  | inl cert ↦ elim (Bool-cases (dynamic_speed_limit_enabled config)) [
    | inl speed ↦
        rw (cert, speed)
          (
            (
              (refl, refl, refl),
              (refl, refl, refl),
              (λ _. (refl, refl, refl)),
              λ _. (refl, refl, refl),
            ),
            refl,
          )
    | inr off ↦
        rw (cert, off)
          (((refl, refl, refl), (refl, refl, refl), (λ _. (refl, refl, refl)), λ q. cc), refl)
  ]
  | inr no_cert ↦ elim (Bool-cases (dynamic_speed_limit_enabled config)) [
    | inl speed ↦
        rw (no_cert, speed)
          (((refl, refl, refl), (refl, refl, refl), (λ q. cc), λ _. (refl, refl, refl)), refl)
    | inr off ↦
        rw (no_cert, off) (((refl, refl, refl), (refl, refl, refl), (λ q. cc), λ q. cc), refl)
  ]
]

-- The online sync leaves the other tasks as they are.
Ensured-Prepared :
    (client : Client) (config : LimitConfig) (mode : Str) (users : List UserInfo) (node : NodeInfo)
    (ts : Tasks) (r : Tasks × List Job)
    → Prepared client config mode node ts
    → Ensured client config users ts r
    → Prepared client config mode node r.0
Ensured-Prepared client config mode users node ts r (pull, push, cert, speed) (synced, ran, same) =
    (
      subst (Runs _) (sym (ap (λ z. z.node_info_monitor) same)) pull,
      subst (Runs _) (sym (ap (λ z. z.user_report) same)) push,
      (λ q. subst (Runs _) (sym (ap (λ z. z.renew_cert) same)) (cert q)),
      λ q. subst (Runs _) (sym (ap (λ z. z.dynamic_speed_limit) same)) (speed q),
    )

-- (an online sync that is there runs, and its mutex is free) startTasks ends. Then the monitor and the
-- traffic report run with the node's intervals, the daily renewal runs if the node has TLS and its
-- mode asks for it, the speed check if it is enabled, and the online sync exactly if it is enabled.
pub start_tasks-Prepared :
    (client : Client) (config : LimitConfig) (mode : Str) (users : List UserInfo) (node : NodeInfo)
    (ts : Tasks)
    → Healthy ts.online_ip_report
    → Ensures
        (λ r. Prepared client config mode node r.0 × Synced client config users r.0)
        (start_tasks client config mode users node ts)
unfolding start_tasks
start_tasks-Prepared client config mode users node ts h =
    Ensures-bind
      (λ ready.
        Prepared client config mode node ready × (ready.online_ip_report ≡ ts.online_ip_report))
      (λ r. Prepared client config mode node r.0 × Synced client config users r.0)
      (prepare_tasks client config mode node ts) _
      (prepare_tasks-Prepared client config mode node ts)
      (λ ready p.
        Ensures-map (Ensured client config users ready)
          (λ r. Prepared client config mode node r.0 × Synced client config users r.0)
          (ensure_online_ip_sync_task client config users ready) _
          (ensure_online_ip_sync_task_lem client config users ready (subst Healthy (sym p.1) h))
          (λ r e. (Ensured-Prepared client config mode users node ready r p.0 e, e.0)))

-- (the tasks that are there run, and their mutexes are free) Close ends, and leaves every task of the
-- controller stopped and without a timer.
pub close_tasks-Stopped :
    (ts : Tasks)
    → Healthy ts.node_info_monitor
    → Healthy ts.user_report
    → Healthy ts.renew_cert
    → Healthy ts.dynamic_speed_limit
    → Healthy ts.online_ip_report
    → Ensures
        (λ r.
          Stopped r.node_info_monitor
          × Stopped r.user_report
          × Stopped r.renew_cert
          × Stopped r.dynamic_speed_limit
          × Stopped r.online_ip_report)
        (close_tasks ts)
unfolding close_tasks
close_tasks-Stopped ts a b c d e =
    Ensures-bind Stopped _ _ _ (close_some-Stopped ts.node_info_monitor a) (λ a' sa.
      Ensures-bind Stopped _ _ _ (close_some-Stopped ts.user_report b) (λ b' sb.
        Ensures-bind Stopped _ _ _ (close_some-Stopped ts.renew_cert c) (λ c' sc.
          Ensures-bind Stopped _ _ _ (close_some-Stopped ts.dynamic_speed_limit d) (λ d' sd.
            Ensures-bind Stopped _ _ _ (close_some-Stopped ts.online_ip_report e)
              (λ e' se. (sa, sb, sc, sd, se))))))
