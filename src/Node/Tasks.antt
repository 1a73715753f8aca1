-- ===== src/Node/Tasks.antt =====
-- node/controller.go and node/task.go: the periodic tasks of a controller. What a task executes works
-- on the controller; here it is named, in the order in which it runs. None of the tasks that run at
-- once fails or touches a task, so that for them Execute is `no_op`.
pub mod Running
use yav2bx.Base.{
  ◌*◌, Bool, true, false, not, ◌||◌, List, [], ◌∷◌, ◌++◌, Option, none, some, if◌then◌else◌, ◌>>=◌,
}
use yav2bx.Int.{ℤ, pos, eq_ℤ}
use yav2bx.Keys.{Str, str_beq}
use yav2bx.Panel.{UserInfo, LimitConfig, Client}
use yav2bx.Text.{bytes}
use yav2bx.Task.{Task, Outcome, new_task, start, close}
use yav2bx.Node.{NodeInfo}
use yav2bx.Node.Traffic.{dynamic_speed_limit_enabled}
use yav2bx.Node.Speed.{
  normalized_push_interval, dynamic_speed_limit_interval, online_ip_sync_enabled,
  online_ip_sync_interval,
}

pub data Job : Type 0 where
  report_user_traffic : Job
  renew_cert : Job
  sync_online_users : Job

-- The fields of Controller that point to tasks.
pub record Tasks : Type 0 where
  pub node_info_monitor : Option Task
  pub user_report : Option Task
  pub renew_cert : Option Task
  pub dynamic_speed_limit : Option Task
  pub online_ip_report : Option Task

abbrev pub no_op : Task → Outcome
no_op t = some (t, false)

-- A new task that is started; the error of Start is dropped.
abbrev pub started : Bool → ℤ → Option Task
started first interval = start no_op first (new_task interval) >>= λ r. some r.0

-- `if task != nil { task.Close() }`
abbrev pub close_some : Option Task → Option (Option Task)
close_some none = some none
close_some (some t) = close t >>= λ closed. some (some closed)

-- The end of ensureOnlineIPSyncTask.
unfoldable pub restart_online_ip : ℤ → Tasks → Option (Tasks × List Job)
restart_online_ip interval ts = close_some ts.online_ip_report >>= λ closed.
    (started true interval >>= λ t.
    some (record ts { online_ip_report = some t }, sync_online_users ∷ []))

-- Whether a task has the interval.
abbrev pub has_interval : ℤ → Option Task → Bool
has_interval interval none = false
has_interval interval (some t) = eq_ℤ t.interval interval

-- ensureOnlineIPSyncTask
unfoldable pub ensure_online_ip_sync_task :
    Client → LimitConfig → List UserInfo → Tasks → Option (Tasks × List Job)
ensure_online_ip_sync_task client config users ts =
    let interval = online_ip_sync_interval config in
    if not (online_ip_sync_enabled client config users)
    then (close_some ts.online_ip_report >>= λ closed.
        some (record ts { online_ip_report = none }, []))
    else if has_interval interval ts.online_ip_report
    then some (ts, [])
    else restart_online_ip interval ts

-- The modes in which startTasks starts no task for the certificate.
abbrev pub keeps_cert : Str → Bool
keeps_cert mode =
    str_beq mode (bytes "none")
    || str_beq mode []
    || str_beq mode (bytes "file")
    || str_beq mode (bytes "self")

abbrev pub renews : NodeInfo → Str → Bool
renews node mode = if eq_ℤ node.security (pos 1) then not (keeps_cert mode) else false

-- A day in nanoseconds.
abbrev pub day : ℤ
day = pos (24 * 3600 * 1_000_000_000)

-- startTasks up to the online sync.
unfoldable pub prepare_tasks : Client → LimitConfig → Str → NodeInfo → Tasks → Option Tasks
prepare_tasks client config cert_mode node ts =
    let speed_interval = dynamic_speed_limit_interval config in
    started false node.pull_interval >>= λ monitor.
    (started true (normalized_push_interval client node.push_interval) >>= λ push.
    ((if renews node cert_mode
        then (started true day >>= λ t. some (some t))
        else some ts.renew_cert)
      >>= λ cert.
          ((if dynamic_speed_limit_enabled config
              then (started false speed_interval >>= λ t. some (some t))
              else some ts.dynamic_speed_limit)
            >>= λ speed. some (record ts {
              node_info_monitor = some monitor;
              user_report = some push;
              renew_cert = cert;
              dynamic_speed_limit = speed;
            }))))

-- startTasks; its resetTraffic belongs to the controller's state, and is done by `start`.
unfoldable pub start_tasks :
    Client → LimitConfig → Str → List UserInfo → NodeInfo → Tasks → Option (Tasks × List Job)
start_tasks client config cert_mode users node ts =
    prepare_tasks client config cert_mode node ts >>= λ ready.
    (ensure_online_ip_sync_task client config users ready >>= λ r. some (
      r.0,
      report_user_traffic ∷ ((if renews node cert_mode then Job.renew_cert ∷ [] else []) ++ r.1),
    ))

-- The part of Close on the tasks; the fields keep the closed tasks.
unfoldable pub close_tasks : Tasks → Option Tasks
close_tasks ts = close_some ts.node_info_monitor >>= λ monitor.
    (close_some ts.user_report >>= λ push.
    (close_some ts.renew_cert >>= λ cert.
    (close_some ts.dynamic_speed_limit >>= λ speed.
    (close_some ts.online_ip_report >>= λ online. some (record {
      node_info_monitor = monitor;
      user_report = push;
      renew_cert = cert;
      dynamic_speed_limit = speed;
      online_ip_report = online;
    })))))
