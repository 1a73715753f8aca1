-- ===== src/Tests/Hysteria.antt =====
-- Tests of core/hy2/hook.go, core/hy2/user.go and core/hy2/logger.go.
use yav2bx.Base.{true, Ensures, ◌≡◌, refl, [], ◌∷◌, some, if◌then◌else◌, not, ◌||◌, false}
use yav2bx.Int.{pos, wrap64, ℤ}
use yav2bx.Keys.{Str, str_eq, str_beq}
use yav2bx.Maps.{Map, lookup, insert, erase}
use yav2bx.Panel.{user_tag, normalize_ip, cut_prefix}
use yav2bx.Conn.{
  add_conn_count, add_count, add_online, first_entry, add_ip, over_ip_limit, range_limit, touch,
}
use yav2bx.Limiter.Check.{
  check_limit, check_user, track_device, user_limit, speed_bucket, byte_limit,
}
use yav2bx.Hy2.Logger.{has_record, connect, connect-log_traffic}
use yav2bx.Tests.Cores.{one_connection}
use yav2bx.Limiter.{Limiter, determine_speed_limit, get_alive}
use yav2bx.Counter.Refines.{Op, spec_op}
use yav2bx.Hy2.{HookServer, as_int, log_traffic}
use yav2bx.Hy2.Collect.{HookOk, hook_view, log_traffic-view}
use yav2bx.Tests.Connections.{alice, home}
use yav2bx.Tests.Limits.{node, limiter, as_limit}
use yav2bx.Tests.Traffic.{traffic, traffic-IsValid}
use yav2bx.Counter.{get_counter, new_traffic_counter}

abbrev hook : HookServer
hook = record { tag = node; counter = (node, traffic) ∷ [] }

hook-HookOk : HookOk hook
unfolding lookup get_counter str_beq new_traffic_counter
hook-HookOk = traffic-IsValid

abbrev registry : Map Str (Limiter Str ℤ)
registry = (node, limiter) ∷ []

log_traffic-view_example :
    let r = log_traffic registry hook alice 5 6 in
    hook_view r.1 alice ≡ (
      if r.2
      then spec_op
          (Op.txs alice (as_int 5))
          alice
          (spec_op (Op.rxs alice (as_int 6)) alice (hook_view hook alice))
      else hook_view hook alice)
log_traffic-view_example = log_traffic-view registry hook alice alice 5 6 hook-HookOk

abbrev nodes : Map Str HookServer
nodes = (node, hook) ∷ []

hook-found : lookup hook.tag nodes ≡ some hook
unfolding lookup str_beq
hook-found = refl

checks :
    check_limit limiter (user_tag hook.tag alice) home true true 0 as_limit
    ≡ some (one_connection, some (pos 6_250_000), false)
unfolding check_limit add_conn_count add_count add_online insert check_user track_device user_limit
    normalize_ip speed_bucket byte_limit wrap64 determine_speed_limit first_entry add_ip
    over_ip_limit range_limit touch get_alive erase cut_prefix user_tag lookup str_beq
checks = refl

hook_limiter : lookup hook.tag registry ≡ some limiter
unfolding lookup str_beq
hook_limiter = refl

connect-log_traffic_example :
    Ensures
      (λ reg'. (log_traffic reg' hook alice 5 6).2 ≡ (
        not false
        || not (has_record (lookup (user_tag hook.tag alice) one_connection.user_limit_info))))
      (connect registry hook.tag alice home true 0 as_limit)
connect-log_traffic_example =
    connect-log_traffic registry hook alice home true 0 as_limit limiter one_connection
      (some (pos 6_250_000)) false 5 6 hook_limiter checks
