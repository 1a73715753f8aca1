-- ===== src/Tests/Limits.antt =====
-- Tests of limiter/limiter.go.
use yav2bx.Base.{◌≡◌, refl, true, false, [], ◌∷◌, none, arith, Ensures}
use yav2bx.Int.{ℤ, pos}
use yav2bx.Keys.{Str, str_eq, str_beq, int_eq}
use yav2bx.Maps.{lookup}
use yav2bx.Panel.{UserInfo}
use yav2bx.Conn.{counted}
use yav2bx.Conn.Invariant.{IsValid}
use yav2bx.Limiter.{UserLimitInfo, Limiter, get_alive}
use yav2bx.Limiter.Check.{Verdict, track_device, check_limit}
use yav2bx.Limiter.Known.{check_limit-IsValid}
use yav2bx.Limiter.Online.{snapshot_online_users, reported}
use yav2bx.Limiter.Snapshot.{snapshot_online_users_lem, NoRepeat, is_online}
use yav2bx.Tests.Connections.{alice, home, work, busy}

abbrev pub node : Str
node = b'n' ∷ []

-- The key of Alice's record, "n|a".
abbrev pub alice_at : Str
alice_at = b'n' ∷ b'|' ∷ b'a' ∷ []

-- A dynamic limit until second 10, and one device.
abbrev pub alice_info : UserLimitInfo
alice_info = record {
  uid = pos 7;
  speed_limit = pos 0;
  device_limit = pos 1;
  dynamic_speed_limit = pos 50;
  expire_time = pos 10;
  over_limit = false;
}

abbrev pub limiter : Limiter Str ℤ
limiter = record {
  domain_rules = [];
  protocol_rules = [];
  speed_limit = pos 0;
  user_online_ip = (alice_at, (home, pos 7) ∷ []) ∷ [];
  old_user_online = [];
  uuid_to_uid = (alice, pos 7) ∷ [];
  user_limit_info = (alice_at, alice_info) ∷ [];
  conn_limiter = record busy { count = []; ip = [] };
  speed_limiter = [];
  alive_list = (pos 7, pos 1) ∷ [];
}

pub limiter-IsValid : IsValid limiter.conn_limiter
limiter-IsValid = record {
  limit_ok = omega arith;
  counts = tt;
  counts_distinct = tt;
  users = tt;
  users_distinct = tt;
}

abbrev pub as_limit : ℤ → ℤ
as_limit n = n

check_limit-IsValid_example :
    Ensures
      (λ r. IsValid r.0.conn_limiter)
      (check_limit limiter alice_at home true true 20_000_000_000 as_limit)
check_limit-IsValid_example =
    check_limit-IsValid limiter alice_at home true true 20_000_000_000 as_limit limiter-IsValid

work-rejected : (track_device limiter alice_at work (pos 7) (pos 1)).1 ≡ true
unfolding track_device lookup str_beq get_alive
work-rejected = refl

work-accepted : (track_device limiter alice_at work (pos 7) (pos 2)).1 ≡ false
unfolding track_device lookup str_beq get_alive
work-accepted = refl

snapshot_online_users_lem_example :
    NoRepeat (snapshot_online_users (record limiter { conn_limiter = busy }))
    × ((uid : ℤ) (ip : Str)
        → reported uid ip (snapshot_online_users (record limiter { conn_limiter = busy }))
          ≡ is_online limiter.user_limit_info uid ip busy.ip)
snapshot_online_users_lem_example =
    snapshot_online_users_lem (record limiter { conn_limiter = busy })

abbrev pub alice_user : UserInfo
alice_user = record { id = pos 7; uuid = alice; speed_limit = pos 30; device_limit = pos 2 }

-- The state behind the call that drops Alice's record, at second 20.
abbrev locked : Verdict Str ℤ
locked = (
  record limiter {
    user_limit_info = [];
    conn_limiter = record busy {
      count = (alice_at, pos 1) ∷ [];
      ip = (alice_at, (home, counted (pos 2)) ∷ []) ∷ [];
    };
  },
  none,
  false,
)
