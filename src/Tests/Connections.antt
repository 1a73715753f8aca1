-- ===== src/Tests/Connections.antt =====
-- Tests of limiter/conn.go.
use yav2bx.Base.{List, ◌≡◌, ◌≢◌, refl, true, false, [], ◌∷◌, some, arith, Ensures}
use yav2bx.Int.{pos}
use yav2bx.Keys.{Str, str_eq, str_beq}
use yav2bx.Maps.{lookup, insert}
use yav2bx.Conn.{
  ConnLimiter, counted, add_conn_count, del_conn_count, add_count, add_ip, add_online,
  over_ip_limit, range_limit, touch,
}
use yav2bx.Conn.Invariant.{IsValid, add_conn_count-IsValid}
use yav2bx.Conn.Decision.{entry, rejects, add_conn_count_decision}
use yav2bx.Conn.Release.{NoPacketOnly, del_conn_count-IsValid}
use yav2bx.Conn.Lockout.{Event, run_events, Locked, add_conn_count_lockout}
use yav2bx.Conn.RoundTrip.{add-del_roundtrip}

abbrev pub alice : Str
alice = b'a' ∷ []

abbrev pub bob : Str
bob = b'b' ∷ []

abbrev pub home : Str
home = b'1' ∷ []

abbrev pub work : Str
work = b'2' ∷ []

-- Alice has one connection, from home; one address and three connections are allowed.
abbrev pub busy : ConnLimiter
busy = record {
  realtime = true;
  ip_limit = pos 1;
  conn_limit = pos 3;
  count = (alice, pos 1) ∷ [];
  ip = (alice, (home, counted (pos 2)) ∷ []) ∷ [];
}

busy-IsValid : IsValid busy
unfolding lookup
busy-IsValid = record {
  limit_ok = omega arith;
  counts = ((omega arith, omega arith), tt);
  counts_distinct = (refl, tt);
  users = (
    record {
      online = omega arith;
      within = λ h. omega arith;
      distinct = (refl, tt);
      entries = (omega arith, tt);
    },
    tt,
  );
  users_distinct = (refl, tt);
}

-- A second address is rejected, and its connection is counted.
rejects_second_address :
    add_conn_count busy alice work true 0 ≡ some (record busy { count = (alice, pos 2) ∷ [] }, true)
unfolding add_conn_count add_count lookup str_beq add_online add_ip over_ip_limit range_limit insert
rejects_second_address = refl

add_conn_count-IsValid_example : Ensures (λ r. IsValid r.0) (add_conn_count busy alice work true 0)
add_conn_count-IsValid_example = add_conn_count-IsValid busy alice work true 0 busy-IsValid

add_conn_count_decision_example :
    Ensures (λ r. r.1 ≡ rejects busy alice work) (add_conn_count busy alice work true 0)
add_conn_count_decision_example = add_conn_count_decision busy alice work true 0 busy-IsValid

-- Alice's connection closes.
home-NoPacketOnly : NoPacketOnly busy alice home
unfolding lookup
home-NoPacketOnly e = absurd (ground (arith, e))

del_conn_count-IsValid_example : Ensures IsValid (del_conn_count busy alice home)
del_conn_count-IsValid_example =
    del_conn_count-IsValid busy alice home busy-IsValid home-NoPacketOnly

-- A second connection from home, and its end.
abbrev twice : ConnLimiter
twice = record busy { count = (alice, pos 2) ∷ []; ip = (alice, (home, counted (pos 4)) ∷ []) ∷ [] }

adds_second : add_conn_count busy alice home true 0 ≡ some (twice, false)
unfolding add_conn_count add_count lookup str_beq add_online add_ip touch insert
adds_second = refl

limited : busy.ip_limit ≢ pos 0
limited e = absurd (ground (arith, e))

add-del_roundtrip_example :
    Ensures
      (λ c''.
        (u i : Str) → (lookup u c''.count ≡ lookup u busy.count) × (entry c'' u i ≡ entry busy u i))
      (del_conn_count twice alice home)
add-del_roundtrip_example =
    add-del_roundtrip busy alice home 0 twice busy-IsValid refl limited adds_second

-- Outside realtime mode, Alice has opened three connections.
abbrev spent : ConnLimiter
spent = record busy { realtime = false; count = (alice, pos 3) ∷ []; ip = [] }

spent-Locked : Locked alice (pos 3) spent
unfolding lookup str_beq
spent-Locked = (refl, refl, refl, refl)

-- All of them are closed, a minute goes by, and Bob comes.
abbrev day : List Event
day =
    Event.closed alice home
    ∷ Event.closed alice home
    ∷ Event.closed alice home
    ∷ Event.swept 60_000_000_000
    ∷ Event.opened bob work true 61_000_000_000
    ∷ []

add_conn_count_lockout_example :
    Ensures
      (λ c'. add_conn_count c' alice home true 62_000_000_000 ≡ some (c', true))
      (run_events day spent)
add_conn_count_lockout_example =
    add_conn_count_lockout day spent alice home true 62_000_000_000 (pos 3) spent-Locked
