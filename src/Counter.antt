-- ===== src/Counter.antt =====
-- common/counter: traffic.go, the traffic of each user, and conn.go, the wrappers that count it. The
-- wrappers hold pointers to the storages, so these live in a store, at addresses below `next`.
-- A call of the wrapped connection is an argument: its byte count, and whether it failed.
pub mod Refines
pub mod Views
pub mod Wrappers
use yav2bx.Base.{ℕ, ◌+◌, Bool, not, ◌||◌, List, [], ◌∷◌, Option, none, some, if◌then◌else◌, length}
use yav2bx.Int.{ℤ, pos, ◌+ℤ◌, lt_ℤ, wrap64}
use yav2bx.Keys.{Str, str_eq, nat_eq}
use yav2bx.Maps.{Map, lookup, insert, erase}

pub record TrafficStorage : Type 0 where
  pub up_counter : ℤ
  pub down_counter : ℤ

pub record TrafficCounter : Type 0 where
  pub counters : Map Str ℕ
  pub store : Map ℕ TrafficStorage
  pub next : ℕ

abbrev pub zero_storage : TrafficStorage
zero_storage = record { up_counter = pos 0; down_counter = pos 0 }

-- NewTrafficCounter
unfoldable pub new_traffic_counter : TrafficCounter
new_traffic_counter = record { counters = []; store = []; next = 0 }

abbrev pub storage_at : TrafficCounter → ℕ → TrafficStorage
storage_at c a = elim (lookup a c.store) [ none ↦ zero_storage | some s ↦ s ]

-- GetCounter: the state, and the address of the storage.
unfoldable pub get_counter : TrafficCounter → Str → TrafficCounter × ℕ
get_counter c id = elim (lookup id c.counters) [
  | some a ↦ (c, a)
  | none ↦ (
    record {
      counters = insert id c.next c.counters;
      store = insert c.next zero_storage c.store;
      next = c.next + 1;
    },
    c.next,
  )
]

unfoldable pub get_up_count : TrafficCounter → Str → ℤ
get_up_count c id = elim (lookup id c.counters) [
  | some a ↦ (storage_at c a).up_counter
  | none ↦ pos 0
]

unfoldable pub get_down_count : TrafficCounter → Str → ℤ
get_down_count c id = elim (lookup id c.counters) [
  | some a ↦ (storage_at c a).down_counter
  | none ↦ pos 0
]

-- Len
unfoldable pub len : TrafficCounter → ℕ
len c = length c.counters

-- The atomic operations of a storage.
unfoldable pub add_up : TrafficCounter → ℕ → ℤ → TrafficCounter
add_up c a n =
    let s = storage_at c a in
    record c { store = insert a (record s { up_counter = wrap64 (s.up_counter +ℤ n) }) c.store }

unfoldable pub add_down : TrafficCounter → ℕ → ℤ → TrafficCounter
add_down c a n =
    let s = storage_at c a in
    record c { store = insert a (record s { down_counter = wrap64 (s.down_counter +ℤ n) }) c.store }

unfoldable pub store_up : TrafficCounter → ℕ → ℤ → TrafficCounter
store_up c a n = record c { store = insert a (record (storage_at c a) { up_counter = n }) c.store }

unfoldable pub store_down : TrafficCounter → ℕ → ℤ → TrafficCounter
store_down c a n = record c {
  store = insert a (record (storage_at c a) { down_counter = n }) c.store;
}

unfoldable pub reset : TrafficCounter → Str → TrafficCounter
reset c id = elim (lookup id c.counters) [
  | some a ↦ store_down (store_up c a (pos 0)) a (pos 0)
  | none ↦ c
]

unfoldable pub delete : TrafficCounter → Str → TrafficCounter
delete c id = record c { counters = erase id c.counters }

unfoldable pub rx : TrafficCounter → Str → ℤ → TrafficCounter
rx c id n = let r = get_counter c id in add_down r.0 r.1 n

unfoldable pub tx : TrafficCounter → Str → ℤ → TrafficCounter
tx c id n = let r = get_counter c id in add_up r.0 r.1 n

-- ConnCounter and PacketConnCounter hold the address of a storage.
pub record ConnCounter : Type 0 where
  pub storage : ℕ

-- NewConnCounter over GetCounter, as the hooks call it
unfoldable pub new_conn_counter : TrafficCounter → Str → TrafficCounter × ConnCounter
new_conn_counter t id = let r = get_counter t id in (r.0, record { storage = r.1 })

-- readFunc and writeFunc
unfoldable pub read_func : ConnCounter → TrafficCounter → ℤ → TrafficCounter
read_func c t n = add_up t c.storage n

unfoldable pub write_func : ConnCounter → TrafficCounter → ℤ → TrafficCounter
write_func c t n = add_down t c.storage n

-- Read and Write: the count is stored, also on an error.
unfoldable pub read : ConnCounter → TrafficCounter → ℤ → Bool → TrafficCounter
read c t n failed = store_up t c.storage n

unfoldable pub write : ConnCounter → TrafficCounter → ℤ → Bool → TrafficCounter
write c t n failed = store_down t c.storage n

-- ReadBuffer and WriteBuffer
unfoldable pub read_buffer : ConnCounter → TrafficCounter → ℤ → Bool → TrafficCounter
read_buffer c t n failed = if failed then t else if lt_ℤ (pos 0) n then add_up t c.storage n else t

unfoldable pub write_buffer : ConnCounter → TrafficCounter → ℤ → Bool → TrafficCounter
write_buffer c t n failed =
    if failed then t else if lt_ℤ (pos 0) n then add_down t c.storage n else t

-- ReadPacket and WritePacket
unfoldable pub read_packet : ConnCounter → TrafficCounter → ℤ → Bool → TrafficCounter
read_packet c t n failed = if failed then t else add_up t c.storage n

unfoldable pub write_packet : ConnCounter → TrafficCounter → ℤ → Bool → TrafficCounter
write_packet c t n failed =
    if failed then t else if lt_ℤ (pos 0) n then add_down t c.storage n else t
