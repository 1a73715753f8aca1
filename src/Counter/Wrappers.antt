-- ===== src/Counter/Wrappers.antt =====
-- common/counter/conn.go: which calls of a wrapped connection add to a user's traffic.
use yav2bx.Base.{◌≡◌, refl, Bool, true, false, some, arith, if◌then◌else◌}
use yav2bx.Int.{ℤ, pos, ◌+ℤ◌, lt_ℤ, wrap64}
use yav2bx.Keys.{Str, str_eq, str_beq, str_beq_iff, nat_eq}
use yav2bx.Maps.{lookup, insert}
use yav2bx.Counter.{
  TrafficCounter, storage_at, add_up, add_down, store_up, store_down, ConnCounter, read, write,
  read_buffer, write_buffer,
}
use yav2bx.Counter.Views.{IsValid, view, write-view, storage-view}

-- The wrapper counts for the user.
abbrev pub CountsFor : ConnCounter → TrafficCounter → Str → Type 0
CountsFor w c id = lookup id c.counters ≡ some w.storage

module _ (w : ConnCounter) (c : TrafficCounter) (id j : Str) (v : IsValid c)
    (own : CountsFor w c id) where
  add_up-view :
      (n : ℤ)
      → view (add_up c w.storage n) j
        ≡ (if str_beq id j then (wrap64 ((view c id).0 +ℤ n), (view c id).1) else view c j)
  unfolding add_up
  add_up-view n =
      let s = storage_at c w.storage in
      ground (
        arith,
        write-view c id j w.storage (record s { up_counter = wrap64 (s.up_counter +ℤ n) }) v own,
        storage-view c id w.storage own,
      )

  add_down-view :
      (n : ℤ)
      → view (add_down c w.storage n) j
        ≡ (if str_beq id j then ((view c id).0, wrap64 ((view c id).1 +ℤ n)) else view c j)
  unfolding add_down
  add_down-view n =
      let s = storage_at c w.storage in
      ground (
        arith,
        write-view c id j w.storage (record s { down_counter = wrap64 (s.down_counter +ℤ n) }) v
            own,
        storage-view c id w.storage own,
      )

  -- A buffer that is read without an error adds its length to the upload of the wrapper's user and
  -- changes no other number; a failed or empty one changes nothing.
  read_buffer-view :
      (n : ℤ) (failed : Bool)
      → view (read_buffer w c n failed) j ≡ (
          if failed
          then view c j
          else if lt_ℤ (pos 0) n
          then (if str_beq id j then (wrap64 ((view c id).0 +ℤ n), (view c id).1) else view c j)
          else view c j)
  unfolding read_buffer
  read_buffer-view n true = refl
  read_buffer-view n false = ground (arith, add_up-view n)

  write_buffer-view :
      (n : ℤ) (failed : Bool)
      → view (write_buffer w c n failed) j ≡ (
          if failed
          then view c j
          else if lt_ℤ (pos 0) n
          then (if str_beq id j then ((view c id).0, wrap64 ((view c id).1 +ℤ n)) else view c j)
          else view c j)
  unfolding write_buffer
  write_buffer-view n true = refl
  write_buffer-view n false = ground (arith, add_down-view n)

  -- Read and Write put the length of the last call in the place of the user's traffic: what was counted
  -- before is lost.
  pub read-write-view :
      (n m : ℤ) (failed failed' : Bool)
      → view (write w (read w c n failed) m failed') j ≡ (if str_beq id j then (n, m) else view c j)
  unfolding read write store_up store_down
  read-write-view n m failed failed' =
      let s1 = record (storage_at c w.storage) { up_counter = n } in
      let c1 = record c { store = insert w.storage s1 c.store } in
      let valid : IsValid c1 = record { allocated = v.allocated; apart = v.apart } in
      ground (
        arith,
        write-view c1 id j w.storage (record (storage_at c1 w.storage) { down_counter = m }) valid
            own,
        write-view c id j w.storage s1 v own,
        write-view c id id w.storage s1 v own,
        storage-view c1 id w.storage own,
        str_beq_iff id id,
      )
