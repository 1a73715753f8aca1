-- ===== src/Tests/Traffic.antt =====
-- Tests of common/counter.
use yav2bx.Base.{◌≡◌, refl, false, [], ◌∷◌, if◌then◌else◌}
use yav2bx.Int.{pos}
use yav2bx.Keys.{str_beq}
use yav2bx.Counter.{TrafficCounter, ConnCounter, new_traffic_counter, get_counter, read, write}
use yav2bx.Counter.Refines.{Op, run_ops, spec_ops, run_ops_lem}
use yav2bx.Counter.Views.{IsValid, view, new_traffic_counter-IsValid, get_counter-IsValid}
use yav2bx.Counter.Wrappers.{CountsFor, read-write-view}
use yav2bx.Tests.Connections.{alice, bob}
use yav2bx.Maps.{insert, lookup}

-- Alice uploads 5 bytes and then 4, and Bob's counts are deleted between.
run_ops_lem_example :
    view
      (run_ops
        (Op.txs alice (pos 5) ∷ Op.deletes bob ∷ Op.txs alice (pos 4) ∷ [])
        new_traffic_counter)
      alice
    ≡ spec_ops
        (Op.txs alice (pos 5) ∷ Op.deletes bob ∷ Op.txs alice (pos 4) ∷ [])
        alice
        (pos 0, pos 0)
run_ops_lem_example =
    run_ops_lem (Op.txs alice (pos 5) ∷ Op.deletes bob ∷ Op.txs alice (pos 4) ∷ []) alice

abbrev pub traffic : TrafficCounter
traffic = (get_counter new_traffic_counter alice).0

abbrev wrapper : ConnCounter
wrapper = record { storage = 0 }

pub traffic-IsValid : IsValid traffic
traffic-IsValid = get_counter-IsValid new_traffic_counter alice new_traffic_counter-IsValid

wrapper-CountsFor : CountsFor wrapper traffic alice
unfolding lookup get_counter new_traffic_counter insert str_beq
wrapper-CountsFor = refl

read-write-view_example :
    view (write wrapper (read wrapper traffic (pos 9) false) (pos 3) false) alice
    ≡ (if str_beq alice alice then (pos 9, pos 3) else view traffic alice)
read-write-view_example =
    read-write-view wrapper traffic alice alice traffic-IsValid wrapper-CountsFor (pos 9) (pos 3)
      false false
