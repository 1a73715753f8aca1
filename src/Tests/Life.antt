-- ===== src/Tests/Life.antt =====
-- Tests of node/controller.go, Start and Close, and of the controllers' tasks.
use yav2bx.Base.{ℕ, ◌≡◌, refl, true, false, [], ◌∷◌, List, none, some, if◌then◌else◌, Ensures}
use yav2bx.Int.{ℤ, pos}
use yav2bx.Keys.{Str, str_eq}
use yav2bx.Maps.{lookup}
use yav2bx.Panel.{Reply}
use yav2bx.Task.{Task}
use yav2bx.Node.Tasks.{start_tasks}
use yav2bx.Node.Tasks.Running.{Prepared, Synced, start_tasks-Prepared}
use yav2bx.Node.Lifecycle.{World, Slot, no_tasks, start, close_nodes}
use yav2bx.Node.Lifecycle.Start.{Serving, start-Serving}
use yav2bx.Node.Lifecycle.Close.{has_vacant, owns, close_nodes_lem}
use yav2bx.Tests.Limits.{node, limiter}
use yav2bx.Tests.Nodes.{counting, info, config, client, options, compile, no_rules, bob_user}

start_tasks-Prepared_example :
    Ensures
      (λ r. Prepared client config [] info r.0 × Synced client config (bob_user ∷ []) r.0)
      (start_tasks client config [] (bob_user ∷ []) info no_tasks)
start_tasks-Prepared_example =
    start_tasks-Prepared client config [] (bob_user ∷ []) info no_tasks tt

abbrev world : World ℕ Str ℤ
world = (0, [])

start-Serving_example : Ensures (Serving options client [] info (bob_user ∷ [])) (
    start counting options client compile [] false
      (Reply.answer info)
      (Reply.answer (bob_user ∷ []))
      []
      world)
start-Serving_example =
    start-Serving options client [] counting compile false info bob_user [] [] world no_rules refl
      (λ tag s. refl) (λ tag s q. cc)

-- A controller whose monitor runs.
abbrev monitoring : Task
monitoring = record {
  interval = pos 60;
  locked = false;
  running = true;
  timer = some 0;
  pending = 0 ∷ [];
  due = 0;
  next = 1;
}

abbrev slots : List Slot
slots = Slot.controller node (record no_tasks { node_info_monitor = some monitoring }) ∷ []

abbrev limited : World ℕ Str ℤ
limited = (0, (node, limiter) ∷ [])

close_nodes_lem_example :
    (has_vacant slots ≡ true → close_nodes counting slots limited ≡ none)
    × (has_vacant slots ≡ false
        → Ensures
            (λ w'. (t : Str) → lookup t w'.1 ≡ (if owns t slots then none else lookup t limited.1))
            (close_nodes counting slots limited))
close_nodes_lem_example =
    close_nodes_lem counting slots limited (((refl, refl), tt, tt, tt, tt), tt) (λ tag s. refl)
