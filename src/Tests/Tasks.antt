-- ===== src/Tests/Tasks.antt =====
-- Tests of common/task/task.go.
use yav2bx.Base.{◌≡◌, refl, true, false, [], ◌∷◌, none, some}
use yav2bx.Int.{pos}
use yav2bx.Task.{Task, run_due}
use yav2bx.Task.Timers.{payload}
use yav2bx.Task.Deadlock.{check_interval, run_due-check_interval}

-- A task that was started without a first run.
abbrev started : Task
started = record {
  interval = pos 5;
  locked = false;
  running = true;
  timer = some 0;
  pending = 0 ∷ [];
  due = 0;
  next = 1;
}

-- Its timer has expired.
abbrev expired : Task
expired = record started { pending = []; due = 1 }

run_due-check_interval_example : run_due (check_interval (payload false) (pos 9)) expired ≡ none
run_due-check_interval_example =
    run_due-check_interval expired (payload false) (pos 9) refl refl refl refl
