-- ===== src/Task/Deadlock.antt =====
-- common/task/task.go, and its use by nodeInfoMonitor in node/task.go: Execute runs with the mutex held.
use yav2bx.Base.{◌≡◌, true, false, none, some, arith, if◌then◌else◌, ◌>>=◌}
use yav2bx.Int.{ℤ, eq_ℤ}
use yav2bx.Task.{Task, Outcome, has_closed, execute_locked, checked_execute, start, close, run_due}

-- The end of nodeInfoMonitor, on its own task: with a new interval, it closes the task and starts it.
unfoldable pub check_interval : (Task → Outcome) → ℤ → Task → Outcome
check_interval monitor pull_interval t =
    if eq_ℤ t.interval pull_interval
    then some (t, false)
    else if eq_ℤ pull_interval (ℤ.pos 0)
    then some (t, false)
    else (close (record t { interval = pull_interval }) >>= λ t1. start monitor false t1)

-- (a new nonzero interval, a running task whose mutex is free) The callback of the task that finds the
-- new interval waits for ever: its Close locks the mutex that checkedExecute holds.
pub run_due-check_interval :
    (t : Task) (monitor : Task → Outcome) (pull_interval : ℤ)
    → t.locked ≡ false
    → t.running ≡ true
    → eq_ℤ t.interval pull_interval ≡ false
    → eq_ℤ pull_interval (ℤ.pos 0) ≡ false
    → run_due (check_interval monitor pull_interval) t ≡ none
unfolding run_due checked_execute has_closed execute_locked check_interval close
run_due-check_interval t monitor pull_interval l r n z = ground arith
