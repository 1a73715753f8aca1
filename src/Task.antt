-- ===== src/Task.antt =====
-- common/task/task.go: a periodic task. `locked` is the mutex `access`; `none` is a Lock that waits for
-- ever, since its own goroutine holds the mutex. `timer` is the timer that the task remembers, and
-- `pending` are the timers of time.AfterFunc that the runtime holds; one that expires becomes a
-- callback in `due`, which runs checkedExecute at a later step. Execute is a function on the task, as
-- it may call the task's methods; its flag says that it failed. Each call runs as one step.
pub mod Timers
pub mod Deadlock
use yav2bx.Base.{
  ℕ, ◌+◌, ◌-◌, Bool, true, false, not, List, [], ◌∷◌, Option, none, some, nat_beq, if◌then◌else◌,
  ◌>>=◌,
}
use yav2bx.Int.{ℤ}

pub record Task : Type 0 where
  pub interval : ℤ
  pub locked : Bool
  pub running : Bool
  pub timer : Option ℕ
  pub pending : List ℕ
  pub due : ℕ
  pub next : ℕ

-- The result of a call, with the error flag, or a wait for ever.
abbrev pub Outcome : Type 0
Outcome = Option (Task × Bool)

abbrev pub new_task : ℤ → Task
new_task interval = record {
  interval = interval;
  locked = false;
  running = false;
  timer = none;
  pending = [];
  due = 0;
  next = 0;
}

abbrev pub lock : Task → Option Task
lock t = if t.locked then none else some (record t { locked = true })

abbrev pub unlock : Task → Task
unlock t = record t { locked = false }

abbrev pub remove : ℕ → List ℕ → List ℕ
remove x [] = []
remove x (y ∷ ys) = if nat_beq y x then remove x ys else y ∷ remove x ys

-- hasClosed
unfoldable pub has_closed : Task → Option (Task × Bool)
has_closed t = lock t >>= λ t1. some (unlock t1, not t1.running)

-- `t.timer = time.AfterFunc(…)`
unfoldable pub arm : Task → Task
arm t = record t { timer = some t.next; pending = t.next ∷ t.pending; next = t.next + 1 }

-- checkedExecute behind its second Lock
unfoldable pub execute_locked : (Task → Outcome) → Bool → Task → Outcome
execute_locked execute first t = (if first then execute t else some (t, false)) >>= λ r. some (
    if r.1
    then (unlock (record r.0 { running = false }), true)
    else if not r.0.running
    then (unlock r.0, false)
    else (unlock (arm r.0), false))

-- checkedExecute
unfoldable pub checked_execute : (Task → Outcome) → Bool → Task → Outcome
checked_execute execute first t = has_closed t >>= λ r.
    if r.1 then some (r.0, false) else (lock r.0 >>= λ t1. execute_locked execute first t1)

-- Start
unfoldable pub start : (Task → Outcome) → Bool → Task → Outcome
start execute first t = lock t >>= λ t1.
    if t1.running
    then some (unlock t1, false)
    else (checked_execute execute first (unlock (record t1 { running = true })) >>= λ r.
        if r.1
        then (lock r.0 >>= λ t2. some (unlock (record t2 { running = false }), true))
        else some (r.0, false))

-- `t.timer.Stop()`
unfoldable pub stop_timer : Task → Task
stop_timer t = elim t.timer [
  | none ↦ t
  | some id ↦ record t { timer = none; pending = remove id t.pending }
]

-- Close
unfoldable pub close : Task → Option Task
close t = lock t >>= λ t1. some (unlock (stop_timer (record t1 { running = false })))

-- A pending timer expires: its callback is due.
unfoldable pub expire : ℕ → Task → Task
expire id t = record t { pending = remove id t.pending; due = t.due + 1 }

-- A callback that is due runs.
unfoldable pub run_due : (Task → Outcome) → Task → Outcome
run_due execute t = checked_execute execute true (record t { due = t.due - 1 })
