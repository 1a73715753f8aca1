-- ===== src/Task/Timers.antt =====
-- common/task/task.go: how many timers a task has, with an Execute that does not touch the task.
use yav2bx.Base.{
  ℕ, ◌+◌, ◌≡◌, ◌⊎◌, Bool, false, List, [], ◌∷◌, Option, none, some, if◌then◌else◌, length,
}
use yav2bx.Task.{Task, Outcome, start, close, expire, run_due}

-- A call of the payload that ends with or without an error.
abbrev pub payload : Bool → Task → Outcome
payload failed t = some (t, failed)

-- The list of a remembered timer.
abbrev pub timers : Option ℕ → List ℕ
timers none = []
timers (some id) = id ∷ []

-- The mutex is free, a running task has one timer or one callback that is due, and a stopped one has
-- none; a timer that is pending is the one that the task remembers.
pub record IsValid (t : Task) : Type 0 where
  pub free : t.locked ≡ false
  pub one : length t.pending + t.due ≡ (if t.running then 1 else 0)
  pub known : (t.pending ≡ []) ⊎ (t.pending ≡ timers t.timer)

-- The steps of a task. Close finds no callback that is due.
pub data Step (t : Task) : Task → Type 0 where
  starts :
      {u : Task} {b : Bool} (first failed : Bool)
      → start (payload failed) first t ≡ some (u, b)
      → Step t u
  closes : {u : Task} → t.due ≡ 0 → close t ≡ some u → Step t u
  expires : {u : Task} (id : ℕ) → t.pending ≡ id ∷ [] → u ≡ expire id t → Step t u
  runs :
      {u : Task} {b : Bool} (failed : Bool)
      → t.due ≡ 1
      → run_due (payload failed) t ≡ some (u, b)
      → Step t u

pub data Reach (s : Task) : Task → Type 0 where
  here : Reach s s
  next : {t u : Task} → Reach s t → Step t u → Reach s u
