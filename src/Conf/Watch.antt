-- ===== src/Conf/Watch.antt =====
-- conf/watch.go: the watcher of the files, and cmd/server.go: what a reload does.
use yav2bx.Base.{
  ℕ, ◌+◌, ◌≤◌, ◌<◌, ◌≡◌, refl, Bool, false, List, [], ◌∷◌, Option, none, some, ltb, arith,
  if◌then◌else◌,
}
use yav2bx.Keys.{Str}
use yav2bx.Maps.{Map}
use yav2bx.Node.{Core}
use yav2bx.Selector.{CoreConfig}
use yav2bx.Conf.{Conf, new_conf, load_from_path, new_core}

-- An event of the watcher: its time in nanoseconds, and whether it is a chmod.
pub record Event : Type 0 where
  pub time : ℕ
  pub chmod : Bool

abbrev pub ten_seconds : ℕ
ten_seconds = 10_000_000_000

abbrev pub five_seconds : ℕ
five_seconds = 5_000_000_000

-- The loop of Watch: the times at which it loads the file, five seconds behind the events that it
-- takes. `pre` is the time of the last one; before the first it lies long ago.
unfoldable pub watch : Option ℕ → List Event → List ℕ
watch pre [] = []
watch pre (e ∷ es) =
    let rest = watch pre es in
    let taken = (e.time + five_seconds) ∷ watch (some e.time) es in
    let too_soon : Bool = elim pre [ none ↦ false | some p ↦ ltb e.time (p + ten_seconds) ] in
    if e.chmod then rest else if too_soon then rest else taken

-- The goroutine of an event: a new configuration is loaded, and then the reload runs, whether the file
-- could be loaded or not.
unfoldable pub reload_conf : {N : Type 0} → (Conf N → Str → Conf N × Bool) → Option Str → Conf N
reload_conf json text = (load_from_path json text new_conf).0

-- The times are at least ten seconds apart, and the first is not before `from`.
abbrev pub Spaced : ℕ → List ℕ → Type 0
Spaced from [] = Unit
Spaced from (t ∷ ts) = (from ≤ t) × Spaced (t + ten_seconds) ts

-- The times do not go back.
abbrev pub Ordered : ℕ → List Event → Type 0
Ordered from [] = Unit
Ordered from (e ∷ es) = (from ≤ e.time) × Ordered e.time es

-- However many events there are, two loads of the file are at least ten seconds apart, and the first
-- is at least ten seconds behind the one before.
pub watch-Spaced :
    (pre : ℕ) (es : List Event) → Spaced (pre + ten_seconds + five_seconds) (watch (some pre) es)
unfolding watch
watch-Spaced pre [] = tt
watch-Spaced pre (e ∷ es) = ground (arith, watch-Spaced pre es, watch-Spaced e.time es)

-- A change that comes more than five and less than ten seconds behind a taken event is not loaded: the
-- file is read at five seconds, and the event is passed over.
watch_loses :
    (pre : ℕ) (e : Event) (es : List Event)
    → pre + five_seconds < e.time
    → e.time < pre + ten_seconds
    → watch (some pre) (e ∷ es) ≡ watch (some pre) es
unfolding watch
watch_loses pre e es late soon = ground (arith, late, soon)

-- When the file cannot be read, the reload goes on with the empty configuration, and NewCore panics on
-- its list of cores.
reload_conf-new_core :
    {N S : Type 0} (json : Conf N → Str → Conf N × Bool)
    (registry : Map Str (CoreConfig → Option (Core S × S)))
    → new_core registry (reload_conf json none).cores ≡ none
unfolding reload_conf load_from_path new_core
reload_conf-new_core json registry = refl
