-- ===== src/Node/Lifecycle/Close.antt =====
-- node/controller.go and node/node.go, Close: what is left of the controllers.
use yav2bx.Base.{
  ◌≡◌, refl, Bool, true, false, ◌||◌, List, [], ◌∷◌, Option, none, some, if◌then◌else◌, ◌>>=◌, ◌∙◌,
  arith, Ensures, Ensures-of, Ensures-map,
}
use yav2bx.Keys.{Str, str_eq, str_beq}
use yav2bx.Maps.{lookup, lookup-erase}
use yav2bx.Limiter.{delete_limiter}
use yav2bx.Node.{Core}
use yav2bx.Node.Tasks.{Tasks, close_tasks}
use yav2bx.Node.Tasks.Running.{Healthy, Stopped, close_tasks-Stopped}
use yav2bx.Node.Lifecycle.{World, Slot, vacant, controller, close, close_nodes}

-- The tasks that are there run, and their mutexes are free.
abbrev pub AllHealthy : Tasks → Type 0
AllHealthy ts =
    Healthy ts.node_info_monitor
    × Healthy ts.user_report
    × Healthy ts.renew_cert
    × Healthy ts.dynamic_speed_limit
    × Healthy ts.online_ip_report

abbrev pub AllStopped : Tasks → Type 0
AllStopped ts =
    Stopped ts.node_info_monitor
    × Stopped ts.user_report
    × Stopped ts.renew_cert
    × Stopped ts.dynamic_speed_limit
    × Stopped ts.online_ip_report

-- Whether a controller is nil, whether one has the tag, and that the tasks of all are healthy.
abbrev pub has_vacant : List Slot → Bool
has_vacant [] = false
has_vacant (vacant ∷ slots) = true
has_vacant (controller tag ts ∷ slots) = has_vacant slots

abbrev pub owns : Str → List Slot → Bool
owns t [] = false
owns t (vacant ∷ slots) = owns t slots
owns t (controller tag ts ∷ slots) = str_beq tag t || owns t slots

abbrev pub SlotsHealthy : List Slot → Type 0
SlotsHealthy [] = Unit
SlotsHealthy (vacant ∷ slots) = SlotsHealthy slots
SlotsHealthy (controller tag ts ∷ slots) = AllHealthy ts × SlotsHealthy slots

module _ {S Regexp Bucket : Type 0} where
  -- What Close leaves: the limiter under the tag is gone, the others stay, and the tasks are stopped;
  -- the error is the server's.
  abbrev pub Closed :
      Core S → Str → World S Regexp Bucket → World S Regexp Bucket × Tasks × Bool → Type 0
  Closed core tag w r =
      ((t : Str) → lookup t r.0.1 ≡ (if str_beq tag t then none else lookup t w.1))
      × AllStopped r.1
      × (r.2 ≡ (core.del_node tag w.0).1)

  close-Closed :
      (core : Core S) (tag : Str) (ts : Tasks) (w : World S Regexp Bucket)
      → AllHealthy ts
      → Ensures (Closed core tag w) (close core tag ts w)
  unfolding close delete_limiter
  close-Closed core tag ts (server, limiters) (a, b, c, d, e) =
      Ensures-map AllStopped (Closed core tag (server, limiters)) (close_tasks ts) _
        (close_tasks-Stopped ts a b c d e)
        (λ closed p. ((λ t. lookup-erase tag t limiters), p, refl))

  -- (the tasks that are there run, their mutexes are free, and the server deletes every node) Node's
  -- Close panics exactly when a controller is nil; else it ends, and the limiters of its controllers
  -- are gone from the registry while all others stay.
  pub close_nodes_lem :
      (core : Core S) (slots : List Slot) (w : World S Regexp Bucket)
      → SlotsHealthy slots
      → ((tag : Str) (s : S) → (core.del_node tag s).1 ≡ false)
      → (has_vacant slots ≡ true → close_nodes core slots w ≡ none)
        × (has_vacant slots ≡ false
            → Ensures
                (λ w'. (t : Str) → lookup t w'.1 ≡ (if owns t slots then none else lookup t w.1))
                (close_nodes core slots w))
  unfolding close_nodes
  close_nodes_lem core [] w h k = ((λ q. cc), λ _ t. refl)
  close_nodes_lem core (vacant ∷ slots) w h k = ((λ _. refl), λ q. cc)
  close_nodes_lem core (controller tag ts ∷ slots) w h k =
      go (close core tag ts w) (close-Closed core tag ts w h.0)
        (λ w'. close_nodes_lem core slots w' h.1 k)
    where
      go :
          (o : Option (World S Regexp Bucket × Tasks × Bool))
          → Ensures (Closed core tag w) o
          → ((w' : World S Regexp Bucket)
              → (has_vacant slots ≡ true → close_nodes core slots w' ≡ none)
                × (has_vacant slots ≡ false
                    → Ensures
                        (λ w''.
                          (t : Str)
                          → lookup t w''.1 ≡ (if owns t slots then none else lookup t w'.1))
                        (close_nodes core slots w')))
          → (has_vacant slots ≡ true
              → (o >>= λ r. if r.2 then none else close_nodes core slots r.0) ≡ none)
            × (has_vacant slots ≡ false
                → Ensures
                    (λ w'.
                      (t : Str)
                      → lookup t w'.1
                        ≡ (if str_beq tag t || owns t slots then none else lookup t w.1))
                    (o >>= λ r. if r.2 then none else close_nodes core slots r.0))
      go none e rest = absurd e
      go (some r) (gone, stopped, flag) rest = rw (flag ∙ k tag w.0) (
        (rest r.0).0,
        λ q.
            Ensures-of _ _ (close_nodes core slots r.0) ((rest r.0).1 q)
              (λ w' _ p t. ground (arith, p t, gone t)),
      )
