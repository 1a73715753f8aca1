-- ===== src/Node/Lifecycle.antt =====
-- node/controller.go, Start and Close, and node/node.go: the life of the controllers. What the panel
-- answers is an argument of Start, and so is whether requestCert fails. The server and the registry of
-- the limiters are shared. `none` is a panic.
pub mod Start
pub mod Close
use yav2bx.Base.{
  Bool, true, false, not, ◌&&◌, List, [], ◌∷◌, Option, none, some, if◌then◌else◌, ◌>>=◌,
}
use yav2bx.Int.{ℤ, pos, eq_ℤ}
use yav2bx.Keys.{Str, str_eq}
use yav2bx.Maps.{Map, insert}
use yav2bx.Panel.{ApiConfig, Client, Reply, UserInfo}
use yav2bx.Limiter.{Limiter, add_limiter, delete_limiter}
use yav2bx.Limiter.Check.{update_rule}
use yav2bx.Node.{NodeInfo, Options, Core, Controller}
use yav2bx.Node.Monitor.{build_node_tag, is_empty}
use yav2bx.Node.Tasks.{Tasks, Job, start_tasks, close_tasks}
use yav2bx.Api.{new}

abbrev pub World : Type 0 → Type 0 → Type 0 → Type 0
World S Regexp Bucket = S × Map Str (Limiter Regexp Bucket)

-- What Start leaves: a controller that gave an error, with its tag, or one that runs.
pub data Begun (S Regexp Bucket : Type 0) : Type 0 where
  refused : Str → Begun S Regexp Bucket
  running : Controller S Regexp Bucket → Tasks → List Job → Begun S Regexp Bucket

abbrev pub no_tasks : Tasks
no_tasks = record {
  node_info_monitor = none;
  user_report = none;
  renew_cert = none;
  dynamic_speed_limit = none;
  online_ip_report = none;
}

-- The node's configured name, or the tag that is made of the node.
abbrev pub tag_of : Options → Client → NodeInfo → Str
tag_of o client node = if is_empty o.name then build_node_tag client node else o.name

module _ {S Regexp Bucket : Type 0} where
  -- The end of Start, on the server: the node, its users, and the tasks.
  unfoldable pub serve :
      Core S
      → Options
      → Client
      → Str
      → NodeInfo
      → List UserInfo
      → Str
      → World S Regexp Bucket
      → Option (World S Regexp Bucket × Begun S Regexp Bucket)
  serve core o client cert_mode node users tag (server, limiters) =
      let r = core.add_node tag node o server in
      let s = core.add_users tag users node r.0 in
      if r.1 then some ((r.0, limiters), refused tag) else elim s.1 [
        | none ↦ some ((s.0, limiters), refused tag)
        | some _ ↦ start_tasks client o.limit_config cert_mode users node no_tasks >>= λ ts. some (
          (s.0, limiters),
          running
              (record {
                server = s.0;
                tag = tag;
                limiters = limiters;
                traffic = [];
                user_list = users;
                info = node;
              })
              ts.0 ts.1,
        )
      ]

  -- Start behind the answers, which have a node and at least one user.
  unfoldable pub set_up :
      Core S
      → Options
      → Client
      → (Str → Option Regexp)
      → Str
      → Bool
      → NodeInfo
      → List UserInfo
      → Map ℤ ℤ
      → World S Regexp Bucket
      → Option (World S Regexp Bucket × Begun S Regexp Bucket)
  set_up core o client compile cert_mode cert_fails node users alive (server, limiters) =
      let tag = tag_of o client node in
      let added = add_limiter tag o.limit_config users alive limiters in
      update_rule compile node.rules added.1 >>= λ l.
      let world : World S Regexp Bucket = (server, insert tag l added.0) in
      if eq_ℤ node.security (pos 1) && cert_fails
      then some (world, refused tag)
      else serve core o client cert_mode node users tag world

  -- Controller.Start; a node that is nil panics, with a name and without.
  unfoldable pub start :
      Core S
      → Options
      → Client
      → (Str → Option Regexp)
      → Str
      → Bool
      → Reply NodeInfo
      → Reply (List UserInfo)
      → Map ℤ ℤ
      → World S Regexp Bucket
      → Option (World S Regexp Bucket × Begun S Regexp Bucket)
  start core o client compile cert_mode cert_fails node users alive w =
      let on_node : List UserInfo → Option (World S Regexp Bucket × Begun S Regexp Bucket) = λ us.
        elim node [
          | Reply.failed ↦ some (w, refused [])
          | Reply.unchanged ↦ none
          | Reply.answer n ↦ set_up core o client compile cert_mode cert_fails n us alive w
        ] in
      let on_users : Option (World S Regexp Bucket × Begun S Regexp Bucket) = elim users [
        | Reply.failed ↦ some (w, refused [])
        | Reply.unchanged ↦ some (w, refused [])
        | Reply.answer [] ↦ some (w, refused [])
        | Reply.answer (u ∷ us) ↦ on_node (u ∷ us)
      ] in
      elim node [ Reply.failed ↦ some (w, refused []) | _ ↦ on_users ]

  -- Controller.Close; the flag is the error.
  unfoldable pub close :
      Core S → Str → Tasks → World S Regexp Bucket → Option (World S Regexp Bucket × Tasks × Bool)
  close core tag ts (server, limiters) = close_tasks ts >>= λ closed.
      let r = core.del_node tag server in some ((r.0, delete_limiter tag limiters), closed, r.1)

-- An entry of Node's controllers: nil, or a controller with its tag and its tasks.
pub data Slot : Type 0 where
  vacant : Slot
  controller : Str → Tasks → Slot

abbrev pub vacant_for {ℓ} : {A : Type ℓ} → List A → List Slot
vacant_for [] = []
vacant_for (n ∷ ns) = vacant ∷ vacant_for ns

module _ {S Regexp Bucket : Type 0} where
  abbrev pub slot_of : Begun S Regexp Bucket → Slot
  slot_of (refused tag) = controller tag no_tasks
  slot_of (running c ts jobs) = controller c.tag ts

  abbrev pub is_refused : Begun S Regexp Bucket → Bool
  is_refused (refused tag) = true
  is_refused (running c ts jobs) = false

  -- Node.Start: `begin` is Start on a new controller. The flag is the error; the entries behind the
  -- one that fails stay nil.
  unfoldable pub start_nodes :
      (ApiConfig × Options
        → Client
        → World S Regexp Bucket
        → Option (World S Regexp Bucket × Begun S Regexp Bucket))
      → List (ApiConfig × Options)
      → World S Regexp Bucket
      → Option (World S Regexp Bucket × List Slot × Bool)
  start_nodes begin [] w = some (w, [], false)
  start_nodes begin (n ∷ ns) w = elim (new n.0) [
    | none ↦ some (w, vacant ∷ vacant_for ns, true)
    | some client ↦ begin n client w >>= λ r.
        (let rest = start_nodes begin ns r.0 in
          if is_refused r.1
          then some (r.0, slot_of r.1 ∷ vacant_for ns, true)
          else (rest >>= λ done. some (done.0, slot_of r.1 ∷ done.1, done.2)))
  ]

  -- Node.Close: an error of a controller is a panic, and so is a nil controller.
  unfoldable pub close_nodes :
      Core S → List Slot → World S Regexp Bucket → Option (World S Regexp Bucket)
  close_nodes core [] w = some w
  close_nodes core (vacant ∷ slots) w = none
  close_nodes core (controller tag ts ∷ slots) w =
      close core tag ts w >>= λ r. if r.2 then none else close_nodes core slots r.0
