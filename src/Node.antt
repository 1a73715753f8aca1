-- ===== src/Node.antt =====
-- node/controller.go, node/task.go and node/user.go: the controller of one node. The records that it
-- is made of stand here; `Core` is the interface of core/interface.go, with its state as an argument.
pub mod Key
pub mod Compare
pub mod Uuids
pub mod Traffic
pub mod Speed
pub mod Monitor
pub mod Cert
pub mod Tasks
pub mod Lifecycle
pub mod Reports
pub mod Sync
use yav2bx.Base.{Bool, List, Option, ◌≡◌}
use yav2bx.Int.{ℤ}
use yav2bx.Keys.{Str}
use yav2bx.Maps.{Map}
use yav2bx.Panel.{UserInfo, Rules, LimitConfig}
use yav2bx.Limiter.{Limiter}
use yav2bx.Protocol.{RawDns, Settings, CommonNode, BaseConfig}

-- panel.NodeInfo; intervals are in nanoseconds. The pointers to the protocols' records are one field,
-- which says which of them is set.
pub record NodeInfo : Type 0 where
  pub id : ℤ
  pub type : Str
  pub protocol : Str
  pub security : ℤ
  pub push_interval : ℤ
  pub pull_interval : ℤ
  pub raw_dns : RawDns
  pub rules : Rules
  pub config : Str
  pub settings : Option Settings
  pub common : Option CommonNode
  pub basic : Option BaseConfig

-- The fields of conf.Options that the controller and the selector read.
pub record Options : Type 0 where
  pub name : Str
  pub core : Str
  pub core_name : Str
  pub device_online_min_traffic : ℤ
  pub limit_config : LimitConfig

-- The interface of a core, as operations on its state; a flag is the error, and `none` is AddUsers'.
pub record Core (S : Type 0) : Type 0 where
  pub start : S → S × Bool
  pub close : S → S × Bool
  pub add_node : Str → NodeInfo → Options → S → S × Bool
  pub del_node : Str → S → S × Bool
  pub add_users : Str → List UserInfo → NodeInfo → S → S × Option ℤ
  pub get_user_traffic : Str → Str → Bool → S → S × (ℤ × ℤ)
  pub del_users : List UserInfo → Str → NodeInfo → S → S × Bool
  pub protocols : List Str
  pub type : Str

-- A running controller, with the state of its server and the registry of the limiters. The limiter
-- that it points to is the one that the registry has under its tag.
pub record Controller (S Regexp Bucket : Type 0) : Type 0 where
  pub server : S
  pub tag : Str
  pub limiters : Map Str (Limiter Regexp Bucket)
  pub traffic : Map Str ℤ
  pub user_list : List UserInfo
  pub info : NodeInfo
