-- ===== src/Xray.antt =====
-- core/xray: the part of the xray core that limits, counts and reports. The xray library's managers of
-- users, statistics and handlers are state or arguments.
pub mod Dispatch
pub mod Links
pub mod Closing
pub mod Users
pub mod Accounts
pub mod Traffic
pub mod Counts
use yav2bx.Base.{◌++◌}
use yav2bx.Keys.{Str}
use yav2bx.Text.{bytes}

-- The names of the statistics, of core/xray/online.go, core/xray/user.go and the dispatcher.
abbrev pub online_name : Str → Str
online_name email = bytes "user>>>" ++ (email ++ bytes ">>>online")

abbrev pub inbound_online_name : Str → Str
inbound_online_name tag = bytes "inbound>>>" ++ (tag ++ bytes ">>>online")

abbrev pub uplink_name : Str → Str
uplink_name email = bytes "user>>>" ++ (email ++ bytes ">>>traffic>>>uplink")

abbrev pub downlink_name : Str → Str
downlink_name email = bytes "user>>>" ++ (email ++ bytes ">>>traffic>>>downlink")
