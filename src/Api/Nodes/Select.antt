-- ===== src/Api/Nodes/Select.antt =====
-- api/panel/node.go, GetNodeInfo: the record of the node's protocol, one of NodeInfo's pointers, and
-- the node's security.
use yav2bx.Base.{◌||◌, [], ◌∷◌, Option, none, some, if◌then◌else◌}
use yav2bx.Int.{ℤ, pos}
use yav2bx.Keys.{Str, str_eq, str_beq}
use yav2bx.Panel.{Reply}
use yav2bx.Text.{bytes}
use yav2bx.Protocol.{
  CommonNode, VallssNode, ShadowsocksNode, TrojanNode, TuicNode, AnytlsNode, NaiveNode,
  HysteriaNode, Hysteria2Node, Settings, vallss, shadowsocks, trojan, tuic, anytls, naive, hysteria,
  hysteria2,
}
use yav2bx.Protocol.Ech.{merge_ech_settings}
use yav2bx.Node.{NodeInfo}

-- json.Unmarshal into the records; `none` is an error. `node` fills the fields of a NodeInfo.
pub record NodeJson : Type 0 where
  pub vallss : Str → Option VallssNode
  pub shadowsocks : Str → Option ShadowsocksNode
  pub trojan : Str → Option TrojanNode
  pub tuic : Str → Option TuicNode
  pub anytls : Str → Option AnytlsNode
  pub naive : Str → Option NaiveNode
  pub hysteria : Str → Option HysteriaNode
  pub hysteria2 : Str → Option Hysteria2Node
  pub node : NodeInfo → Str → Option NodeInfo

-- The back-up fields take the place of the fields.
abbrev pub or_back {ℓ} : {A : Type ℓ} → Option A → A → A
or_back none x = x
or_back (some y) x = y

abbrev pub or_raw : Str → Str → Str
or_raw [] x = x
or_raw (c ∷ s) x = c ∷ s

abbrev pub prefer_vallss_tls : VallssNode → VallssNode
prefer_vallss_tls v =
    let tls = or_back v.tls_settings_back v.tls_settings in
    record v {
      tls_settings = record tls { ech = merge_ech_settings tls.ech v.ech };
      tls_settings_back = none;
    }

abbrev pub prefer_vallss : VallssNode → VallssNode
prefer_vallss v = record (prefer_vallss_tls v) {
  network_settings = or_raw v.network_settings_back v.network_settings;
  network_settings_back = [];
}

abbrev pub prefer_trojan : TrojanNode → TrojanNode
prefer_trojan t =
    let tls = or_back t.tls_settings_back t.tls_settings in
    record t {
      network_settings = or_raw t.network_settings_back t.network_settings;
      network_settings_back = [];
      tls_settings = record tls { ech = merge_ech_settings tls.ech t.ech };
      tls_settings_back = none;
    }

abbrev pub prefer_anytls : AnytlsNode → AnytlsNode
prefer_anytls a = record a {
  tls_settings = or_back a.tls_settings_back a.tls_settings;
  tls_settings_back = none;
}

abbrev pub prefer_naive : NaiveNode → NaiveNode
prefer_naive n = record n {
  tls_settings = or_back n.tls_settings_back n.tls_settings;
  tls_settings_back = none;
}

-- The decoded record, and the node's security: None is 0, Tls is 1.
abbrev pub set_up {ℓ} : {A : Type ℓ} → (A → Settings × ℤ) → Option A → Reply (Settings × ℤ)
set_up f none = Reply.failed
set_up f (some a) = Reply.answer (f a)

-- The switch on the type of the node; a type that is none of them leaves `cm` nil, which panics.
unfoldable pub default_settings : NodeJson → Str → Str → Option (Reply (Settings × ℤ))
default_settings json type body =
    let is = λ (s : Str). str_beq type s in
    if is (bytes "vmess") || is (bytes "vless")
    then some (set_up (λ v. (vallss (prefer_vallss v), v.tls)) (json.vallss body))
    else if is (bytes "shadowsocks")
    then some (set_up (λ s. (shadowsocks s, pos 0)) (json.shadowsocks body))
    else if is (bytes "trojan")
    then some (set_up (λ t. (trojan (prefer_trojan t), pos 1)) (json.trojan body))
    else if is (bytes "tuic")
    then some (set_up (λ t. (tuic t, pos 1)) (json.tuic body))
    else if is (bytes "anytls")
    then some (set_up (λ a. (anytls (prefer_anytls a), a.tls)) (json.anytls body))
    else if is (bytes "naive")
    then some (set_up (λ n. (naive (prefer_naive n), n.tls)) (json.naive body))
    else if is (bytes "hysteria")
    then some (set_up (λ h. (hysteria h, pos 1)) (json.hysteria body))
    else if is (bytes "hysteria2")
    then some (set_up (λ h. (hysteria2 h, pos 1)) (json.hysteria2 body))
    else none

-- The switch on the protocol of ppanel's node; an unknown one is an error.
unfoldable pub ppanel_settings : NodeJson → NodeInfo → Reply (Settings × ℤ)
ppanel_settings json node =
    let is = λ (s : Str). str_beq node.protocol s in
    if is (bytes "vmess") || is (bytes "vless")
    then set_up (λ v. (vallss (prefer_vallss_tls v), v.tls)) (json.vallss node.config)
    else if is (bytes "trojan")
    then set_up (λ t. (trojan (prefer_trojan t), pos 1)) (json.trojan node.config)
    else if is (bytes "shadowsocks")
    then set_up (λ s. (shadowsocks s, node.security)) (json.shadowsocks node.config)
    else if is (bytes "tuic")
    then set_up (λ t. (tuic t, node.security)) (json.tuic node.config)
    else if is (bytes "hysteria2")
    then set_up (λ h. (hysteria2 h, node.security)) (json.hysteria2 node.config)
    else if is (bytes "anytls")
    then set_up (λ a. (anytls (prefer_anytls a), a.tls)) (json.anytls node.config)
    else if is (bytes "naive")
    then set_up (λ n. (naive (prefer_naive n), n.tls)) (json.naive node.config)
    else Reply.failed

-- `cm`, the pointer to the common part of the record.
abbrev pub common_of : Settings → CommonNode
common_of (vallss v) = v.common
common_of (shadowsocks s) = s.common
common_of (trojan t) = t.common
common_of (tuic t) = t.common
common_of (anytls a) = a.common
common_of (naive n) = n.common
common_of (hysteria h) = h.common
common_of (hysteria2 h) = h.common

-- A write through `cm`.
abbrev pub with_common : CommonNode → Settings → Settings
with_common cm (vallss v) = vallss (record v { common = cm })
with_common cm (shadowsocks s) = shadowsocks (record s { common = cm })
with_common cm (trojan t) = trojan (record t { common = cm })
with_common cm (tuic t) = tuic (record t { common = cm })
with_common cm (anytls a) = anytls (record a { common = cm })
with_common cm (naive n) = naive (record n { common = cm })
with_common cm (hysteria h) = hysteria (record h { common = cm })
with_common cm (hysteria2 h) = hysteria2 (record h { common = cm })
