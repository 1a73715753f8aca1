-- ===== src/Xray/Links.antt =====
-- core/xray/app/dispatcher: the reader that keeps what was sniffed, the sniffing, and whether its result
-- takes the place of the destination. The protocols' sniffers are arguments; a sniffer sees a text and
-- finds a result, no clue yet, or an error.
pub mod Reader
use yav2bx.Base.{
  ℕ, zero, suc, Bool, true, false, not, ◌&&◌, ◌||◌, List, [], ◌∷◌, ◌++◌, Option, none, some,
  if◌then◌else◌,
}
use yav2bx.Keys.{Str, str_beq}
use yav2bx.Text.{bytes, has_prefix}
use yav2bx.Panel.{cut_prefix}
use yav2bx.Selector.{to_lower}
use yav2bx.Xray.Links.Reader.{CachedReader, cache}

-- A SniffResult, with what the optional interfaces say: the protocol for the domain, and the names
-- that it is a subset of.
pub record SniffResult : Type 0 where
  pub protocol : Str
  pub domain : Str
  pub protocol_for_domain : Option Str
  pub is_proto_subset_of : Str → Bool

pub data Sniffed : Type 0 where
  found : SniffResult → Sniffed
  no_clue : Sniffed
  failed : Sniffed

-- CompositeResult
unfoldable pub composite_result : SniffResult → SniffResult → SniffResult
composite_result domain_result protocol_result = record {
  protocol = protocol_result.protocol;
  domain = domain_result.domain;
  protocol_for_domain = some domain_result.protocol;
  is_proto_subset_of = λ p. false;
}

-- The loop of the sniffer on the content, with the attempts that are left; a read that fails ends it,
-- and so does a full buffer, of `is_full`. A text is sniffed unless it is empty.
unfoldable pub sniff_content :
    (Str → Sniffed) → (Str → Bool) → ℕ → CachedReader → CachedReader × Option SniffResult
sniff_content sniff is_full zero r = (r, none)
sniff_content sniff is_full (suc attempts) r = elim (cache r) [
  | none ↦ (r, none)
  | some peeked ↦
      let rest = sniff_content sniff is_full attempts peeked.0 in
      let onward : CachedReader × Option SniffResult =
        if is_full peeked.1 then (peeked.0, none) else rest in
      elim peeked.1 [
        | [] ↦ onward
        | b ∷ s ↦ elim (sniff (b ∷ s)) [
          | found result ↦ (peeked.0, some result)
          | failed ↦ (peeked.0, none)
          | no_clue ↦ onward
        ]
      ]
]

-- sniffer: what the metadata says, and the content within two attempts.
unfoldable pub sniffer :
    Option SniffResult
    → (Str → Sniffed)
    → (Str → Bool)
    → Bool
    → CachedReader
    → CachedReader × Option SniffResult
sniffer metaresult sniff is_full metadata_only r =
    let content = sniff_content sniff is_full 2 r in
    let both : Option SniffResult = elim metaresult [
      | none ↦ content.1
      | some m ↦ elim content.1 [ none ↦ some m | some c ↦ some (composite_result m c) ]
    ] in
    if metadata_only then (r, metaresult) else (content.0, both)

-- A domain that is excluded: `regexp:` names an expression, and one that does not compile is passed
-- over; any other text is compared with the domain in lower case.
unfoldable pub is_excluded : (Str → Option (Str → Bool)) → Str → List Str → Bool
is_excluded compile domain [] = false
is_excluded compile domain (d ∷ ds) =
    let rest = is_excluded compile domain ds in
    elim (cut_prefix d (bytes "regexp:")) [
      | some pattern ↦ elim (compile pattern) [
        | none ↦ rest
        | some matches ↦ if matches domain then true else rest
      ]
      | none ↦ if str_beq (to_lower domain) d then true else rest
    ]

-- The loop over the protocols that are overridden; `in_pool` says that there is a fake DNS and the
-- destination is an address of its pool.
unfoldable pub overrides : Bool → SniffResult → Str → List Str → Bool
overrides in_pool result protocol [] = false
overrides in_pool result protocol (p ∷ ps) =
    if has_prefix protocol p || has_prefix p protocol
    then true
    else if in_pool && not (str_beq protocol (bytes "bittorrent")) && str_beq p (bytes "fakedns")
    then true
    else if result.is_proto_subset_of p
    then true
    else overrides in_pool result protocol ps

abbrev pub domain_protocol : SniffResult → Str
domain_protocol r = elim r.protocol_for_domain [ none ↦ r.protocol | some p ↦ p ]

-- shouldOverride
unfoldable pub should_override :
    (Str → Option (Str → Bool)) → Bool → SniffResult → List Str → List Str → Bool
should_override compile in_pool result exclude protocols =
    if str_beq result.domain []
    then false
    else if is_excluded compile result.domain exclude
    then false
    else overrides in_pool result (domain_protocol result) protocols

-- What Dispatch and DispatchLink make of a result: the target stays, or the domain takes the place of
-- the target, or only of the routing's target.
pub data Target : Type 0 where
  original : Target
  target : Str → Target
  route_target : Str → Target

unfoldable pub retarget :
    (Str → Option (Str → Bool)) → Bool → Bool → Option SniffResult → List Str → List Str → Target
retarget compile in_pool route_only none exclude protocols = original
retarget compile in_pool route_only (some result) exclude protocols =
    let protocol = domain_protocol result in
    if not (should_override compile in_pool result exclude protocols)
    then original
    else if route_only
        && not (str_beq protocol (bytes "fakedns"))
        && not (str_beq protocol (bytes "fakedns+others"))
        && not in_pool
    then route_target result.domain
    else target result.domain
