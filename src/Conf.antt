-- ===== src/Conf.antt =====
-- conf and core/core.go: how a configuration is loaded, watched, and made into a core. What
-- encoding/json makes of a text is an argument, and so are the files.
pub mod Watch
use yav2bx.Base.{
  ℕ, Bool, true, false, List, [], ◌∷◌, Option, none, some, if◌then◌else◌, ◌>>=◌, length,
}
use yav2bx.Int.{ℤ, pos}
use yav2bx.Keys.{Str, str_eq, str_beq}
use yav2bx.Maps.{Map, lookup}
use yav2bx.Text.{bytes}
use yav2bx.Panel.{ApiConfig, cut_prefix}
use yav2bx.Node.{Options, Core}
use yav2bx.Selector.{CoreConfig, Selector, new_selector}

-- rawNodeConfig
pub record RawNodeConfig : Type 0 where
  pub include_path : Str
  pub api_raw : Str
  pub opt_raw : Str

-- json.Unmarshal of a text into a value that has its defaults, or an error; `raw` also reads into the
-- value of the first pass.
pub record NodeJson (O : Type 0) : Type 0 where
  pub raw : RawNodeConfig → Str → Option RawNodeConfig
  pub api : ApiConfig → Str → Option ApiConfig
  pub options : O → Str → Option O

-- What http.Get and os.Open give of a name, behind the filter of the comments, or an error.
pub record Sources : Type 0 where
  pub fetch : Str → Option Str
  pub open_file : Str → Option Str

abbrev pub empty_raw : RawNodeConfig
empty_raw = record { include_path = []; api_raw = []; opt_raw = [] }

abbrev pub default_api : ApiConfig
default_api = record {
  api_host = bytes "http://127.0.0.1";
  node_id = pos 0;
  key = [];
  node_type = [];
  timeout = pos 30;
  panel_type = [];
}

-- strings.CutPrefix, whose first result is the whole text if there is no prefix
abbrev pub without_colon : Str → Str
without_colon s = elim (cut_prefix s (bytes ":")) [ none ↦ s | some rest ↦ rest ]

-- The included text: it is fetched only if its name is `http` or `https` and nothing else.
unfoldable pub read_include : Sources → Str → Option Str
read_include sources name =
    let file = without_colon name in
    if str_beq file (bytes "http")
    then sources.fetch file
    else if str_beq file (bytes "https")
    then sources.fetch file
    else sources.open_file name

-- The text and the raw parts of a node, behind its include.
unfoldable pub resolve_include :
    {O : Type 0} → NodeJson O → Sources → Str → Option (Str × RawNodeConfig)
resolve_include json sources text = json.raw empty_raw text >>= λ rn.
    if str_beq rn.include_path []
    then some (text, rn)
    else (read_include sources rn.include_path >>= λ included.
        (json.raw rn included >>= λ rn'. some (included, rn')))

abbrev pub or_text : Str → Str → Str
or_text [] text = text
or_text (c ∷ s) text = c ∷ s

-- NodeConfig.UnmarshalJSON; `defaults` are the options that it starts from. `none` is an error.
unfoldable pub unmarshal_node :
    {O : Type 0} → NodeJson O → Sources → O → Str → Option (ApiConfig × O)
unmarshal_node json sources defaults text = resolve_include json sources text >>= λ r.
    (json.api default_api (or_text r.1.api_raw r.0) >>= λ api.
    (json.options defaults (or_text r.1.opt_raw r.0) >>= λ options. some (api, options)))

-- Options.UnmarshalJSON: behind the decoding of the fields, the type of the core says which record of
-- options is read, or that the text is kept. `none` is an error.
pub data CoreOptions (X S : Type 0) : Type 0 where
  xray_options : X → CoreOptions X S
  sing_options : S → CoreOptions X S
  raw_options : Str → CoreOptions X S

unfoldable pub unmarshal_options :
    {X S : Type 0}
    → (Str → Option X)
    → (Str → Option S)
    → Options
    → Str
    → Option (Options × CoreOptions X S)
unmarshal_options xray sing o text =
    if str_beq o.core (bytes "xray")
    then (xray text >>= λ x. some (o, xray_options x))
    else if str_beq o.core (bytes "sing")
    then (sing text >>= λ s. some (o, sing_options s))
    else if str_beq o.core (bytes "hysteria2")
    then some (o, raw_options text)
    else some (record o { core = [] }, raw_options text)

-- Conf
pub record Conf (N : Type 0) : Type 0 where
  pub log_level : Str
  pub log_output : Str
  pub cores : List CoreConfig
  pub nodes : List N

-- conf.New
abbrev pub new_conf : {N : Type 0} → Conf N
new_conf = record { log_level = bytes "info"; log_output = []; cores = []; nodes = [] }

-- LoadFromPath, on what the file gives behind the filter of the comments; the flag is the error.
-- json.Unmarshal may have filled a part of the configuration when it fails.
unfoldable pub load_from_path :
    {N : Type 0} → (Conf N → Str → Conf N × Bool) → Option Str → Conf N → Conf N × Bool
load_from_path json none p = (p, true)
load_from_path json (some text) p = json p text

-- What NewCore gives: the core of one configuration, or the selector of several.
pub data Built (S : Type 0) : Type 0 where
  single : Core S → S → Built S
  selected : Selector S → Built S

-- NewCore: the outer `none` is a panic, as the list has no first entry, and the inner one an error.
-- The types of the registry are compared as they stand for one core.
unfoldable pub new_core :
    {S : Type 0}
    → Map Str (CoreConfig → Option (Core S × S))
    → List CoreConfig
    → Option (Option (Built S))
new_core registry [] = none
new_core registry (c ∷ []) = elim (lookup c.type registry) [
  | none ↦ some none
  | some f ↦ some (f c >>= λ r. some (single r.0 r.1))
]
new_core registry (c ∷ d ∷ cs) =
    some (new_selector registry (c ∷ d ∷ cs) >>= λ s. some (selected s))
