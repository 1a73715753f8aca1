-- ===== src/Xray/Links/Reader.antt =====
-- core/xray/app/dispatcher/default.go, cachedReader: it keeps what was read for the sniffers, and gives
-- it to the connection. The source is the chunks that it gives, and then an error.
use yav2bx.Base.{◌≡◌, refl, ap, ◌∙◌, List, [], ◌∷◌, ◌++◌, Option, none, some}
use mathlib.Core.List.{append_assoc}
use yav2bx.Keys.{Str}
use yav2bx.Text.{concat_all}

pub record CachedReader : Type 0 where
  pub cached : Str
  pub source : List Str

-- Cache: one read of the source joins the cache, and the payload is the cache. `none` is an error.
unfoldable pub cache : CachedReader → Option (CachedReader × Str)
cache r = elim r.source [
  | [] ↦ none
  | chunk ∷ more ↦ let all = r.cached ++ chunk in some (record { cached = all; source = more }, all)
]

-- ReadMultiBuffer: the cache, if there is any, else the source's next chunk.
unfoldable pub read_multi_buffer : CachedReader → Option (CachedReader × Str)
read_multi_buffer r = elim r.cached [
  | [] ↦ elim r.source [ [] ↦ none | chunk ∷ more ↦ some (record r { source = more }, chunk) ]
  | b ∷ s ↦ some (record r { cached = [] }, b ∷ s)
]

-- A call: of Cache, or of ReadMultiBuffer.
pub data Call : Type 0 where
  peek : Call
  read : Call

-- What some calls read, and the reader behind them; a call that fails changes nothing.
unfoldable pub run_calls : List Call → CachedReader → CachedReader × Str
run_calls [] r = (r, [])
run_calls (peek ∷ cs) r = elim (cache r) [ none ↦ run_calls cs r | some p ↦ run_calls cs p.0 ]
run_calls (read ∷ cs) r = elim (read_multi_buffer r) [
  | none ↦ run_calls cs r
  | some p ↦ let rest = run_calls cs p.0 in (rest.0, p.1 ++ rest.1)
]

-- What the connection has still to read.
abbrev pub left : CachedReader → Str
left r = r.cached ++ concat_all r.source

run_calls-parts :
    (cs : List Call) (c : Str) (chunks : List Str)
    → let done = run_calls cs (record { cached = c; source = chunks }) in
      done.1 ++ left done.0 ≡ c ++ concat_all chunks
unfolding run_calls cache read_multi_buffer concat_all
run_calls-parts [] c chunks = refl
run_calls-parts (peek ∷ cs) c [] = run_calls-parts cs c []
run_calls-parts (peek ∷ cs) c (chunk ∷ more) =
    run_calls-parts cs (c ++ chunk) more ∙ append_assoc c chunk (concat_all more)
run_calls-parts (read ∷ cs) [] [] = run_calls-parts cs [] []
run_calls-parts (read ∷ cs) [] (chunk ∷ more) =
    append_assoc chunk _ _ ∙ ap (λ s. chunk ++ s) (run_calls-parts cs [] more)
run_calls-parts (read ∷ cs) (b ∷ s) chunks =
    append_assoc (b ∷ s) _ _ ∙ ap (λ t. (b ∷ s) ++ t) (run_calls-parts cs [] chunks)

-- However the calls that sniff and those that read alternate, the connection loses no byte, and gets
-- none twice: what was read, and behind it what is left, is what was there.
pub run_calls-left :
    (cs : List Call) (r : CachedReader) → (run_calls cs r).1 ++ left (run_calls cs r).0 ≡ left r
run_calls-left cs r = run_calls-parts cs r.cached r.source
