-- ===== src/Json5/Reader.antt =====
-- common/json5/json5.go, TrimNodeReader: a reader whose first Read prepares the whole text of the
-- underlying reader. `source` is what io.Copy gets from it, `none` an error; `br` is what is left of
-- the prepared text. A Read gets at most `n` bytes; no byte is the end of the text.
use yav2bx.Base.{
  ℕ, zero, suc, ◌≡◌, refl, List, [], ◌∷◌, ◌++◌, Option, none, some, ◌>>=◌, Ensures, Ensures-map,
  subst, sym, ap, ◌∙◌,
}
use mathlib.Core.List.{append_assoc}
use yav2bx.Json5.{Bytes, prep}

pub record TrimNodeReader : Type 0 where
  pub source : Option Bytes
  pub br : Option Bytes

abbrev pub take : ℕ → Bytes → Bytes
take zero s = []
take (suc n) [] = []
take (suc n) (c ∷ s) = c ∷ take n s

abbrev pub drop : ℕ → Bytes → Bytes
drop zero s = s
drop (suc n) [] = []
drop (suc n) (c ∷ s) = drop n s

-- NewTrimNodeReader
unfoldable pub new_trim_node_reader : Option Bytes → TrimNodeReader
new_trim_node_reader source = record { source = source; br = none }

-- The text that is left to read; `none` is the error of the source.
unfoldable pub remaining : TrimNodeReader → Option Bytes
remaining st = elim st.br [ some s ↦ some s | none ↦ st.source >>= prep ]

-- Read
unfoldable pub read : TrimNodeReader → ℕ → Option (Bytes × TrimNodeReader)
unfolding remaining
read st n = remaining st >>= λ s. some (take n s, record st { br = some (drop n s) })

-- A sequence of Reads, one for each length.
read_all : TrimNodeReader → List ℕ → Option (Bytes × TrimNodeReader)
read_all st [] = some ([], st)
read_all st (n ∷ ns) = read st n >>= λ r. (read_all r.1 ns >>= λ q. some (r.0 ++ q.0, q.1))

take-drop : (n : ℕ) (s : Bytes) → take n s ++ drop n s ≡ s
take-drop zero s = refl
take-drop (suc n) [] = refl
take-drop (suc n) (c ∷ s) = rw (take-drop n s)

-- (the source can be read) Whatever the lengths of the Reads, none of them fails, and what they return,
-- put together, followed by what is left, is the prepared text, which is prepared once.
read_all_lem :
    (st : TrimNodeReader) (ns : List ℕ) (s : Bytes)
    → remaining st ≡ some s
    → Ensures (λ r. (u : Bytes) × (remaining r.1 ≡ some u) × (r.0 ++ u ≡ s)) (read_all st ns)
unfolding read_all
read_all_lem st [] s q = (s, q, refl)
read_all_lem st (n ∷ ns) s q =
    subst (λ o. Ensures Done (o >>= λ r. (read_all r.1 ns >>= λ q. some (r.0 ++ q.0, q.1))))
      (sym (first st q))
      (Ensures-map _ Done (read_all (record st { br = some (drop n s) }) ns) _
        (read_all_lem (record st { br = some (drop n s) }) ns (drop n s) (unfold remaining in refl))
        (λ r h.
          (h.0, h.1, append_assoc (take n s) r.0 h.0 ∙ ap (◌++◌ (take n s)) h.2 ∙ take-drop n s)))
  where
    Done : Bytes × TrimNodeReader → Type 0
    Done r = (u : Bytes) × (remaining r.1 ≡ some u) × (r.0 ++ u ≡ s)

    first :
        (st : TrimNodeReader)
        → remaining st ≡ some s
        → read st n ≡ some (take n s, record st { br = some (drop n s) })
    first st q = unfold read in rw q
