-- ===== src/Json5.antt =====
-- common/json5/json5.go: blanking comments and trailing commas of a JSON text. Every loop walks the
-- bytes from an index on and writes only at or just before it, so a loop is a function of the bytes
-- from its index, and answers with the bytes that it passed, as written, and those from the index
-- where it stops. An index past the end reads as the end. `none` is a run out of fuel.
pub mod Blank
pub mod Runs
pub mod Literals
pub mod Reader
use yav2bx.Base.{
  ℕ, zero, suc, Bool, true, false, not, ◌||◌, List, [], ◌∷◌, ◌++◌, Option, none, some, nat_beq,
  if◌then◌else◌, ◌>>=◌, length,
}

abbrev pub Bytes : Type 0
Bytes = List ℕ

pub record Split : Type 0 where
  pub passed : Bytes
  pub rest : Bytes

abbrev pub pass : ℕ → Split → Split
pass c p = record { passed = c ∷ p.passed; rest = p.rest }

unfoldable pub is_nl : ℕ → Bool
is_nl c = nat_beq c b'\n' || nat_beq c b'\r'

unfoldable pub is_ws : ℕ → Bool
unfolding is_nl
is_ws c = nat_beq c b' ' || nat_beq c b'\t' || is_nl c

-- The loop of a `//` comment: up to a line break.
unfoldable pub line_loop : Bytes → Split
line_loop [] = record { passed = []; rest = [] }
line_loop (c ∷ s) =
    if is_nl c then record { passed = []; rest = c ∷ s } else pass b' ' (line_loop s)

-- The loop of a `/*` comment. At a `*` it steps to the next byte, and stops at a `/` there, which it
-- blanks; any other byte there is passed as it is.
unfoldable pub block_loop : Bytes → Split
block_loop [] = record { passed = []; rest = [] }
block_loop (c ∷ []) = record { passed = b' ' ∷ []; rest = [] }
block_loop (c ∷ d ∷ s) =
    if not (nat_beq c b'*')
    then pass b' ' (block_loop (d ∷ s))
    else if nat_beq d b'/'
    then record { passed = b' ' ∷ []; rest = b' ' ∷ s }
    else pass b' ' (pass d (block_loop s))

-- consumeComment, from the byte behind a `/`. The first byte that is passed is that `/`. The test for
-- `*` that follows the line loop finds a line break or the end.
unfoldable pub consume_comment : Bytes → Split
consume_comment [] = record { passed = b'/' ∷ []; rest = [] }
consume_comment (c ∷ s) =
    if nat_beq c b'/'
    then pass b' ' (line_loop (c ∷ s))
    else if nat_beq c b'*'
    then pass b' ' (pass b' ' (block_loop s))
    else record { passed = b'/' ∷ []; rest = c ∷ s }

-- The loop of a string, from the byte behind its opening quote.
unfoldable pub string_loop : Bytes → Split
string_loop [] = record { passed = []; rest = [] }
string_loop (c ∷ []) = record { passed = c ∷ []; rest = [] }
string_loop (c ∷ d ∷ s) =
    if nat_beq c b'"'
    then record { passed = c ∷ []; rest = d ∷ s }
    else if nat_beq c b'\\'
    then pass c (pass d (string_loop s))
    else pass c (string_loop (d ∷ s))

-- The loop behind a comma, and whether it blanks the comma. Behind a comment it steps over one byte.
pub record Comma : Type 0 where
  pub blank : Bool
  pub passed : Bytes
  pub rest : Bytes

abbrev pub pass_all : Bytes → Comma → Comma
pass_all p k = record { blank = k.blank; passed = p ++ k.passed; rest = k.rest }

abbrev pub stop : Bool → Bytes → Option Comma
stop b s = some (record { blank = b; passed = []; rest = s })

-- The step of one byte at the head of the loop.
abbrev pub step_over : (Bytes → Option Comma) → Bytes → Option Comma
step_over loop [] = stop false []
step_over loop (x ∷ s) = loop s >>= λ k. some (pass_all (x ∷ []) k)

unfoldable pub comma_loop : ℕ → Bytes → Option Comma
comma_loop fuel [] = stop false []
comma_loop zero (c ∷ s) = none
comma_loop (suc fuel) (c ∷ s) =
    let spaced = comma_loop fuel s >>= λ k. some (pass_all (c ∷ []) k) in
    let comment = consume_comment s in
    let commented =
      step_over (comma_loop fuel) comment.rest >>= λ k. some (pass_all comment.passed k) in
    if nat_beq c b'}' || nat_beq c b']'
    then stop true (c ∷ s)
    else if nat_beq c b'/'
    then commented
    else if not (is_ws c)
    then stop false (c ∷ s)
    else spaced

-- The loop of prep over the text from an index on: the text as written.
unfoldable pub prep_loop : ℕ → Bytes → Option Bytes
prep_loop fuel [] = some []
prep_loop zero (c ∷ s) = none
prep_loop (suc fuel) (c ∷ s) =
    let literal = string_loop s in
    let comment = consume_comment s in
    let in_string = prep_loop fuel literal.rest >>= λ t. some (c ∷ literal.passed ++ t) in
    let in_comment = prep_loop fuel comment.rest >>= λ t. some (comment.passed ++ t) in
    let in_comma = comma_loop (length s) s >>= λ k.
    (prep_loop fuel k.rest >>= λ t. some ((if k.blank then b' ' else c) ∷ k.passed ++ t)) in
    let plain = prep_loop fuel s >>= λ t. some (c ∷ t) in
    if nat_beq c b'"'
    then in_string
    else if nat_beq c b'/'
    then in_comment
    else if nat_beq c b','
    then in_comma
    else plain

unfoldable pub prep : Bytes → Option Bytes
prep s = prep_loop (length s) s
