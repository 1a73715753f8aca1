-- ===== src/Json5/Literals.antt =====
-- common/json5/json5.go: line comments, string literals and commas, whatever follows them.
use yav2bx.Base.{
  ℕ, zero, suc, ◌≤◌, ◌≡◌, refl, ap, ◌∙◌, Bool, true, false, ◌||◌, [], ◌∷◌, ◌++◌, Option, none, some,
  arith, nat_beq, ◌>>=◌, length, All,
}
use mathlib.Core.List.{append_assoc}
use yav2bx.Json5.{
  Bytes, pass, is_nl, is_ws, line_loop, consume_comment, string_loop, comma_loop, prep,
}
use yav2bx.Json5.Runs.{prep_string_step, prep_comment_step, prep_comma_step, blanks}

line_loop_run :
    (body s : Bytes) (n : ℕ)
    → All (λ c. is_nl c ≡ false) body
    → is_nl n ≡ true
    → line_loop (body ++ (n ∷ s)) ≡ record { passed = blanks body; rest = n ∷ s }
unfolding line_loop
line_loop_run [] s n h e = rw e
line_loop_run (c ∷ body) s n h e = rw h.0 (ap (pass b' ') (line_loop_run body s n h.1 e))

-- A `//` comment is blanked up to its line break, which stays, and the reader goes on from there.
prep_line_comment :
    (body rest : Bytes) (n : ℕ)
    → All (λ c. is_nl c ≡ false) body
    → is_nl n ≡ true
    → prep (b'/' ∷ b'/' ∷ body ++ (n ∷ rest))
      ≡ (prep (n ∷ rest) >>= λ t. some (b' ' ∷ b' ' ∷ blanks body ++ t))
unfolding consume_comment
prep_line_comment body rest n h e =
    prep_comment_step (b'/' ∷ body ++ (n ∷ rest))
    ∙ rw (line_loop_run (b'/' ∷ body) rest n (slash, h) e)
  where
    slash : is_nl b'/' ≡ false
    slash = unfold is_nl in refl

-- The inside of a string literal: no bare quote, and a backslash escapes the byte behind it.
pub data Literal : Bytes → Type 0 where
  close : Literal []
  char :
      (c : ℕ) {s : Bytes}
      → nat_beq c b'"' ≡ false
      → nat_beq c b'\\' ≡ false
      → Literal s
      → Literal (c ∷ s)
  escape :
      (c d : ℕ) {s : Bytes}
      → nat_beq c b'"' ≡ false
      → nat_beq c b'\\' ≡ true
      → Literal s
      → Literal (c ∷ d ∷ s)

string_loop_char :
    (c : ℕ) (s : Bytes)
    → nat_beq c b'"' ≡ false
    → nat_beq c b'\\' ≡ false
    → string_loop (c ∷ s) ≡ pass c (string_loop s)
unfolding string_loop
string_loop_char c [] h k = refl
string_loop_char c (d ∷ s) h k = rw (h, k)

string_loop_escape :
    (c d : ℕ) (s : Bytes)
    → nat_beq c b'"' ≡ false
    → nat_beq c b'\\' ≡ true
    → string_loop (c ∷ d ∷ s) ≡ pass c (pass d (string_loop s))
unfolding string_loop
string_loop_escape c d s h k = rw (h, k)

string_loop_run :
    {lit : Bytes} (rest : Bytes)
    → Literal lit
    → string_loop (lit ++ (b'"' ∷ rest)) ≡ record { passed = lit ++ (b'"' ∷ []); rest = rest }
string_loop_run [] close = unfold string_loop in refl
string_loop_run (x ∷ rest) close = unfold string_loop in refl
string_loop_run rest (char c {s} h k l) =
    string_loop_char c (s ++ (b'"' ∷ rest)) h k ∙ ap (pass c) (string_loop_run rest l)
string_loop_run rest (escape c d {s} h k l) =
    string_loop_escape c d (s ++ (b'"' ∷ rest)) h k
    ∙ ap (λ p. pass c (pass d p)) (string_loop_run rest l)

-- A string literal passes as it is, whatever comment marks or commas it holds, and the reader goes on
-- behind it.
pub prep_string :
    {lit : Bytes} (rest : Bytes)
    → Literal lit
    → prep (b'"' ∷ lit ++ (b'"' ∷ rest)) ≡ (prep rest >>= λ t. some (b'"' ∷ lit ++ (b'"' ∷ t)))
prep_string {lit} rest l =
    prep_string_step (lit ++ (b'"' ∷ rest)) ∙ rw (string_loop_run rest l) (join (prep rest))
  where
    join :
        (o : Option Bytes)
        → (o >>= λ t. some (b'"' ∷ (lit ++ (b'"' ∷ [])) ++ t))
          ≡ (o >>= λ t. some (b'"' ∷ lit ++ (b'"' ∷ t)))
    join none = refl
    join (some t) = rw (append_assoc lit (b'"' ∷ []) t)

-- A byte that ends an object or an array, and one that ends the search of a comma.
abbrev closes : ℕ → Bool
closes c = nat_beq c b'}' || nat_beq c b']'

abbrev IsSpace : ℕ → Type 0
IsSpace c = (is_ws c ≡ true) × (closes c ≡ false) × (nat_beq c b'/' ≡ false)

comma_loop_run :
    (fuel : ℕ) (spaces rest : Bytes) (c : ℕ)
    → length (spaces ++ (c ∷ rest)) ≤ fuel
    → All IsSpace spaces
    → (closes c ≡ true)
    → comma_loop fuel (spaces ++ (c ∷ rest))
      ≡ some (record { blank = true; passed = spaces; rest = c ∷ rest })
unfolding comma_loop
comma_loop_run zero [] rest c l h e = absurd (omega arith)
comma_loop_run zero (x ∷ spaces) rest c l h e = absurd (omega arith)
comma_loop_run (suc fuel) [] rest c l h e = rw e
comma_loop_run (suc fuel) (x ∷ spaces) rest c l h e =
    rw (h.0.0, h.0.1, h.0.2, comma_loop_run fuel spaces rest c (omega arith) h.1 e)

-- A comma with only white space between it and a closing bracket is blanked.
prep_trailing_comma :
    (spaces rest : Bytes) (c : ℕ)
    → All (λ c. is_ws c ≡ true) spaces
    → (nat_beq c b'}' || nat_beq c b']') ≡ true
    → prep (b',' ∷ spaces ++ (c ∷ rest)) ≡ (prep (c ∷ rest) >>= λ t. some (b' ' ∷ spaces ++ t))
prep_trailing_comma spaces rest c h e =
    prep_comma_step (spaces ++ (c ∷ rest))
      (record { blank = true; passed = spaces; rest = c ∷ rest })
      (comma_loop_run (length (spaces ++ (c ∷ rest))) spaces rest c (omega arith) (spaced spaces h)
        e)
  where
    spaced : (spaces : Bytes) → All (λ c. is_ws c ≡ true) spaces → All IsSpace spaces
    spaced [] h = tt
    spaced (x ∷ spaces) h =
        ((h.0, unfold is_ws in ground arith, unfold is_ws in ground arith), spaced spaces h.1)
