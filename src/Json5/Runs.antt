-- ===== src/Json5/Runs.antt =====
-- common/json5/json5.go: what the reader makes of comments, strings and commas, whatever follows them.
use yav2bx.Base.{
  ℕ, zero, suc, ◌≤◌, ◌≡◌, refl, ap, subst, ◌∙◌, inl, inr, false, [], ◌∷◌, ◌++◌, map, Option, none,
  some, arith, nat_beq, if◌then◌else◌, ◌>>=◌, length, All, Option-cases, Ensures,
}
use mathlib.Core.List.{append_assoc}
use yav2bx.Json5.{
  Bytes, pass, block_loop, consume_comment, string_loop, Comma, comma_loop, prep_loop, prep,
}
use yav2bx.Json5.Blank.{string_loop-Ok, consume_comment-Ok, comma_loop-Ok, OkComma}

-- Any fuel that covers the text gives the same result.
prep_loop-fuel : (f g : ℕ) (s : Bytes) → length s ≤ f → length s ≤ g → prep_loop f s ≡ prep_loop g s
unfolding prep_loop
prep_loop-fuel zero zero [] h k = refl
prep_loop-fuel zero (suc g) [] h k = refl
prep_loop-fuel (suc f) zero [] h k = refl
prep_loop-fuel (suc f) (suc g) [] h k = refl
prep_loop-fuel zero g (c ∷ s) h k = absurd (omega arith)
prep_loop-fuel (suc f) zero (c ∷ s) h k = absurd (omega arith)
prep_loop-fuel (suc f) (suc g) (c ∷ s) h k =
    let same =
      λ (t : Bytes) (l : length t ≤ length s). prep_loop-fuel f g t (omega arith) (omega arith) in
    elim (Option-cases (comma_loop (length s) s)) [
      | inl q ↦
          rw
            (
              same (string_loop s).rest (string_loop-Ok s).1,
              same (consume_comment s).rest (consume_comment-Ok s).1,
              same s (omega arith),
              q,
            )
            refl
      | inr (r, q) ↦
          let ok = subst (Ensures (OkComma s)) q (comma_loop-Ok (length s) s (omega arith)) in
          rw
            (
              same (string_loop s).rest (string_loop-Ok s).1,
              same (consume_comment s).rest (consume_comment-Ok s).1,
              same s (omega arith),
              q,
              same r.rest ok.1,
            )
            refl
    ]

-- One step of prep, on its result for the bytes behind.
pub prep_string_step :
    (s : Bytes)
    → prep (b'"' ∷ s)
      ≡ (prep (string_loop s).rest >>= λ t. some (b'"' ∷ (string_loop s).passed ++ t))
unfolding prep prep_loop
prep_string_step s = rw (
    prep_loop-fuel (length s) (length (string_loop s).rest) (string_loop s).rest
      (string_loop-Ok s).1 (omega arith))

pub prep_comment_step :
    (s : Bytes)
    → prep (b'/' ∷ s)
      ≡ (prep (consume_comment s).rest >>= λ t. some ((consume_comment s).passed ++ t))
unfolding prep prep_loop
prep_comment_step s = rw (
    prep_loop-fuel (length s) (length (consume_comment s).rest) (consume_comment s).rest
      (consume_comment-Ok s).1 (omega arith))

pub prep_comma_step :
    (s : Bytes) (k : Comma)
    → comma_loop (length s) s ≡ some k
    → prep (b',' ∷ s)
      ≡ (prep k.rest >>= λ t. some ((if k.blank then b' ' else b',') ∷ k.passed ++ t))
unfolding prep prep_loop
prep_comma_step s k q =
    let ok = subst (Ensures (OkComma s)) q (comma_loop-Ok (length s) s (omega arith)) in
    rw (q, prep_loop-fuel (length s) (length k.rest) k.rest ok.1 (omega arith))

prep_plain_step : (s : Bytes) → prep (b' ' ∷ s) ≡ (prep s >>= λ t. some (b' ' ∷ t))
unfolding prep prep_loop
prep_plain_step s = refl

abbrev pub blanks : Bytes → Bytes
blanks = map (λ _. b' ')

block_loop_step :
    (c : ℕ) (s : Bytes) → nat_beq c b'*' ≡ false → block_loop (c ∷ s) ≡ pass b' ' (block_loop s)
unfolding block_loop
block_loop_step c [] h = refl
block_loop_step c (d ∷ s) h = rw h

-- A `/*` comment up to its first `*`.
block_loop_star :
    (body s : Bytes)
    → All (λ c. nat_beq c b'*' ≡ false) body
    → block_loop (body ++ s)
      ≡ record { passed = blanks body ++ (block_loop s).passed; rest = (block_loop s).rest }
block_loop_star [] s h = refl
block_loop_star (c ∷ body) s h =
    block_loop_step c (body ++ s) h.0 ∙ ap (pass b' ') (block_loop_star body s h.1)

comment_split :
    (body s : Bytes)
    → All (λ c. nat_beq c b'*' ≡ false) body
    → consume_comment (b'*' ∷ body ++ s) ≡ record {
      passed = b' ' ∷ b' ' ∷ blanks body ++ (block_loop s).passed;
      rest = (block_loop s).rest;
    }
unfolding consume_comment
comment_split body s h = ap (λ p. pass b' ' (pass b' ' p)) (block_loop_star body s h)

-- A `/*` comment with no `*` inside is blanked, and the reader goes on behind it.
prep_block_comment :
    (body rest : Bytes)
    → All (λ c. nat_beq c b'*' ≡ false) body
    → prep (b'/' ∷ b'*' ∷ body ++ (b'*' ∷ b'/' ∷ rest))
      ≡ (prep rest >>= λ t. some (b' ' ∷ b' ' ∷ blanks body ++ (b' ' ∷ b' ' ∷ t)))
prep_block_comment body rest h =
    prep_comment_step (b'*' ∷ body ++ (b'*' ∷ b'/' ∷ rest))
    ∙ rw (comment_split body (b'*' ∷ b'/' ∷ rest) h, ended rest, prep_plain_step rest)
        (join (prep rest))
  where
    ended :
        (rest : Bytes)
        → block_loop (b'*' ∷ b'/' ∷ rest) ≡ record { passed = b' ' ∷ []; rest = b' ' ∷ rest }
    ended rest = unfold block_loop in refl

    join :
        (o : Option Bytes)
        → ((o >>= λ t. some (b' ' ∷ t)) >>= λ t.
            some (b' ' ∷ b' ' ∷ (blanks body ++ (b' ' ∷ [])) ++ t))
          ≡ (o >>= λ t. some (b' ' ∷ b' ' ∷ blanks body ++ (b' ' ∷ b' ' ∷ t)))
    join none = refl
    join (some t) = rw (append_assoc (blanks body) (b' ' ∷ []) (b' ' ∷ t))
