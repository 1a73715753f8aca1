-- ===== src/Json5/Blank.antt =====
-- common/json5/json5.go: the reader ends on every text, and only ever replaces bytes by blanks.
use yav2bx.Base.{
  Ensures-if, nat_beq_iff, not, ◌||◌, ℕ, zero, suc, ◌≤◌, ◌≡◌, ◌⊎◌, inl, inr, refl, [], ◌∷◌, ◌++◌,
  Option, none, some, arith, nat_beq, if◌then◌else◌, ◌>>=◌, length, Ensures, Ensures-map,
}
use mathlib.Core.List.{append_assoc}
use yav2bx.Json5.{
  Bytes, Split, is_ws, line_loop, block_loop, consume_comment, string_loop, Comma, step_over,
  comma_loop, prep_loop, prep,
}

-- `t` is `s` with some bytes replaced by blanks.
abbrev pub Blanked : Bytes → Bytes → Type 0
Blanked [] [] = Unit
Blanked (x ∷ s) (y ∷ t) = ((y ≡ x) ⊎ (y ≡ b' ')) × Blanked s t
Blanked _ _ = ⊥

Blanked-refl : (s : Bytes) → Blanked s s
Blanked-refl [] = tt
Blanked-refl (x ∷ s) = (inl refl, Blanked-refl s)

Blanked-trans : (s t u : Bytes) → Blanked s t → Blanked t u → Blanked s u
Blanked-trans [] [] [] h k = tt
Blanked-trans (x ∷ s) (y ∷ t) (z ∷ u) h k = (ground (arith, h.0, k.0), Blanked-trans s t u h.1 k.1)
Blanked-trans [] [] (z ∷ u) h k = elim k [ ]
Blanked-trans [] (y ∷ t) u h k = elim h [ ]
Blanked-trans (x ∷ s) [] u h k = elim h [ ]
Blanked-trans (x ∷ s) (y ∷ t) [] h k = elim k [ ]

-- The text behind a prefix is blanked on its own.
Blanked-prefix : (p t u : Bytes) → Blanked t u → Blanked (p ++ t) (p ++ u)
Blanked-prefix [] t u h = h
Blanked-prefix (x ∷ p) t u h = (inl refl, Blanked-prefix p t u h)

-- What a loop makes of the bytes from its index on.
abbrev pub Ok : Bytes → Split → Type 0
Ok s p = Blanked s (p.passed ++ p.rest) × (length p.rest ≤ length s)

line_loop-Ok : (s : Bytes) → Ok s (line_loop s)
unfolding line_loop
line_loop-Ok [] = (tt, omega arith)
line_loop-Ok (c ∷ s) = ground (arith, line_loop-Ok s, Blanked-refl s)

block_loop-Ok : (s : Bytes) → Ok s (block_loop s)
unfolding block_loop
block_loop-Ok [] = (tt, omega arith)
block_loop-Ok (c ∷ []) = ((inr refl, tt), omega arith)
block_loop-Ok (c ∷ d ∷ s) = ground (arith, block_loop-Ok s, block_loop-Ok (d ∷ s), Blanked-refl s)

pub consume_comment-Ok :
    (s : Bytes)
    → Blanked (b'/' ∷ s) ((consume_comment s).passed ++ (consume_comment s).rest)
      × (length (consume_comment s).rest ≤ length s)
unfolding consume_comment
consume_comment-Ok [] = ((inl refl, tt), omega arith)
consume_comment-Ok (c ∷ s) = ground (arith, line_loop-Ok (c ∷ s), block_loop-Ok s, Blanked-refl s)

pub string_loop-Ok : (s : Bytes) → Ok s (string_loop s)
unfolding string_loop
string_loop-Ok [] = (tt, omega arith)
string_loop-Ok (c ∷ []) = ((inl refl, tt), omega arith)
string_loop-Ok (c ∷ d ∷ s) =
    ground (arith, string_loop-Ok s, string_loop-Ok (d ∷ s), Blanked-refl s)

abbrev pub OkComma : Bytes → Comma → Type 0
OkComma s k = Blanked s (k.passed ++ k.rest) × (length k.rest ≤ length s)

step_over-Ok :
    (loop : Bytes → Option Comma) (s : Bytes) (n : ℕ)
    → length s ≤ suc n
    → ((t : Bytes) → length t ≤ n → Ensures (OkComma t) (loop t))
    → Ensures (OkComma s) (step_over loop s)
step_over-Ok loop [] n h k = (tt, omega arith)
step_over-Ok loop (x ∷ s) n h k =
    Ensures-map (OkComma s) (OkComma (x ∷ s)) (loop s) _ (k s (omega arith))
      (λ c p. ((inl refl, p.0), omega (arith, p.1)))

after_comment :
    (c : ℕ) (s p r : Bytes)
    → c ≡ b'/'
    → Blanked (consume_comment s).rest (p ++ r)
    → Blanked (c ∷ s) (((consume_comment s).passed ++ p) ++ r)
after_comment c s p r e h =
    rw (e, append_assoc (consume_comment s).passed p r)
      (Blanked-trans (b'/' ∷ s) _ _ (consume_comment-Ok s).0
        (Blanked-prefix (consume_comment s).passed (consume_comment s).rest (p ++ r) h))

after_comma :
    (fuel c : ℕ) (s : Bytes) (o : Option Comma)
    → Ensures (OkComma s) o
    → ((r : Bytes) → length r ≤ length s → Ensures (Blanked r) (prep_loop fuel r))
    → Ensures (Blanked (c ∷ s)) (
        o >>= λ k.
        (prep_loop fuel k.rest >>= λ t. some ((if k.blank then b' ' else c) ∷ k.passed ++ t)))
after_comma fuel c s none h rec = h
after_comma fuel c s (some k) h rec =
    Ensures-map (Blanked k.rest) (Blanked (c ∷ s)) (prep_loop fuel k.rest) _ (rec k.rest h.1)
      (λ t q. (ground arith, Blanked-trans s _ _ h.0 (Blanked-prefix k.passed k.rest t q)))

pub comma_loop-Ok :
    (fuel : ℕ) (s : Bytes) → length s ≤ fuel → Ensures (OkComma s) (comma_loop fuel s)
unfolding comma_loop
comma_loop-Ok zero [] h = (tt, omega arith)
comma_loop-Ok zero (c ∷ s) h = absurd (omega arith)
comma_loop-Ok (suc fuel) [] h = (tt, omega arith)
comma_loop-Ok (suc fuel) (c ∷ s) h =
    let P = OkComma (c ∷ s) in
    let note = consume_comment s in
    Ensures-if P (nat_beq c b'}' || nat_beq c b']') _ _ (λ _. (Blanked-refl (c ∷ s), omega arith))
      (λ _.
        Ensures-if P (nat_beq c b'/') _ _
          (λ e.
            Ensures-map (OkComma note.rest) P (step_over (comma_loop fuel) note.rest) _
              (step_over-Ok (comma_loop fuel) note.rest fuel
                (omega (arith, (consume_comment-Ok s).1)) (comma_loop-Ok fuel))
              (λ k q. (
                after_comment c s k.passed k.rest ((nat_beq_iff c b'/').0 e) q.0,
                omega (arith, q.1, (consume_comment-Ok s).1),
              )))
          (λ _.
            Ensures-if P (not (is_ws c)) _ _ (λ _. (Blanked-refl (c ∷ s), omega arith))
              (λ _.
                Ensures-map (OkComma s) P (comma_loop fuel s) _ (comma_loop-Ok fuel s (omega arith))
                  (λ k q. ((inl refl, q.0), omega (arith, q.1))))))

prep_loop-Blanked :
    (fuel : ℕ) (s : Bytes) → length s ≤ fuel → Ensures (Blanked s) (prep_loop fuel s)
unfolding prep_loop
prep_loop-Blanked zero [] h = tt
prep_loop-Blanked zero (c ∷ s) h = absurd (omega arith)
prep_loop-Blanked (suc fuel) [] h = tt
prep_loop-Blanked (suc fuel) (c ∷ s) h =
    let P = Blanked (c ∷ s) in
    let note = consume_comment s in
    let text = string_loop s in
    Ensures-if P (nat_beq c b'"') _ _
      (λ _.
        Ensures-map (Blanked text.rest) P (prep_loop fuel text.rest) _
          (prep_loop-Blanked fuel text.rest (omega (arith, (string_loop-Ok s).1)))
          (λ t q. (
            inl refl,
            Blanked-trans s _ _ (string_loop-Ok s).0 (Blanked-prefix text.passed text.rest t q),
          )))
      (λ _.
        Ensures-if P (nat_beq c b'/') _ _
          (λ e.
            Ensures-map (Blanked note.rest) P (prep_loop fuel note.rest) _
              (prep_loop-Blanked fuel note.rest (omega (arith, (consume_comment-Ok s).1)))
              (λ t q. rw ((nat_beq_iff c b'/').0 e) (
                Blanked-trans (b'/' ∷ s) _ _ (consume_comment-Ok s).0
                  (Blanked-prefix note.passed note.rest t q))))
          (λ _.
            Ensures-if P (nat_beq c b',') _ _
              (λ _.
                after_comma fuel c s (comma_loop (length s) s)
                  (comma_loop-Ok (length s) s (omega arith))
                  (λ r l. prep_loop-Blanked fuel r (omega arith)))
              (λ _.
                Ensures-map (Blanked s) P (prep_loop fuel s) _
                  (prep_loop-Blanked fuel s (omega arith)) (λ t q. (inl refl, q)))))

-- The reader ends on every text, and its output is the input with some bytes replaced by blanks: it
-- has the same length, and every other byte stands where it stood.
pub prep-Blanked : (s : Bytes) → Ensures (Blanked s) (prep s)
unfolding prep
prep-Blanked s = prep_loop-Blanked (length s) s (omega arith)
