-- ===== src/Node/Key.antt =====
-- node/user.go, userCompareKey: `%d|%s|%d|%d` of a user's fields tells users apart.
use yav2bx.Base.{
  ℕ, zero, suc, ◌+◌, ◌-◌, ◌*◌, ◌/◌, ◌%◌, ◌<◌, ◌≡◌, ◌≢◌, refl, sym, ap, subst, ◌∙◌, [], ◌∷◌, ◌++◌,
  arith, ltb, nat_beq, if◌then◌else◌, All, Bool-cases, inl, inr,
}
use yav2bx.Int.{ℤ, pos, negsuc}
use yav2bx.Keys.{Str}
use yav2bx.Panel.{UserInfo}
use yav2bx.Text.{print_nat, print_int}

-- userCompareKey
unfoldable pub user_compare_key : UserInfo → Str
user_compare_key u =
    print_int u.id
    ++ (b'|' ∷ (u.uuid ++ (b'|' ∷ (print_int u.speed_limit ++ (b'|' ∷ print_int u.device_limit)))))

-- The number that a text of digits stands for, behind the digits of `n`.
abbrev value : ℕ → Str → ℕ
value n [] = n
value n (c ∷ s) = value (n * 10 + (c - b'0')) s

value-print_nat : (fuel n : ℕ) (acc : Str) → n < fuel → value 0 (print_nat fuel n acc) ≡ value n acc
unfolding print_nat
value-print_nat zero n acc h = absurd (omega arith)
value-print_nat (suc fuel) n acc h = elim (Bool-cases (ltb n 10)) [
  | inl small ↦ rw small (ap (λ k. value k acc) (ground arith))
  | inr big ↦ rw big (
      value-print_nat fuel (n / 10) ((b'0' + n % 10) ∷ acc) (ground arith)
      ∙ ap (λ k. value k acc) (omega arith))
]

-- No digit is a bar or a sign.
abbrev IsPlain : ℕ → Type 0
IsPlain c = (c ≢ b'|') × (c ≢ b'-')

print_nat-IsPlain : (fuel n : ℕ) (acc : Str) → All IsPlain acc → All IsPlain (print_nat fuel n acc)
unfolding print_nat
print_nat-IsPlain zero n acc h = h
print_nat-IsPlain (suc fuel) n acc h = elim (Bool-cases (ltb n 10)) [
  | inl small ↦ rw small ((digit n, h))
  | inr big ↦ rw big (print_nat-IsPlain fuel (n / 10) ((b'0' + n % 10) ∷ acc) (digit n, h))
]
  where
    digit : (n : ℕ) → IsPlain (b'0' + n % 10)
    digit n = omega arith

print_nat-injective : (n m : ℕ) → print_nat (suc n) n [] ≡ print_nat (suc m) m [] → n ≡ m
print_nat-injective n m e =
    sym (value-print_nat (suc n) n [] (omega arith))
    ∙ ap (value 0) e
    ∙ value-print_nat (suc m) m [] (omega arith)

-- The number of bars of a text.
abbrev bars : Str → ℕ
bars [] = 0
bars (c ∷ s) = (if nat_beq c b'|' then 1 else 0) + bars s

bars-append : (s t : Str) → bars (s ++ t) ≡ bars s + bars t
bars-append [] t = omega arith
bars-append (c ∷ s) t = omega (arith, bars-append s t)

IsPlain-bars : (s : Str) → All IsPlain s → bars s ≡ 0
IsPlain-bars [] h = refl
IsPlain-bars (c ∷ s) h = ground (arith, IsPlain-bars s h.1)

print_int-bars : (z : ℤ) → bars (print_int z) ≡ 0
unfolding print_int
print_int-bars (pos n) = IsPlain-bars _ (print_nat-IsPlain (suc n) n [] tt)
print_int-bars (negsuc n) = ground (
  arith,
  IsPlain-bars (print_nat (suc (suc n)) (suc n) []) (print_nat-IsPlain (suc (suc n)) (suc n) [] tt),
)

head_plain : (fuel n : ℕ) (s : Str) → print_nat (suc fuel) n [] ≡ b'-' ∷ s → ⊥
head_plain fuel n s e =
    absurd (ground (arith, subst (All IsPlain) e (print_nat-IsPlain (suc fuel) n [] tt)))

pub print_int-injective : (a b : ℤ) → print_int a ≡ print_int b → a ≡ b
unfolding print_int
print_int-injective (pos n) (pos m) e = ap pos (print_nat-injective n m e)
print_int-injective (negsuc n) (negsuc m) e =
    ground (arith, print_nat-injective (suc n) (suc m) (ground (arith, e)))
print_int-injective (pos n) (negsuc m) e = absurd (head_plain n n _ e)
print_int-injective (negsuc n) (pos m) e = absurd (head_plain m m _ (sym e))

-- A text splits at a bar in one way only, if the bars behind it are counted.
split_unique :
    (u v s t : Str) → u ++ (b'|' ∷ s) ≡ v ++ (b'|' ∷ t) → bars s ≡ bars t → (u ≡ v) × (s ≡ t)
split_unique [] [] s t e h = (refl, ground (arith, e))
split_unique (x ∷ u) (y ∷ v) s t e h = ground (arith, split_unique u v s t (ground (arith, e)) h)
split_unique [] (y ∷ v) s t e h = absurd (ground (arith, e, bars-append v (b'|' ∷ t), ap bars e))
split_unique (x ∷ u) [] s t e h = absurd (ground (arith, e, bars-append u (b'|' ∷ s), ap bars e))

-- Or if no bar stands in front of it.
split_first :
    (u v s t : Str)
    → u ++ (b'|' ∷ s) ≡ v ++ (b'|' ∷ t)
    → bars u ≡ 0
    → bars v ≡ 0
    → (u ≡ v) × (s ≡ t)
split_first [] [] s t e h k = (refl, ground (arith, e))
split_first (x ∷ u) (y ∷ v) s t e h k =
    ground (arith, split_first u v s t (ground (arith, e)) (omega arith) (omega arith))
split_first [] (y ∷ v) s t e h k = absurd (ground (arith, e, k))
split_first (x ∷ u) [] s t e h k = absurd (ground (arith, e, h))

-- Two users with the same key are the same user, whatever bytes their uuids hold.
pub user_compare_key-injective : (u w : UserInfo) → user_compare_key u ≡ user_compare_key w → u ≡ w
unfolding user_compare_key
user_compare_key-injective u w e =
    let first =
      split_first (print_int u.id) (print_int w.id) _ _ e (print_int-bars u.id)
        (print_int-bars w.id) in
    let second = split_unique u.uuid w.uuid _ _ first.1 (tail_bars u w) in
    let third =
      split_unique (print_int u.speed_limit) (print_int w.speed_limit) _ _ second.1
        (print_int-bars u.device_limit ∙ sym (print_int-bars w.device_limit)) in
    ground (
      arith,
      print_int-injective u.id w.id first.0,
      second.0,
      print_int-injective u.speed_limit w.speed_limit third.0,
      print_int-injective u.device_limit w.device_limit third.1,
    )
  where
    tail_bars :
        (u w : UserInfo)
        → bars (print_int u.speed_limit ++ (b'|' ∷ print_int u.device_limit))
          ≡ bars (print_int w.speed_limit ++ (b'|' ∷ print_int w.device_limit))
    tail_bars u w = omega (
      arith,
      bars-append (print_int u.speed_limit) (b'|' ∷ print_int u.device_limit),
      bars-append (print_int w.speed_limit) (b'|' ∷ print_int w.device_limit),
      print_int-bars u.speed_limit,
      print_int-bars w.speed_limit,
      print_int-bars u.device_limit,
      print_int-bars w.device_limit,
    )
