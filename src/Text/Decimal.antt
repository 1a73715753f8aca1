-- ===== src/Text/Decimal.antt =====
-- Go's strconv: decimals that are printed read back as the numbers they are.
use yav2bx.Base.{
  ℕ, zero, suc, ◌+◌, ◌/◌, ◌%◌, ◌^◌, ◌<◌, ◌≡◌, refl, ◌∙◌, true, false, [], ◌∷◌, arith, ltb,
  Bool-cases, inl, inr,
}
use yav2bx.Int.{ℤ, pos, negsuc, InRange64}
use yav2bx.Keys.{Str}
use yav2bx.Text.{print_nat, print_int, number, scan_digits, parse_uint, atoi, is_digit, signed}

scan_digits-print_nat :
    (fuel n : ℕ) (acc : Str)
    → n < fuel
    → n < 2 ^ 64
    → scan_digits 0 (print_nat fuel n acc) ≡ scan_digits n acc
unfolding print_nat scan_digits
scan_digits-print_nat zero n acc h w = absurd (omega arith)
scan_digits-print_nat (suc fuel) n acc h w = elim (Bool-cases (ltb n 10)) [
  | inl small ↦ rw small (ground arith)
  | inr big ↦ rw big (
      scan_digits-print_nat fuel (n / 10) ((b'0' + n % 10) ∷ acc) (ground arith) (ground arith)
      ∙ ground arith)
]

-- A decimal starts with a digit.
abbrev Starts : Str → Type 0
Starts [] = ⊥
Starts (c ∷ s) = is_digit c ≡ true

print_nat-Starts : (fuel n : ℕ) (acc : Str) → n < fuel → Starts (print_nat fuel n acc)
unfolding print_nat
print_nat-Starts zero n acc h = absurd (omega arith)
print_nat-Starts (suc fuel) n acc h = elim (Bool-cases (ltb n 10)) [
  | inl small ↦ rw small (ground arith)
  | inr big ↦ rw big (print_nat-Starts fuel (n / 10) ((b'0' + n % 10) ∷ acc) (ground arith))
]

parse_uint-Starts : (s : Str) → Starts s → parse_uint s ≡ scan_digits 0 s
unfolding parse_uint
parse_uint-Starts [] h = absurd h
parse_uint-Starts (c ∷ s) h = refl

atoi-Starts : (s : Str) → Starts s → atoi s ≡ signed false (scan_digits 0 s)
unfolding atoi
atoi-Starts [] h = absurd h
atoi-Starts (c ∷ s) h = ground (arith, parse_uint-Starts (c ∷ s) h)

scan_digits-print : (n : ℕ) → n < 2 ^ 64 → scan_digits 0 (print_nat (suc n) n []) ≡ number n
unfolding scan_digits
scan_digits-print n w = scan_digits-print_nat (suc n) n [] (omega arith) w

atoi-minus :
    (s : Str) (n : ℕ)
    → n < 2 ^ 63
    → parse_uint s ≡ number (suc n)
    → atoi (b'-' ∷ s) ≡ (negsuc n, false)
unfolding atoi
atoi-minus s n h q = rw q (ground arith)

-- (the number has 64 bits) Atoi reads what Itoa prints: the same number, without an error.
atoi-print_int : (z : ℤ) → InRange64 z → atoi (print_int z) ≡ (z, false)
unfolding print_int
atoi-print_int (pos n) h =
    rw
      (
        atoi-Starts (print_nat (suc n) n []) (print_nat-Starts (suc n) n [] (omega arith)),
        scan_digits-print n (omega arith),
      )
      (ground arith)
atoi-print_int (negsuc n) h = atoi-minus (print_nat (suc (suc n)) (suc n) []) n h (
    parse_uint-Starts _ (print_nat-Starts (suc (suc n)) (suc n) [] (omega arith))
    ∙ scan_digits-print (suc n) (omega arith))
