-- ===== src/Text.antt =====
-- What the code uses of Go's strconv and strings, on strings as lists of bytes.
pub mod Decimal
use Prim.Native.Char.{code}
use Prim.Native.String
use Prim.Native.String.{String}
use yav2bx.Base.{
  ℕ, zero, suc, ◌+◌, ◌-◌, ◌*◌, ◌/◌, ◌%◌, ◌^◌, Bool, true, false, not, ◌&&◌, ◌||◌, List, [], ◌∷◌,
  ◌++◌, Option, none, some, ltb, leb, nat_beq, if◌then◌else◌,
}
use yav2bx.Int.{ℤ, pos, negsuc, sub_ℕ}
use yav2bx.Keys.{Str, str_beq}
use yav2bx.Panel.{cut_prefix}

-- The bytes of an ASCII literal.
abbrev pub bytes : String → Str
bytes String.[] = []
bytes (String.◌∷◌ c s) = code c ∷ bytes s

-- fmt's `%d`, with fuel for the digits: `n < fuel` is enough.
unfoldable pub print_nat : ℕ → ℕ → Str → Str
print_nat zero n acc = acc
print_nat (suc fuel) n acc =
    let more = print_nat fuel (n / 10) ((b'0' + n % 10) ∷ acc) in
    if ltb n 10 then (b'0' + n % 10) ∷ acc else more

-- strconv.Itoa
unfoldable pub print_int : ℤ → Str
print_int (pos n) = print_nat (suc n) n []
print_int (negsuc n) = b'-' ∷ print_nat (suc (suc n)) (suc n) []

abbrev pub is_digit : ℕ → Bool
is_digit c = leb b'0' c && leb c b'9'

-- What strconv.ParseUint finds: a number, a byte that is no digit, or more than 64 bits.
pub data Scan : Type 0 where
  number : ℕ → Scan
  syntax : Scan
  overflow : Scan

unfoldable pub scan_digits : ℕ → Str → Scan
scan_digits n [] = number n
scan_digits n (c ∷ s) =
    let m = n * 10 + (c - b'0') in
    let rest = scan_digits m s in
    if not (is_digit c) then syntax else if leb (2 ^ 64) m then overflow else rest

unfoldable pub parse_uint : Str → Scan
parse_uint [] = syntax
parse_uint (c ∷ s) = scan_digits 0 (c ∷ s)

-- The value with its sign, and whether there is an error: a syntax error gives 0, and a number out
-- of range gives the nearest one.
abbrev pub signed : Bool → Scan → ℤ × Bool
signed minus syntax = (pos 0, true)
signed true overflow = (negsuc (2 ^ 63 - 1), true)
signed false overflow = (pos (2 ^ 63 - 1), true)
signed true (number n) = if ltb (2 ^ 63) n then (negsuc (2 ^ 63 - 1), true) else (sub_ℕ 0 n, false)
signed false (number n) = if leb (2 ^ 63) n then (pos (2 ^ 63 - 1), true) else (pos n, false)

-- strconv.Atoi
unfoldable pub atoi : Str → ℤ × Bool
atoi [] = (pos 0, true)
atoi (c ∷ s) =
    if nat_beq c b'-'
    then signed true (parse_uint s)
    else if nat_beq c b'+'
    then signed false (parse_uint s)
    else signed false (parse_uint (c ∷ s))

-- strings.HasPrefix
abbrev pub has_prefix : Str → Str → Bool
has_prefix s p = elim (cut_prefix s p) [ none ↦ false | some rest ↦ true ]

-- strings.TrimLeft, TrimRight and TrimSpace, of an ASCII text
abbrev pub is_space : ℕ → Bool
is_space c = nat_beq c b' ' || (leb 9 c && leb c 13)

unfoldable pub trim_left : (ℕ → Bool) → Str → Str
trim_left p [] = []
trim_left p (c ∷ s) = if p c then trim_left p s else c ∷ s

unfoldable pub trim_right : (ℕ → Bool) → Str → Str
trim_right p [] = []
trim_right p (c ∷ s) = elim (trim_right p s) [ [] ↦ if p c then [] else c ∷ [] | d ∷ t ↦ c ∷ d ∷ t ]

unfoldable pub trim_space : Str → Str
trim_space s = trim_right is_space (trim_left is_space s)

-- strings.Split at one byte, and strings.Join without a separator
unfoldable pub split_at : ℕ → Str → Str → List Str
split_at sep cur [] = cur ∷ []
split_at sep cur (c ∷ s) =
    let closed = split_at sep [] s in
    let longer = split_at sep (cur ++ c ∷ []) s in if nat_beq c sep then cur ∷ closed else longer

unfoldable pub concat_all : List Str → Str
concat_all [] = []
concat_all (s ∷ ss) = s ++ concat_all ss
