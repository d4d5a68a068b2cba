-- ===== src/Wire/Decimal.antt =====
-- strconv.AppendInt and strconv.ParseInt, in base 10 and with 64 bits.
use deadhorse.Common.{
  Bool, Bool-cases, Option, [], arith, false, if◌then◌else◌, inl, inr, leb, ltb, none, refl, some,
  suc, true, zero, ℕ, ◌%◌, ◌&&◌, ◌*◌, ◌+◌, ◌-◌, ◌/◌, ◌<◌, ◌==◌, ◌>>=◌, ◌∙◌, ◌∷◌, ◌≡◌, ◌≤◌,
}
use deadhorse.Common.Int.{max_int64, negsuc, pos, ℤ}
use deadhorse.Common.Assoc.{Str}
use deadhorse.Dhp1.{is_key_delimiter, is_space}

-- The digits of a number, put in front of a text.
unfoldable pub digits_from : ℕ → ℕ → Str → Str
digits_from zero n acc = acc
digits_from (suc fuel) n acc =
    let rest = digits_from fuel (n / 10) ((b'0' + n % 10) ∷ acc) in
    if ltb n 10 then (b'0' + n) ∷ acc else rest

unfoldable pub append_int : ℤ → Str
append_int (pos n) = digits_from (suc n) n []
append_int (negsuc n) = b'-' ∷ digits_from (suc (suc n)) (suc n) []

unfoldable pub is_digit : ℕ → Bool
is_digit c = leb b'0' c && leb c b'9'

unfoldable pub parse_digits : Str → ℕ → Option ℕ
parse_digits [] n = some n
parse_digits (c ∷ s) n =
    let rest = parse_digits s (n * 10 + (c - b'0')) in if is_digit c then rest else none

-- The digits behind the sign: at least one.
unfoldable pub parse_unsigned : Str → Option ℕ
parse_unsigned [] = none
parse_unsigned (c ∷ s) = parse_digits (c ∷ s) 0

-- The sign, and the range of an int64.
unfoldable pub signed : Bool → ℕ → Option ℤ
signed false n = if leb n max_int64 then some (pos n) else none
signed true zero = some (pos 0)
signed true (suc n) = if leb n max_int64 then some (negsuc n) else none

unfoldable pub parse_int : Str → Option ℤ
unfolding parse_unsigned signed
parse_int [] = none
parse_int (c ∷ s) =
    if c == b'-'
    then (parse_unsigned s >>= signed true)
    else if c == b'+'
    then (parse_unsigned s >>= signed false)
    else (parse_unsigned (c ∷ s) >>= signed false)

-- The range of an int64.
abbrev pub InRange : ℤ → Type 0
InRange (pos n) = n ≤ max_int64
InRange (negsuc n) = n ≤ max_int64

-- The first character is a digit.
abbrev StartsDigit : Str → Type 0
StartsDigit [] = ⊥
StartsDigit (c ∷ s) = (b'0' ≤ c) × (c ≤ b'9')

digits_from-kept : (fuel n : ℕ) (acc : Str) → StartsDigit acc → StartsDigit (digits_from fuel n acc)
unfolding digits_from
digits_from-kept zero n acc h = h
digits_from-kept (suc fuel) n acc h = elim (Bool-cases (ltb n 10)) [
  | inl e ↦ rw e (ground arith)
  | inr e ↦ rw e (digits_from-kept fuel (n / 10) ((b'0' + n % 10) ∷ acc) (omega arith))
]

digits_from-StartsDigit : (fuel n : ℕ) (acc : Str) → StartsDigit (digits_from (suc fuel) n acc)
unfolding digits_from
digits_from-StartsDigit fuel n acc = elim (Bool-cases (ltb n 10)) [
  | inl e ↦ rw e (ground arith)
  | inr e ↦ rw e (digits_from-kept fuel (n / 10) ((b'0' + n % 10) ∷ acc) (omega arith))
]

parse_digits-digits_from :
    (fuel n : ℕ) (acc : Str)
    → n < fuel
    → parse_digits (digits_from fuel n acc) 0 ≡ parse_digits acc n
unfolding digits_from parse_digits is_digit
parse_digits-digits_from zero n acc h = absurd (omega arith)
parse_digits-digits_from (suc fuel) n acc h = elim (Bool-cases (ltb n 10)) [
  | inl e ↦ rw e (ground arith)
  | inr e ↦
      rw (e, parse_digits-digits_from fuel (n / 10) ((b'0' + n % 10) ∷ acc) (ground arith))
        (ground arith)
]

parse_unsigned-StartsDigit : (s : Str) → StartsDigit s → parse_unsigned s ≡ parse_digits s 0
unfolding parse_unsigned
parse_unsigned-StartsDigit [] h = elim h [ ]
parse_unsigned-StartsDigit (c ∷ s) h = refl

parse_int-StartsDigit :
    (s : Str) → StartsDigit s → parse_int s ≡ (parse_digits s 0 >>= signed false)
unfolding parse_int parse_unsigned
parse_int-StartsDigit [] h = elim h [ ]
parse_int-StartsDigit (c ∷ s) h = ground arith

-- Every int64 that AppendInt writes is read back by ParseInt, the least one included.
pub parse_int-append_int : (v : ℤ) → InRange v → parse_int (append_int v) ≡ some v
unfolding append_int parse_int signed parse_digits
parse_int-append_int (pos n) h =
    let s = digits_from (suc n) n [] in
    parse_int-StartsDigit s (digits_from-StartsDigit n n [])
    ∙ rw (parse_digits-digits_from (suc n) n [] (omega arith)) (ground arith)
parse_int-append_int (negsuc n) h =
    rw
      (
        parse_unsigned-StartsDigit _ (digits_from-StartsDigit (suc n) (suc n) []),
        parse_digits-digits_from (suc (suc n)) (suc n) [] (omega arith),
      )
      (ground arith)

-- No character of a text is a delimiter of the protocol.
abbrev pub Clean : Str → Type 0
Clean [] = Unit
Clean (c ∷ s) = (is_key_delimiter c ≡ false) × Clean s

digit-Clean : (c : ℕ) → b'0' ≤ c → c ≤ b'9' → is_key_delimiter c ≡ false
unfolding is_key_delimiter is_space
digit-Clean c lo hi = ground arith

digits_from-Clean : (fuel n : ℕ) (acc : Str) → Clean acc → Clean (digits_from fuel n acc)
unfolding digits_from
digits_from-Clean zero n acc h = h
digits_from-Clean (suc fuel) n acc h = elim (Bool-cases (ltb n 10)) [
  | inl e ↦ rw e (digit-Clean _ (omega arith) (ground arith), h)
  | inr e ↦ rw e (
      digits_from-Clean fuel (n / 10) ((b'0' + n % 10) ∷ acc)
        (digit-Clean _ (omega arith) (omega arith), h))
]

minus-Clean : is_key_delimiter b'-' ≡ false
unfolding is_key_delimiter is_space
minus-Clean = refl

pub append_int-Clean : (v : ℤ) → Clean (append_int v)
unfolding append_int
append_int-Clean (pos n) = digits_from-Clean (suc n) n [] tt
append_int-Clean (negsuc n) = (minus-Clean, digits_from-Clean (suc (suc n)) (suc n) [] tt)
