-- ===== src/Common/Hex.antt =====
-- Base 16, as `encoding/hex` and the verb `%x` write it, and decimal reading by `strconv.Atoi`.
use go_dark_web_crawler.Common.{
  ℕ, ◌+◌, ◌-◌, ◌*◌, ◌/◌, ◌%◌, ◌^◌, ◌<◌, ◌≡◌, refl, Bool, true, false, ◌&&◌, ◌||◌, [], ◌∷◌, arith,
  ltb, leb, ◌==◌, length, All, if◌then◌else◌, Option, none, some,
}
use go_dark_web_crawler.Common.Text.{Bytes}

unfoldable pub hex_digit : ℕ → ℕ
hex_digit n = if ltb n 10 then 48 + n else 87 + n

-- `hex.EncodeToString`.
unfoldable pub hex : Bytes → Bytes
unfolding hex_digit
hex [] = []
hex (c ∷ s) = hex_digit (c / 16) ∷ hex_digit (c % 16) ∷ hex s

abbrev pub IsByte : ℕ → Type 0
IsByte c = c < 256

abbrev pub is_hex : ℕ → Bool
is_hex c = (leb b'0' c && leb c b'9') || (leb b'a' c && leb c b'f')

pub length-hex : (s : Bytes) → length (hex s) ≡ 2 * length s
unfolding hex
length-hex [] = omega arith
length-hex (c ∷ s) = omega (arith, length-hex s)

pub hex-is_hex : (s : Bytes) → All IsByte s → All (λ c. is_hex c ≡ true) (hex s)
unfolding hex
hex-is_hex [] h = tt
hex-is_hex (c ∷ s) h = (ground arith, (ground arith, hex-is_hex s h.1))

-- The verdict of `strconv.Atoi`: a number with its sign, a syntax error (value 0), or a range error
-- (the value is the nearest int64, whose sign is kept).
pub data Parsed : Type 0 where
  number : Bool → ℕ → Parsed
  syntax_error : Parsed
  range_error : Bool → Parsed

abbrev pub is_digit : ℕ → Bool
is_digit c = leb b'0' c && leb c b'9'

unfoldable pub decimal : ℕ → Bytes → Option ℕ
decimal acc [] = some acc
decimal acc (c ∷ s) =
    let rest = decimal (acc * 10 + (c - 48)) s in if is_digit c then rest else none

-- The digits behind the sign: at least one, and within 64 bits.
digits : Bool → Bytes → Parsed
unfolding decimal
digits negative [] = syntax_error
digits negative (c ∷ s) = elim (decimal 0 (c ∷ s)) [
  | none ↦ syntax_error
  | some n ↦
      if ltb n (2 ^ 63) || (negative && n == 2 ^ 63)
      then number negative n
      else range_error negative
]

unfoldable pub atoi : Bytes → Parsed
unfolding digits
atoi [] = syntax_error
atoi (c ∷ s) =
    if c == b'-' then digits true s else if c == b'+' then digits false s else digits false (c ∷ s)

pub hex_injective : (s t : Bytes) → All IsByte s → All IsByte t → hex s ≡ hex t → s ≡ t
unfolding hex
hex_injective [] [] h k e = refl
hex_injective [] (d ∷ t) h k e = cc
hex_injective (c ∷ s) [] h k e = cc
hex_injective (c ∷ s) (d ∷ t) h k e = ground (arith, hex_injective s t h.1 k.1)
