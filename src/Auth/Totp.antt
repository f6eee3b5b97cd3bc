-- ===== src/Auth/Totp.antt =====
-- One-time passwords and recovery codes: backend/internal/auth/totp.go. HMAC-SHA1 and the base32
-- decoding of the standard library are parameters.
pub mod Codes
use go_dark_web_crawler.Common.{
  ℕ, ◌+◌, ◌-◌, ◌*◌, ◌/◌, ◌%◌, ◌^◌, Bool, true, false, not, ◌&&◌, ◌||◌, Option, none, some, List, [],
  ◌∷◌, ◌++◌, ltb, leb, ◌==◌, length, get_or, if◌then◌else◌,
}
use go_dark_web_crawler.Common.Text.{
  Bytes, bytes_eq, codes, Unicode, trim_space, to_upper, to_lower,
}

-- The library functions that the codes stand on.
pub record Crypto : Type 0 where
  pub unicode : Unicode
  -- `hmac.New(sha1.New, key)` written once and summed.
  pub hmac_sha1 : Bytes → Bytes → Bytes
  -- `base32.StdEncoding.WithPadding(base32.NoPadding).DecodeString`.
  pub base32_decode : Bytes → Option Bytes

abbrev pub totp_period : ℕ
totp_period = 30

abbrev pub totp_digits : ℕ
totp_digits = 6

-- `binary.BigEndian.PutUint64`.
unfoldable pub put_uint64 : ℕ → Bytes
put_uint64 n =
    (n / 2 ^ 56) % 256
    ∷ (n / 2 ^ 48) % 256
    ∷ (n / 2 ^ 40) % 256
    ∷ (n / 2 ^ 32) % 256
    ∷ (n / 2 ^ 24) % 256
    ∷ (n / 2 ^ 16) % 256
    ∷ (n / 2 ^ 8) % 256
    ∷ n % 256
    ∷ []

-- `binary.BigEndian.Uint32(sum[i:i+4])`.
unfoldable pub uint32_at : Bytes → ℕ → ℕ
uint32_at sum i =
    get_or sum i 0 * 2 ^ 24
    + get_or sum (i + 1) 0 * 2 ^ 16
    + get_or sum (i + 2) 0 * 2 ^ 8
    + get_or sum (i + 3) 0

-- The last decimal digit, as a byte.
unfoldable pub digit : ℕ → ℕ
digit n = 48 + n % 10

-- `fmt.Sprintf("%0*d", TOTPDigits, v)` for a number below 10 ^ 6.
unfoldable pub six_digits : ℕ → Bytes
six_digits v =
    digit (v / 100_000)
    ∷ digit (v / 10_000)
    ∷ digit (v / 1_000)
    ∷ digit (v / 100)
    ∷ digit (v / 10)
    ∷ digit v
    ∷ []

-- `totpCode`: the dynamic truncation of RFC 4226, section 5.3.
unfoldable pub totp_code : Crypto → Bytes → ℕ → Bytes
totp_code c key counter =
    let sum = c.hmac_sha1 key (put_uint64 counter) in
    let offset = get_or sum (length sum - 1) 0 % 16 in
    six_digits ((uint32_at sum offset % 2 ^ 31) % 1_000_000)

-- `strings.ReplaceAll(s, " ", "")`.
unfoldable pub drop_spaces : Bytes → Bytes
drop_spaces [] = []
drop_spaces (c ∷ s) = if c == b' ' then drop_spaces s else c ∷ drop_spaces s

-- `strings.TrimRight(s, "=")`: a sign stays where something else stays behind it.
unfoldable pub drop_padding : ℕ → Bytes → Bytes
drop_padding c [] = if c == b'=' then [] else c ∷ []
drop_padding c (d ∷ s) = c ∷ d ∷ s

unfoldable pub trim_padding : Bytes → Bytes
trim_padding [] = []
trim_padding (c ∷ s) = drop_padding c (trim_padding s)

-- `decodeTOTPSecret`.
unfoldable pub decode_totp_secret : Crypto → Bytes → Option Bytes
decode_totp_secret c secret =
    elim (c.base32_decode
      (trim_padding (to_upper c.unicode (drop_spaces (trim_space c.unicode secret))))) [
        | none ↦ none
        | some key ↦ if length key == 0 then none else some key
      ]

-- `GenerateTOTPCode`, at a time in seconds.
unfoldable pub generate_totp_code : Crypto → Bytes → ℕ → Option Bytes
generate_totp_code c secret at = elim (decode_totp_secret c secret) [
  | none ↦ none
  | some key ↦ some (totp_code c key (at / totp_period))
]

unfoldable pub all_digits : Bytes → Bool
all_digits [] = true
all_digits (d ∷ s) = leb b'0' d && leb d b'9' && all_digits s

-- The steps that the loop over `delta` tries, in its order.
unfoldable pub offered : ℕ → List ℕ
offered counter = (if ltb counter 1 then [] else (counter - 1) ∷ []) ++ counter ∷ (counter + 1) ∷ []

unfoldable pub first_match : Crypto → Bytes → Bytes → List ℕ → Option ℕ
first_match c key code [] = none
first_match c key code (step ∷ steps) =
    if bytes_eq (totp_code c key step) code then some step else first_match c key code steps

-- `ValidateTOTP`: the step that the code matches.
unfoldable pub validate_totp : Crypto → Bytes → Bytes → ℕ → Option ℕ
validate_totp c secret typed now =
    let code = trim_space c.unicode typed in
    if not (length code == totp_digits) || not (all_digits code)
    then none
    else elim (decode_totp_secret c secret) [
      | none ↦ none
      | some key ↦ first_match c key code (offered (now / totp_period))
    ]

-- `NormalizeRecoveryCode`.
unfoldable pub normalize_recovery_code : Unicode → Bytes → Bytes
normalize_recovery_code u code = to_lower u (drop_spaces (trim_space u code))

-- `unreserved` of RFC 3986.
unfoldable pub is_unreserved : ℕ → Bool
is_unreserved c =
    (leb b'a' c && leb c b'z')
    || (leb b'A' c && leb c b'Z')
    || (leb b'0' c && leb c b'9')
    || c == b'-'
    || c == b'.'
    || c == b'_'
    || c == b'~'

unfoldable pub upper_hex : ℕ → ℕ
upper_hex n = if ltb n 10 then 48 + n else 55 + n

-- `escapeOTPAuthLabel`.
unfoldable pub escape_otpauth_label : Bytes → Bytes
escape_otpauth_label [] = []
escape_otpauth_label (c ∷ s) =
    let rest = escape_otpauth_label s in
    if is_unreserved c then c ∷ rest else b'%' ∷ upper_hex (c / 16) ∷ upper_hex (c % 16) ∷ rest

abbrev recovery_alphabet : Bytes
recovery_alphabet = codes "abcdefghjkmnpqrstuvwxyz23456789"

-- The loop of `GenerateRecoveryCode` from index `i` on, over the random bytes.
unfoldable pub recovery_letters : ℕ → Bytes → Bytes
recovery_letters i [] = []
recovery_letters i (v ∷ vs) =
    let letter = get_or recovery_alphabet (v % length recovery_alphabet) 0 in
    let rest = letter ∷ recovery_letters (i + 1) vs in if i == 5 then b'-' ∷ rest else rest

-- `GenerateRecoveryCode`, for the ten bytes that `crypto/rand` gives.
unfoldable pub generate_recovery_code : Bytes → Bytes
generate_recovery_code random = recovery_letters 0 random
