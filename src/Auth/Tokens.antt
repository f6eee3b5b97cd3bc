-- ===== src/Auth/Tokens.antt =====
-- Session tokens and audit references: backend/internal/auth/auth.go. The JWT library, HMAC-SHA256 and the
-- random source are parameters; times are microseconds since 1970.
pub mod Lifetime
use go_dark_web_crawler.Common.{
  ℕ, ◌+◌, ◌*◌, Bool, true, false, not, ◌&&◌, ◌||◌, Option, none, some, List, [], ◌∷◌, ◌++◌, ltb,
  leb, ◌==◌, if◌then◌else◌,
}
use go_dark_web_crawler.Common.Text.{Bytes, bytes_eq, codes}
use go_dark_web_crawler.Common.Hex.{hex}

-- `int`: a JSON number may be negative.
pub data ℤ : Type 0 where
  pos : ℕ → ℤ
  negsuc : ℕ → ℤ

abbrev pub token_ttl : ℕ
token_ttl = 4 * 3600 * 1_000_000

abbrev pub token_issuer : Bytes
token_issuer = codes "onion-spider"

abbrev pub token_audience : Bytes
token_audience = codes "onion-spider-api"

-- `Claims`, with the registered claims that the program sets or checks.
pub record Claims : Type 0 where
  pub user_id : ℤ
  pub token_version : ℤ
  pub session_id : Bytes
  pub issuer : Bytes
  pub audience : List Bytes
  pub expires_at : Option ℕ
  pub issued_at : Option ℕ
  pub not_before : Option ℕ

unfoldable pub is_positive : ℤ → Bool
is_positive (pos n) = not (n == 0)
is_positive (negsuc n) = false

unfoldable pub is_negative : ℤ → Bool
is_negative (pos n) = false
is_negative (negsuc n) = true

pub data ClaimsError : Type 0 where
  invalid_user_id invalid_token_version missing_temporal_claims lifetime_exceeds_maximum :
      ClaimsError

-- `c.ExpiresAt.Time.Sub(c.IssuedAt.Time) > TokenTTL`, where there is an expiry.
unfoldable pub lives_too_long : Option ℕ → ℕ → Bool
lives_too_long none issued = false
lives_too_long (some expires) issued = ltb (issued + token_ttl) expires

-- `Claims.Validate`; none is no error.
unfoldable pub validate : Claims → Option ClaimsError
validate c =
    if not (is_positive c.user_id)
    then some invalid_user_id
    else (if is_negative c.token_version then some invalid_token_version else elim c.issued_at [
      | none ↦ some missing_temporal_claims
      | some issued ↦ elim c.not_before [
        | none ↦ some missing_temporal_claims
        | some _ ↦
            if lives_too_long c.expires_at issued then some lifetime_exceeds_maximum else none
      ]
    ])

-- The options that `ValidateToken` gives to the parser, and the validator that the claims bring along.
pub record ParserOptions : Type 0 where
  pub valid_methods : List Bytes
  pub expiration_required : Bool
  pub verify_issued_at : Bool
  pub expected_issuer : Bytes
  pub expected_audience : Bytes
  pub leeway : ℕ
  pub validator : Claims → Option ClaimsError

pub record Jwt : Type 0 where
  -- `jwt.NewNumericDate`, back as a time.
  pub numeric_date : ℕ → ℕ
  -- `jwt.NewWithClaims(jwt.SigningMethodHS256, claims).SignedString(key)`.
  pub sign : Bytes → Claims → Bytes
  -- `jwt.ParseWithClaims` at a time, with the function that picks the key for a signing method: the claims
  -- and `token.Valid`, or none where it returns an error.
  pub parse : ParserOptions → (Bytes → Option Bytes) → ℕ → Bytes → Option (Claims × Bool)

abbrev pub hs256 : Bytes
hs256 = codes "HS256"

abbrev pub parser_options : ParserOptions
parser_options = record {
  valid_methods = hs256 ∷ [];
  expiration_required = true;
  verify_issued_at = true;
  expected_issuer = token_issuer;
  expected_audience = token_audience;
  leeway = 30 * 1_000_000;
  validator = validate;
}

-- The claims of `GenerateToken`.
unfoldable pub issued_claims : Jwt → ℕ → ℕ → ℕ → Bytes → Claims
issued_claims j now user version session = record {
  user_id = pos user;
  token_version = pos version;
  session_id = session;
  issuer = token_issuer;
  audience = token_audience ∷ [];
  expires_at = some (j.numeric_date (now + token_ttl));
  issued_at = some (j.numeric_date now);
  not_before = some (j.numeric_date now);
}

-- `GenerateToken`, for the secret of the process.
unfoldable pub generate_token : Jwt → Bytes → ℕ → ℕ → ℕ → Bytes → Bytes
generate_token j secret now user version session =
    j.sign secret (issued_claims j now user version session)

-- The key function: no key for any other method than HS256.
unfoldable pub key_for : Bytes → Bytes → Option Bytes
key_for secret method = if bytes_eq method hs256 then some secret else none

-- `ValidateToken`.
unfoldable pub validate_token : Jwt → Bytes → ℕ → Bytes → Option Claims
validate_token j secret now token = elim (j.parse parser_options (key_for secret) now token) [
  | none ↦ none
  | some (claims, valid) ↦ if valid then some claims else none
]

-- `AuditReference`; the key is the secret of the process.
unfoldable pub audit_reference : (Bytes → Bytes → Bytes) → Bytes → Bytes → Bytes → Bytes
audit_reference hmac_sha256 secret kind value =
    codes "hmac-sha256:v1:"
    ++ hex (hmac_sha256 secret (codes "onion-spider/auth-audit/v1" ++ (0 ∷ kind ++ (0 ∷ value))))
