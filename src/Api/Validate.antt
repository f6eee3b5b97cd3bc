-- ===== src/Api/Validate.antt =====
-- Shapes of input: backend/internal/api/validate.go. The regular expressions are written out; their classes
-- are ASCII, so a byte decides.
use go_dark_web_crawler.Common.{
  ℕ, ◌+◌, Bool, true, false, ◌&&◌, ◌||◌, not, [], ◌∷◌, ltb, leb, ◌==◌, length, if◌then◌else◌,
}
use go_dark_web_crawler.Common.Text.{Bytes}

abbrev pub is_lower : ℕ → Bool
is_lower c = leb b'a' c && leb c b'z'

abbrev pub is_upper : ℕ → Bool
is_upper c = leb b'A' c && leb c b'Z'

abbrev pub is_digit : ℕ → Bool
is_digit c = leb b'0' c && leb c b'9'

abbrev pub is_symbol : ℕ → Bool
is_symbol c = ltb 32 c && ltb c 127 && not (is_lower c || is_upper c || is_digit c)

-- Every byte of a text passes a test, and whether one does.
abbrev pub each : (ℕ → Bool) → Bytes → Bool
each p [] = true
each p (c ∷ s) = p c && each p s

abbrev pub has_some : (ℕ → Bool) → Bytes → Bool
has_some p [] = false
has_some p (c ∷ s) = p c || has_some p s

abbrev pub is_token_char : ℕ → Bool
is_token_char c = is_lower c || is_upper c || is_digit c || c == b'_' || c == b'-'

-- `TokenSafeRE`.
unfoldable pub token_safe : Bytes → Bool
token_safe s = leb 16 (length s) && leb (length s) 128 && each is_token_char s

abbrev pub is_letter : ℕ → Bool
is_letter c = is_lower c || is_upper c

abbrev pub is_domain_char : ℕ → Bool
is_domain_char c = is_letter c || is_digit c || c == b'.' || c == b'-'

abbrev pub is_local_char : ℕ → Bool
is_local_char c = is_domain_char c || c == b'_' || c == b'%' || c == b'+'

-- `[a-zA-Z0-9.\-]+\.[a-zA-Z]{2,}$`; `seen` says that the first class has matched a byte.
unfoldable pub domain_part : Bool → Bytes → Bool
domain_part seen [] = false
domain_part seen (c ∷ s) =
    (seen && c == b'.' && leb 2 (length s) && each is_letter s)
    || (is_domain_char c && domain_part true s)

-- `^[a-zA-Z0-9._%+\-]+@` and the rest; the first class has no `@`.
unfoldable pub local_part : Bool → Bytes → Bool
local_part seen [] = false
local_part seen (c ∷ s) =
    (seen && c == b'@' && domain_part false s) || (is_local_char c && local_part true s)

-- `EmailRegex`.
unfoldable pub email_regex : Bytes → Bool
email_regex s = local_part false s

abbrev pub one_if : Bool → ℕ
one_if b = if b then 1 else 0

-- `ValidatePassword`: no error.
unfoldable pub validate_password : Bytes → Bool
validate_password p =
    not (ltb (length p) 10 || ltb 256 (length p))
    && leb 3 (
        one_if (has_some is_lower p)
        + one_if (has_some is_upper p)
        + one_if (has_some is_digit p)
        + one_if (has_some is_symbol p))
