-- ===== src/Tests/Accounts.antt =====
-- Accounts, passwords, tokens, the log of the authentication, signing in and the routes behind it.
use go_dark_web_crawler.Common.{
  ℕ, ◌+◌, ◌*◌, ◌≤◌, ◌<◌, ◌≡◌, ◌∙◌, refl, ap, subst, Bool, true, false, ◌&&◌, Option, none, some,
  List, [], ◌∷◌, arith, leb, length,
}
use go_dark_web_crawler.Common.Text.{Bytes, bytes_eq, codes, no_tables}
use go_dark_web_crawler.Common.Select.{first_row, count_rows}
use go_dark_web_crawler.Auth.SecondFactor.{Account}
use go_dark_web_crawler.Auth.Passwords.{
  hashed, hash_password, phc_string, check_password_hash, needs_rehash,
}
use go_dark_web_crawler.Auth.Passwords.RoundTrip.{hash_password-checks}
use go_dark_web_crawler.Auth.Tokens.{issued_claims, generate_token, validate_token}
use go_dark_web_crawler.Auth.Tokens.Lifetime.{issued_token-validate}
use go_dark_web_crawler.Auth.Users.{
  User, Users, done, refused, token_not_valid, opaque_token_hash, has_id, may_reset, reset_password,
  get_user_auth_info, request_account_deletion, cancel_account_deletion, is_due,
}
use go_dark_web_crawler.Auth.Users.OneTime.{reset_password-once}
use go_dark_web_crawler.Auth.Users.Deletion.{request_all, IsScheduledFor, deletion_clock}
use go_dark_web_crawler.Auth.Audit.{AuditRow}
use go_dark_web_crawler.Api.Login.{login_fail}
use go_dark_web_crawler.Tests.Libraries.{jwt, jwt-IsJwt, kdf, kdf-IsKdf}

abbrev pub password : Bytes
password = codes "correct horse"

hash_password-checks_example :
    (hash : Bytes) × ((hash_password kdf password (some (codes "s")) ≡ hashed hash)
      × ((needs_rehash kdf hash ≡ false)
          × ((offered : Bytes)
              → check_password_hash kdf offered hash ≡ (
                  leb (length offered) 1024
                  && bytes_eq
                      (kdf.id_key offered (codes "s") 3 65536 4 32)
                      (kdf.id_key password (codes "s") 3 65536 4 32)))))
hash_password-checks_example =
    hash_password-checks kdf password (codes "s") kdf-IsKdf (omega arith) refl

abbrev pub secret : Bytes
secret = codes "k"

issued_token-validate_example :
    (60_000_000 < 14_400_000_000
      → validate_token jwt secret 60_000_000 (generate_token jwt secret 0 1 2 (codes "s"))
        ≡ some (issued_claims jwt 0 1 2 (codes "s")))
    × (14_430_000_000 ≤ 60_000_000
        → validate_token jwt secret 60_000_000 (generate_token jwt secret 0 1 2 (codes "s")) ≡ none)
issued_token-validate_example =
    issued_token-validate jwt secret 0 60_000_000 1 2 (codes "s") jwt-IsJwt (omega arith)
      (omega arith)

abbrev no_second : Account
no_second = record {
  totp_secret = none;
  totp_enabled = false;
  totp_confirmed = false;
  totp_last_step = 0;
  recovery_codes = [];
}

abbrev pub same_text : Bytes → Bytes
same_text s = s

abbrev pub reset_link : Bytes
reset_link = codes "0123456789abcdef"

-- A verified administrator, who has asked for a reset link.
abbrev pub admin : User
admin = record {
  id = 1;
  email = codes "a@b";
  password_hash = phc_string kdf (codes "s") (kdf.id_key password (codes "s") 3 65536 4 32);
  role = codes "admin";
  is_verified = true;
  verification_token = none;
  verification_expires_at = none;
  reset_token = some (opaque_token_hash same_text reset_link);
  reset_expires_at = some 100;
  token_version = 2;
  second = no_second;
  retention_days = 0;
  store_content = true;
  deletion_requested_at = none;
  deletion_scheduled_for = none;
}

abbrev pub users : Users
users = record { rows = admin ∷ []; next_id = 2 }

reset_done : (reset_password no_tables same_text users 50 reset_link (codes "h")).1 ≡ done tt
unfolding reset_password count_rows bytes_eq opaque_token_hash go_dark_web_crawler.Common.Hex.hex
reset_done = refl

reset_password-once_example :
    (0 < count_rows (may_reset no_tables same_text 50 reset_link) users.rows)
    × (((reset_password no_tables same_text
            (reset_password no_tables same_text users 50 reset_link (codes "h")).0
            60
            reset_link
            (codes "i")).1
          ≡ refused token_not_valid)
        × ((u : User)
            → first_row (has_id u.id) users.rows ≡ some u
            → may_reset no_tables same_text 50 reset_link u ≡ true
            → get_user_auth_info
                (reset_password no_tables same_text users 50 reset_link (codes "h")).0
                u.id
              ≡ some (u.email, (u.role, u.token_version + 1))))
reset_password-once_example =
    reset_password-once no_tables same_text users 50 60 reset_link (codes "h") (codes "i")
      (omega arith) reset_done

admin_found : first_row (has_id 1) users.rows ≡ some admin
unfolding first_row
admin_found = refl

abbrev asks_again : Users
asks_again = request_all (request_account_deletion users 50 1 7).0 1 ((60, 0) ∷ (70, 9) ∷ [])

deletion_clock_example :
    IsScheduledFor asks_again 1 7_000_050
    × ((v : User) × ((first_row (has_id 1) (cancel_account_deletion asks_again 1).0.rows ≡ some v)
          × ((later : ℕ) → is_due later v ≡ false)))
deletion_clock_example = deletion_clock users 50 1 7 admin ((60, 0) ∷ (70, 9) ∷ []) admin_found refl

abbrev failed : AuditRow
failed = record { event = login_fail; email = codes "x"; ip = []; created_at = 50 }
