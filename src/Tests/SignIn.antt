-- ===== src/Tests/SignIn.antt =====
-- Signing in, the routes behind it, and signing out.
use go_dark_web_crawler.Common.{
  ℕ, ◌+◌, ◌*◌, ◌≤◌, ◌<◌, ◌≡◌, ◌∙◌, refl, ap, subst, Bool, true, false, Option, none, some, List, [],
  ◌∷◌, arith,
}
use go_dark_web_crawler.Common.Text.{Bytes, bytes_eq, codes, no_tables}
use go_dark_web_crawler.Common.Select.{first_row, count_rows}
use go_dark_web_crawler.Auth.Totp.{Crypto}
use go_dark_web_crawler.Auth.Sessions.{Session, Sessions, has_token}
use go_dark_web_crawler.Auth.Sessions.Revocation.{Change, created, touched, change_all}
use go_dark_web_crawler.Auth.Tokens.{
  Claims, issued_claims, generate_token, validate_token, validate,
}
use go_dark_web_crawler.Auth.Users.{User, has_id, get_user_by_email}
use go_dark_web_crawler.Auth.Audit.{count_recent_auth_events}
use go_dark_web_crawler.Api.Login.{
  Server, Accounts, Visit, LoginRequest, signed_in, login_fail, count_events, with_defaults,
  handle_login, handle_logout,
}
use go_dark_web_crawler.Api.Login.Budget.{
  Traffic, Step, starting, finishing, purging, take_step, take_steps, IsRun, IsWithin, guess_budget,
}
use go_dark_web_crawler.Api.Login.SignedIn.{IsProved, IsOpened, login-IsProved}
use go_dark_web_crawler.Api.Gate.{
  Request, Source, from_header, Context, halted, reaches, credential, user_route, admin_route,
}
use go_dark_web_crawler.Api.Gate.Authentic.{IsAuthentic, IsCurrent}
use go_dark_web_crawler.Api.Gate.Entitled.{IsAdministrator, admin_route-IsEntitled}
use go_dark_web_crawler.Api.Gate.Revoked.{logged_out-halts}
use go_dark_web_crawler.Api.Gate.Admitted.{IsKeyed, bearer, login-admitted}
use go_dark_web_crawler.Tests.Libraries.{jwt, jwt-IsJwt, kdf}
use go_dark_web_crawler.Tests.Accounts.{admin, users, password, secret, same_text}

abbrev crypto : Crypto
crypto = record { unicode = no_tables; hmac_sha1 = λ k m. []; base32_decode = λ s. some s }

abbrev pub server : Server
server = record {
  unicode = no_tables;
  kdf = kdf;
  crypto = crypto;
  jwt = jwt;
  sha256 = same_text;
  hmac_sha256 = λ k m. m;
  secret = secret;
}

abbrev pub accounts : Accounts
accounts = record { users = users; sessions = record { rows = []; next_id = 1 }; audit = [] }

abbrev pub visit : Visit
visit = record {
  now = 1_000_000;
  allowed = true;
  counted = true;
  ip = [];
  device = [];
  salt = some (codes "s");
  fresh_session = codes "t";
  fresh_token = [];
}

-- A typed address with spaces and capitals.
abbrev login : LoginRequest
login = record { email = codes " A@b"; password = password; mode = codes "bearer"; code = [] }

abbrev token : Bytes
token = generate_token jwt secret 1_000_000 1 2 (codes "t")

abbrev inside : Accounts
inside = (handle_login server accounts visit (some login)).0

granted :
    (handle_login server accounts visit (some login)).1
    ≡ signed_in (codes "bearer") token (codes "admin") (codes "a@b")
unfolding handle_login with_defaults go_dark_web_crawler.Api.Login.lockout_step count_events
    go_dark_web_crawler.Api.Login.audit_email_reference
    go_dark_web_crawler.Auth.Tokens.audit_reference go_dark_web_crawler.Auth.Users.normalize_email
    go_dark_web_crawler.Common.Hex.hex count_recent_auth_events count_rows
    go_dark_web_crawler.Api.Login.password_step get_user_by_email first_row
    go_dark_web_crawler.Auth.Passwords.check_password_hash
    go_dark_web_crawler.Auth.Passwords.check_argon2id
    go_dark_web_crawler.Auth.Passwords.parse_argon2id go_dark_web_crawler.Common.Text.split_on
    go_dark_web_crawler.Auth.Passwords.parse_parts go_dark_web_crawler.Auth.Passwords.parse_fields
    go_dark_web_crawler.Auth.Passwords.parse_digest bytes_eq
    go_dark_web_crawler.Common.Text.has_prefix go_dark_web_crawler.Auth.Passwords.phc_string
    go_dark_web_crawler.Api.Login.second_step go_dark_web_crawler.Auth.SecondFactor.get_totp_state
    go_dark_web_crawler.Api.Login.sign_in go_dark_web_crawler.Api.Login.rehashed
    go_dark_web_crawler.Auth.Passwords.needs_rehash go_dark_web_crawler.Auth.Sessions.create_session
    has_token go_dark_web_crawler.Api.Login.record_event
    go_dark_web_crawler.Auth.Audit.log_auth_event go_dark_web_crawler.Api.Login.audit_ip_reference
    generate_token issued_claims go_dark_web_crawler.Common.Text.to_lower
    go_dark_web_crawler.Common.Text.trim_space
granted = refl

login-IsProved_example :
    (visit.allowed ≡ true)
    × ((visit.counted ≡ true
          → count_events server accounts 1_000_000 login_fail (with_defaults server login).email 15
            < 5)
        × ((u : User) × ((get_user_by_email no_tables same_text users
                  (with_defaults server login).email
                ≡ some u)
              × (IsProved server visit (with_defaults server login) u
                  × IsOpened server visit u inside token (codes "admin") (codes "a@b")))))
login-IsProved_example =
    login-IsProved server accounts visit login (codes "bearer") token (codes "admin") (codes "a@b")
      granted

-- Two guesses side by side, with a purge of the account's history among them.
abbrev guess : ℕ → Step
guess now = starting (record visit { now = now }) (some (record login { password = codes "guess" }))

abbrev guesses : List Step
guesses = guess 1 ∷ guess 2 ∷ purging 3 (codes "a@b") ∷ finishing 4 1 ∷ finishing 5 0 ∷ []

abbrev quiet : Traffic
quiet = record { accounts = accounts; waiting = [] }

none-IsWithin : IsWithin server 2 quiet 0
unfolding count_recent_auth_events count_rows
none-IsWithin reference = omega arith

guesses-IsRun : IsRun server 2 quiet 0 guesses 6
unfolding take_step go_dark_web_crawler.Common.Select.take_out go_dark_web_crawler.Api.Login.admit
    with_defaults count_events go_dark_web_crawler.Api.Login.audit_email_reference
    go_dark_web_crawler.Auth.Tokens.audit_reference go_dark_web_crawler.Auth.Users.normalize_email
    go_dark_web_crawler.Common.Hex.hex count_recent_auth_events count_rows
    go_dark_web_crawler.Api.Login.password_step get_user_by_email first_row
    go_dark_web_crawler.Auth.Passwords.check_password_hash
    go_dark_web_crawler.Auth.Passwords.check_argon2id
    go_dark_web_crawler.Auth.Passwords.parse_argon2id go_dark_web_crawler.Common.Text.split_on
    go_dark_web_crawler.Auth.Passwords.parse_parts go_dark_web_crawler.Auth.Passwords.parse_fields
    go_dark_web_crawler.Auth.Passwords.parse_digest bytes_eq
    go_dark_web_crawler.Common.Text.has_prefix go_dark_web_crawler.Auth.Passwords.phc_string
    go_dark_web_crawler.Api.Login.record_event go_dark_web_crawler.Auth.Audit.log_auth_event
    go_dark_web_crawler.Api.Login.audit_ip_reference go_dark_web_crawler.Common.Text.to_lower
    go_dark_web_crawler.Common.Text.trim_space go_dark_web_crawler.Auth.Audit.purge_auth_audit
    go_dark_web_crawler.Common.Select.delete_rows
guesses-IsRun = (
  omega arith,
  (
    refl,
    (
      omega arith,
      (
        omega arith,
        (
          refl,
          (
            omega arith,
            (
              omega arith,
              (
                tt,
                (
                  omega arith,
                  (
                    omega arith,
                    (tt, (omega arith, (omega arith, (tt, (omega arith, omega arith))))),
                  ),
                ),
              ),
            ),
          ),
        ),
      ),
    ),
  ),
)

guess_budget_example :
    count_recent_auth_events
      (take_steps server quiet guesses).accounts.audit
      6
      login_fail
      (codes "r")
      15
    ≤ 6
guess_budget_example =
    guess_budget server 2 quiet guesses 0 6 guesses-IsRun none-IsWithin (codes "r")

accounts-IsKeyed : IsKeyed server accounts (with_defaults server login).email
unfolding get_user_by_email first_row bytes_eq go_dark_web_crawler.Auth.Users.normalize_email
    with_defaults go_dark_web_crawler.Common.Text.to_lower
    go_dark_web_crawler.Common.Text.trim_space
accounts-IsKeyed u e =
    let same : admin ≡ u = cc e in
    subst (λ x. (first_row (has_id x.id) users.rows ≡ some x) × (0 < x.id)) same (refl, omega arith)

login-admitted_example :
    (claims : Claims) × ((user_route server inside 2_000_000 (bearer (codes "POST") token)).1
      ≡ reaches (record {
        credentials = some (claims, from_header);
        db_role = some (codes "admin", codes "a@b");
      }))
unfolding bytes_eq generate_token
login-admitted_example =
    login-admitted server accounts visit login (codes "bearer") token (codes "admin") (codes "a@b")
      (codes "POST") 2_000_000 jwt-IsJwt accounts-IsKeyed granted refl refl (omega arith)
      (omega arith)

abbrev admin_context : Context
admin_context = record {
  credentials = some (issued_claims jwt 1_000_000 1 2 (codes "t"), from_header);
  db_role = some (codes "admin", codes "a@b");
}

reached :
    (admin_route server false inside 2_000_000 (bearer (codes "POST") token)).1
    ≡ reaches admin_context
unfolding handle_login with_defaults go_dark_web_crawler.Api.Login.lockout_step count_events
    go_dark_web_crawler.Api.Login.audit_email_reference
    go_dark_web_crawler.Auth.Tokens.audit_reference go_dark_web_crawler.Auth.Users.normalize_email
    go_dark_web_crawler.Common.Hex.hex count_recent_auth_events count_rows
    go_dark_web_crawler.Api.Login.password_step get_user_by_email first_row
    go_dark_web_crawler.Auth.Passwords.check_password_hash
    go_dark_web_crawler.Auth.Passwords.check_argon2id
    go_dark_web_crawler.Auth.Passwords.parse_argon2id go_dark_web_crawler.Common.Text.split_on
    go_dark_web_crawler.Auth.Passwords.parse_parts go_dark_web_crawler.Auth.Passwords.parse_fields
    go_dark_web_crawler.Auth.Passwords.parse_digest bytes_eq
    go_dark_web_crawler.Common.Text.has_prefix go_dark_web_crawler.Auth.Passwords.phc_string
    go_dark_web_crawler.Api.Login.second_step go_dark_web_crawler.Auth.SecondFactor.get_totp_state
    go_dark_web_crawler.Api.Login.sign_in go_dark_web_crawler.Api.Login.rehashed
    go_dark_web_crawler.Auth.Passwords.needs_rehash go_dark_web_crawler.Auth.Sessions.create_session
    has_token go_dark_web_crawler.Api.Login.record_event
    go_dark_web_crawler.Auth.Audit.log_auth_event go_dark_web_crawler.Api.Login.audit_ip_reference
    generate_token issued_claims go_dark_web_crawler.Common.Text.to_lower
    go_dark_web_crawler.Common.Text.trim_space validate go_dark_web_crawler.Auth.Tokens.is_positive
    go_dark_web_crawler.Auth.Tokens.is_negative go_dark_web_crawler.Auth.Tokens.lives_too_long
    go_dark_web_crawler.Auth.Tokens.key_for validate_token credential
    go_dark_web_crawler.Api.Gate.jwt_middleware go_dark_web_crawler.Api.Gate.csrf_protect
    go_dark_web_crawler.Api.Gate.require_auth go_dark_web_crawler.Api.Gate.get_user_id
    go_dark_web_crawler.Api.Gate.check_session go_dark_web_crawler.Api.Gate.load_user
    go_dark_web_crawler.Api.Gate.load_number go_dark_web_crawler.Api.Gate.load_db_role
    go_dark_web_crawler.Api.Gate.is_admin_role go_dark_web_crawler.Api.Gate.is_zero
    go_dark_web_crawler.Api.Gate.require_admin_db go_dark_web_crawler.Api.Gate.front user_route
    admin_route go_dark_web_crawler.Auth.Users.get_user_auth_info
    go_dark_web_crawler.Auth.Sessions.session_active go_dark_web_crawler.Auth.Sessions.touch_session
reached = refl

admin_route-IsEntitled_example :
    (claims : Claims) × ((source : Source) × (IsAuthentic server 2_000_000
          (bearer (codes "POST") token)
          claims
          source
        × ((user : ℕ) × ((u : User) × (IsCurrent inside 2_000_000 claims user u
                × IsAdministrator false u)))))
admin_route-IsEntitled_example =
    admin_route-IsEntitled server false inside 2_000_000 (bearer (codes "POST") token) admin_context
      reached

abbrev changes : List (ℕ × Change)
changes = (4_000_000, created 1 (codes "u") [] 9_000_000) ∷ (5_000_000, touched (codes "t") 1) ∷ []

abbrev afterwards : Accounts
afterwards = record inside {
  sessions = change_all (handle_logout server inside 3_000_000 (codes "t")).sessions changes;
}

stands : has_token (codes "t") inside.sessions.rows ≡ true
unfolding handle_login with_defaults go_dark_web_crawler.Api.Login.lockout_step count_events
    go_dark_web_crawler.Api.Login.audit_email_reference
    go_dark_web_crawler.Auth.Tokens.audit_reference go_dark_web_crawler.Auth.Users.normalize_email
    go_dark_web_crawler.Common.Hex.hex count_recent_auth_events count_rows
    go_dark_web_crawler.Api.Login.password_step get_user_by_email first_row
    go_dark_web_crawler.Auth.Passwords.check_password_hash
    go_dark_web_crawler.Auth.Passwords.check_argon2id
    go_dark_web_crawler.Auth.Passwords.parse_argon2id go_dark_web_crawler.Common.Text.split_on
    go_dark_web_crawler.Auth.Passwords.parse_parts go_dark_web_crawler.Auth.Passwords.parse_fields
    go_dark_web_crawler.Auth.Passwords.parse_digest bytes_eq
    go_dark_web_crawler.Common.Text.has_prefix go_dark_web_crawler.Auth.Passwords.phc_string
    go_dark_web_crawler.Api.Login.second_step go_dark_web_crawler.Auth.SecondFactor.get_totp_state
    go_dark_web_crawler.Api.Login.sign_in go_dark_web_crawler.Api.Login.rehashed
    go_dark_web_crawler.Auth.Passwords.needs_rehash go_dark_web_crawler.Auth.Sessions.create_session
    has_token go_dark_web_crawler.Api.Login.record_event
    go_dark_web_crawler.Auth.Audit.log_auth_event go_dark_web_crawler.Api.Login.audit_ip_reference
    generate_token issued_claims go_dark_web_crawler.Common.Text.to_lower
    go_dark_web_crawler.Common.Text.trim_space
stands = refl

sent : credential (bearer (codes "GET") token) ≡ some (token, from_header)
unfolding credential go_dark_web_crawler.Common.Text.has_prefix bytes_eq generate_token
sent = refl

valid :
    validate_token jwt secret 6_000_000 token ≡ some (issued_claims jwt 1_000_000 1 2 (codes "t"))
unfolding validate_token go_dark_web_crawler.Auth.Tokens.key_for bytes_eq generate_token
    issued_claims validate go_dark_web_crawler.Auth.Tokens.is_positive
    go_dark_web_crawler.Auth.Tokens.is_negative go_dark_web_crawler.Auth.Tokens.lives_too_long
valid = refl

passes : validate (issued_claims jwt 1_000_000 1 2 (codes "t")) ≡ none
unfolding validate go_dark_web_crawler.Auth.Tokens.is_positive issued_claims
    go_dark_web_crawler.Auth.Tokens.is_negative go_dark_web_crawler.Auth.Tokens.lives_too_long
passes = refl

its_session : (issued_claims jwt 1_000_000 1 2 (codes "t")).session_id ≡ codes "t"
unfolding issued_claims
its_session = refl

logged_out-halts_example :
    (status : ℕ) × ((clears : Bool) × ((user_route server afterwards 6_000_000
          (bearer (codes "GET") token)).1
        ≡ halted status clears))
unfolding bytes_eq
logged_out-halts_example =
    logged_out-halts server inside afterwards 3_000_000 6_000_000 (codes "t") changes
      (bearer (codes "GET") token) token from_header (issued_claims jwt 1_000_000 1 2 (codes "t"))
      refl stands refl sent valid passes its_session
