-- ===== src/Api/Login.antt =====
-- Signing in and out: `handleLogin`, `handleLogout` and `handleLogoutAll` of
-- backend/internal/api/auth_handlers.go, with the references of audit.go. A request is what the handler
-- reads of it, after the JSON decoder; requests are served one after the other.
-- The check against a dummy hash, which only takes time, and the log are left out.
pub mod Guesses
pub mod Budget
pub mod SignedIn
pub mod Kept
use go_dark_web_crawler.Common.{
  ℕ, ◌+◌, ◌/◌, ◌⊎◌, inl, inr, Bool, true, false, not, ◌&&◌, ◌||◌, Option, none, some, List, [], ◌∷◌,
  ltb, leb, length, if◌then◌else◌,
}
use go_dark_web_crawler.Common.Text.{Bytes, bytes_eq, codes, Unicode}
use go_dark_web_crawler.Common.Select.{update_rows}
use go_dark_web_crawler.Auth.Totp.{Crypto}
use go_dark_web_crawler.Auth.SecondFactor.{Account, get_totp_state, verify_second_factor}
use go_dark_web_crawler.Auth.Sessions.{
  Sessions, create_session, revoke_session_by_token, revoke_all_sessions,
}
use go_dark_web_crawler.Auth.Passwords.{
  Kdf, hashed, unhashed, hash_password, check_password_hash, needs_rehash,
}
use go_dark_web_crawler.Auth.Tokens.{Jwt, token_ttl, generate_token, audit_reference}
use go_dark_web_crawler.Auth.Users.{
  User, Users, normalize_email, has_id, get_user_by_email, bump_token_version,
  upgrade_password_hash,
}
use go_dark_web_crawler.Auth.Audit.{AuditRow, log_auth_event, count_recent_auth_events}

-- The libraries and the secret of the process.
pub record Server : Type 0 where
  pub unicode : Unicode
  pub kdf : Kdf
  pub crypto : Crypto
  pub jwt : Jwt
  pub sha256 : Bytes → Bytes
  pub hmac_sha256 : Bytes → Bytes → Bytes
  pub secret : Bytes

-- The tables that the handlers work on.
pub record Accounts : Type 0 where
  pub users : Users
  pub sessions : Sessions
  pub audit : List AuditRow

-- What surrounds a request: its time, the answer of its rate limiter, whether the count of recent events
-- succeeds, the network address, the label of the
-- device, and what the random source gives for a salt, a session and a reset token.
pub record Visit : Type 0 where
  pub now : ℕ
  pub allowed : Bool
  pub counted : Bool
  pub ip : Bytes
  pub device : Bytes
  pub salt : Option Bytes
  pub fresh_session : Bytes
  pub fresh_token : Bytes

pub record LoginRequest : Type 0 where
  pub email : Bytes
  pub password : Bytes
  pub mode : Bytes
  pub code : Bytes

pub data LoginReply : Type 0 where
  too_many_requests invalid_data credentials_required bad_mode locked invalid_credentials
        not_verified code_required bad_code internal_error :
      LoginReply
  signed_in : Bytes → Bytes → Bytes → Bytes → LoginReply

abbrev pub login_fail : Bytes
login_fail = codes "login_fail"

abbrev pub set_second : Users → ℕ → Account → Users
set_second t user second = record t {
  rows = update_rows (has_id user) (λ u. record u { second = second }) t.rows;
}

module _ (s : Server) where
  -- `auditEmailReference` and `auditIPReference`.
  unfoldable pub audit_email_reference : Bytes → Bytes
  audit_email_reference email =
      audit_reference s.hmac_sha256 s.secret (codes "email") (normalize_email s.unicode email)

  unfoldable pub audit_ip_reference : Bytes → Bytes
  audit_ip_reference ip = audit_reference s.hmac_sha256 s.secret (codes "ip") ip

  -- `logAuthEvent`.
  unfoldable pub record_event : Accounts → Visit → Bytes → Bytes → Accounts
  record_event a v event email = record a {
    audit =
        log_auth_event a.audit v.now event (audit_email_reference email) (audit_ip_reference v.ip);
  }

  -- `countRecentAuthEvents`.
  unfoldable pub count_events : Accounts → ℕ → Bytes → Bytes → ℕ → ℕ
  count_events a now event email window =
      count_recent_auth_events a.audit now event (audit_email_reference email) window

  -- The rehash of a proved password.
  unfoldable pub rehashed : Users → User → Bytes → Option Bytes → Users
  rehashed t u password salt =
      if needs_rehash s.kdf u.password_hash
      then elim (hash_password s.kdf password salt) [
        | unhashed _ ↦ t
        | hashed new ↦ upgrade_password_hash t u.id u.password_hash new
      ]
      else t

  -- The end of `handleLogin`: a session and a token. An identifier that stands already is refused.
  unfoldable pub sign_in : Accounts → Visit → LoginRequest → User → Accounts × LoginReply
  sign_in a v r u =
      let users = rehashed a.users u r.password v.salt in
      let (sessions, created) =
        create_session a.sessions v.now u.id v.fresh_session v.device (v.now + token_ttl) in
      elim created [
        | none ↦ (record a { users = users }, internal_error)
        | some _ ↦ (
          record_event (record a { users = users; sessions = sessions }) v (codes "login_ok")
              r.email,
          signed_in (if bytes_eq r.mode (codes "bearer") then r.mode else codes "cookie")
              (generate_token s.jwt s.secret v.now u.id u.token_version v.fresh_session) u.role
              u.email,
        )
      ]

  -- The second factor, after the password.
  unfoldable pub second_step : Accounts → Visit → LoginRequest → User → Accounts × LoginReply
  second_step a v r u =
      let state = get_totp_state u.second in
      if not state.state_enabled
      then sign_in a v r u
      else (if bytes_eq r.code []
          then (a, code_required)
          else let (second, passed) =
              verify_second_factor s.crypto s.sha256 u.second state.state_secret r.code
                (v.now / 1_000_000) in
            let after = record a { users = set_second a.users u.id second } in
            if passed
            then sign_in after v r u
            else (record_event after v login_fail r.email, bad_code))

  -- The password, for an account that is not locked.
  unfoldable pub password_step : Accounts → Visit → LoginRequest → Accounts × LoginReply
  password_step a v r = elim (get_user_by_email s.unicode s.sha256 a.users r.email) [
    | none ↦ (record_event a v login_fail r.email, invalid_credentials)
    | some u ↦
        if not (check_password_hash s.kdf r.password u.password_hash)
        then (record_event a v login_fail r.email, invalid_credentials)
        else (if not u.is_verified
            then (record_event a v (codes "login_unverified") r.email, not_verified)
            else second_step a v r u)
  ]

  -- The lockout, for a request with a normalized address and a mode; a count that fails locks nobody out.
  unfoldable pub lockout_step : Accounts → Visit → LoginRequest → Accounts × LoginReply
  lockout_step a v r =
      if v.counted && leb 5 (count_events a v.now login_fail r.email 15)
      then (record_event a v (codes "login_locked") r.email, locked)
      else password_step a v r

  unfoldable pub with_defaults : LoginRequest → LoginRequest
  with_defaults r = record r {
    email = normalize_email s.unicode r.email;
    mode = if bytes_eq r.mode [] then codes "cookie" else r.mode;
  }

  -- `handleLogin`; none is a body that does not decode.
  unfoldable pub handle_login : Accounts → Visit → Option LoginRequest → Accounts × LoginReply
  handle_login a v body = if not v.allowed then (a, too_many_requests) else elim body [
    | none ↦ (a, invalid_data)
    | some raw ↦
        let r = with_defaults raw in
        if bytes_eq r.email [] || bytes_eq r.password []
        then (a, credentials_required)
        else (if not (bytes_eq r.mode (codes "cookie")) && not (bytes_eq r.mode (codes "bearer"))
            then (a, bad_mode)
            else lockout_step a v r)
  ]

  -- `handleLogin` up to the lockout: what it answers at once, or the request that goes on to its password.
  unfoldable pub admit :
      Accounts → Visit → Option LoginRequest → (Accounts × LoginReply) ⊎ LoginRequest
  admit a v body = if not v.allowed then inl (a, too_many_requests) else elim body [
    | none ↦ inl (a, invalid_data)
    | some raw ↦
        let r = with_defaults raw in
        if bytes_eq r.email [] || bytes_eq r.password []
        then inl (a, credentials_required)
        else (if not (bytes_eq r.mode (codes "cookie")) && not (bytes_eq r.mode (codes "bearer"))
            then inl (a, bad_mode)
            else (if v.counted && leb 5 (count_events a v.now login_fail r.email 15)
                then inl (record_event a v (codes "login_locked") r.email, locked)
                else inr r))
  ]

  -- `handleLogout`, for the session that the caller's token names; none of them is the empty text.
  unfoldable pub handle_logout : Accounts → ℕ → Bytes → Accounts
  handle_logout a now session =
      if bytes_eq session []
      then a
      else record a { sessions = revoke_session_by_token a.sessions now session }

  -- `handleLogoutAll`.
  unfoldable pub handle_logout_all : Accounts → ℕ → ℕ → Accounts
  handle_logout_all a now user = record a {
    users = bump_token_version a.users user;
    sessions = revoke_all_sessions a.sessions now user [];
  }
