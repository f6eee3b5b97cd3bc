-- ===== src/Api/Gate/Admitted.antt =====
-- Who signs in can use the account.
use go_dark_web_crawler.Common.{
  ℕ, ◌+◌, ◌*◌, ◌≤◌, ◌<◌, ◌≡◌, ◌∙◌, refl, ap, Bool, true, false, none, some, [], ◌++◌, arith, ◌==◌,
  if◌then◌else◌,
}
use go_dark_web_crawler.Common.Text.{Bytes, bytes_eq, codes, has_prefix}
use go_dark_web_crawler.Common.Select.{first_row}
use go_dark_web_crawler.Auth.Sessions.{session_active}
use go_dark_web_crawler.Auth.Tokens.{pos, Claims, issued_claims, generate_token, validate_token}
use go_dark_web_crawler.Auth.Tokens.Lifetime.{IsJwt, issued_token-validate}
use go_dark_web_crawler.Auth.Users.{User, has_id, get_user_by_email, get_user_auth_info}
use go_dark_web_crawler.Api.Login.{
  Server, Accounts, Visit, LoginRequest, signed_in, with_defaults, handle_login,
}
use go_dark_web_crawler.Api.Login.SignedIn.{login-IsProved}
use go_dark_web_crawler.Api.Login.Kept.{handle_login-IsSame}
use go_dark_web_crawler.Api.Gate.{
  Request, from_header, Context, Passage, reaches, credential, jwt_middleware, csrf_protect,
  check_session, same_version, load_user, load_number, front, user_route,
}
use go_dark_web_crawler.Api.Gate.Authentic.{first_context, user_route-first}

-- A request that carries a token in its header.
abbrev pub bearer : Bytes → Bytes → Request
bearer method token = record {
  method = method;
  authorization = codes "Bearer " ++ token;
  session_cookie = none;
  csrf_cookie = none;
  csrf_header = [];
}

bearer-credential :
    (method token : Bytes)
    → bytes_eq token [] ≡ false
    → credential (bearer method token) ≡ some (token, from_header)
unfolding credential has_prefix
bearer-credential method token h = rw h refl

same_branches : (b : Bool) (p : Passage) → (if b then p else p) ≡ p
same_branches b p = ground arith

bearer-front :
    (s : Server) (now : ℕ) (method token : Bytes) (claims : Claims)
    → bytes_eq token [] ≡ false
    → validate_token s.jwt s.secret now token ≡ some claims
    → front s now (bearer method token) ≡ reaches (first_context claims from_header)
unfolding front jwt_middleware csrf_protect
bearer-front s now method token claims h valid =
    rw (bearer-credential method token h, valid, front) (same_branches _ _)

load-current :
    (a : Accounts) (now : ℕ) (c : Context) (claims : Claims) (user version : ℕ) (email role : Bytes)
    → 0 < user
    → get_user_auth_info a.users user ≡ some (email, (role, version))
    → same_version claims.token_version version ≡ true
    → bytes_eq claims.session_id [] ≡ false
    → session_active a.sessions.rows now user claims.session_id ≡ true
    → (load_number a now c claims (pos user)).1
      ≡ reaches (record c { db_role = some (role, email) })
unfolding load_number load_user check_session
load-current a now c claims user version email role positive info same named active =
    let not_zero : (user == 0) ≡ false = ground arith in
    rw not_zero (rw (info, load_user) (rw same (rw (named, active, check_session) refl)))

-- Each row that an address finds is found by its number too, which is above 0: what the keys of `users` give.
abbrev pub IsKeyed : Server → Accounts → Bytes → Type 0
IsKeyed s a email =
    (u : User)
    → get_user_by_email s.unicode s.sha256 a.users email ≡ some u
    → (first_row (has_id u.id) a.users.rows ≡ some u) × (0 < u.id)

admitted :
    (s : Server) (a after : Accounts) (v : Visit) (u : User) (method token : Bytes) (later : ℕ)
    → IsJwt s.jwt
    → first_row (has_id u.id) a.users.rows ≡ some u
    → 0 < u.id
    → get_user_auth_info after.users u.id ≡ get_user_auth_info a.users u.id
    → token ≡ generate_token s.jwt s.secret v.now u.id u.token_version v.fresh_session
    → session_active after.sessions.rows later u.id v.fresh_session ≡ true
    → bytes_eq token [] ≡ false
    → bytes_eq v.fresh_session [] ≡ false
    → v.now ≤ later
    → later < v.now + 4 * 3600 * 1_000_000
    → (user_route s after later (bearer method token)).1
      ≡ reaches (record {
        credentials =
            some (issued_claims s.jwt v.now u.id u.token_version v.fresh_session, from_header);
        db_role = some (u.role, u.email);
      })
unfolding get_user_auth_info issued_claims
admitted s a after v u method token later lib found positive kept is active filled named h k =
    let claims = issued_claims s.jwt v.now u.id u.token_version v.fresh_session in
    let valid : validate_token s.jwt s.secret later token ≡ some claims =
      ap (validate_token s.jwt s.secret later) is
      ∙ (issued_token-validate s.jwt s.secret v.now later u.id u.token_version v.fresh_session lib
            positive h).0
          k in
    let info : get_user_auth_info after.users u.id ≡ some (u.email, (u.role, u.token_version)) =
      kept ∙ rw (found, get_user_auth_info) refl in
    ap (λ x. x.1)
      (user_route-first s after later (bearer method token) claims from_header
        (bearer-front s later method token claims filled valid))
    ∙ load-current after later (first_context claims from_header) claims u.id u.token_version
        u.email u.role positive info (ground arith) named active

same_answer :
    (s : Server) (v : Visit) (u : User) (role email : Bytes)
    → role ≡ u.role
    → email ≡ u.email
    → let claims = issued_claims s.jwt v.now u.id u.token_version v.fresh_session in
      reaches
        (record { credentials = some (claims, from_header); db_role = some (u.role, u.email) })
      ≡ reaches (record { credentials = some (claims, from_header); db_role = some (role, email) })
same_answer s v u role email same_role same_email = rw (same_role, same_email) refl

-- Whoever is granted a login can use the account at once and for four hours: with the token of the answer in
-- the header, a request of any method, on the tables as the login leaves them, reaches the handlers for
-- accounts, with the role and the address of the answer.
pub login-admitted :
    (s : Server) (a : Accounts) (v : Visit) (raw : LoginRequest)
    (mode token role email method : Bytes) (later : ℕ)
    → IsJwt s.jwt
    → IsKeyed s a (with_defaults s raw).email
    → (handle_login s a v (some raw)).1 ≡ signed_in mode token role email
    → bytes_eq token [] ≡ false
    → bytes_eq v.fresh_session [] ≡ false
    → v.now ≤ later
    → later < v.now + 4 * 3600 * 1_000_000
    → (claims : Claims) × ((user_route s
          (handle_login s a v (some raw)).0
          later
          (bearer method token)).1
        ≡ reaches
            (record { credentials = some (claims, from_header); db_role = some (role, email) }))
login-admitted s a v raw mode token role email method later lib keyed granted filled named h k =
    let (_, (_, (u, (found, (_, (is, (its_role, (its_email, active)))))))) =
      login-IsProved s a v raw mode token role email granted in
    let (row, positive) = keyed u found in
    (
      issued_claims s.jwt v.now u.id u.token_version v.fresh_session,
      admitted s a (handle_login s a v (some raw)).0 v u method token later lib row positive
            (handle_login-IsSame s a v (some raw) u.id) is (active later k) filled named h k
          ∙ same_answer s v u role email its_role its_email,
    )
