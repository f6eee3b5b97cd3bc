-- ===== src/Api/Gate.antt =====
-- Who reaches a handler: the middleware of backend/internal/api/middleware.go, `CSRFProtect` of session.go
-- and the two groups of router.go that need an account. A request is what the middleware reads of it. The
-- errors of the database are left out.
pub mod Authentic
pub mod Entitled
pub mod Revoked
pub mod Admitted
use go_dark_web_crawler.Common.{
  ℕ, ◌*◌, Bool, true, false, not, ◌&&◌, ◌||◌, Option, none, some, List, [], ◌∷◌, drop, ◌==◌,
  if◌then◌else◌,
}
use go_dark_web_crawler.Common.Text.{Bytes, bytes_eq, codes, has_prefix}
use go_dark_web_crawler.Common.Select.{first_row}
use go_dark_web_crawler.Auth.SecondFactor.{get_totp_state}
use go_dark_web_crawler.Auth.Sessions.{session_active, touch_session}
use go_dark_web_crawler.Auth.Tokens.{ℤ, pos, negsuc, Claims, validate_token}
use go_dark_web_crawler.Auth.Users.{Users, has_id, get_user_auth_info}
use go_dark_web_crawler.Api.Login.{Server, Accounts}

-- An absent header reads as the empty text.
pub record Request : Type 0 where
  pub method : Bytes
  pub authorization : Bytes
  pub session_cookie : Option Bytes
  pub csrf_cookie : Option Bytes
  pub csrf_header : Bytes

pub data Source : Type 0 where
  from_header from_cookie : Source

-- What the middleware leaves in the context: the claims and their source, and the live role and address.
pub record Context : Type 0 where
  pub credentials : Option (Claims × Source)
  pub db_role : Option (Bytes × Bytes)

-- An answer with a status, which may clear the cookies of the session; or the next handler.
pub data Passage : Type 0 where
  halted : ℕ → Bool → Passage
  reaches : Context → Passage

abbrev pub nonempty : Bytes → Source → Option (Bytes × Source)
nonempty token source = if bytes_eq token [] then none else some (token, source)

-- The token of a request: the header before the cookie.
unfoldable pub credential : Request → Option (Bytes × Source)
credential r =
    if has_prefix r.authorization (codes "Bearer ")
    then nonempty (drop 7 r.authorization) from_header
    else elim r.session_cookie [ none ↦ none | some c ↦ nonempty c from_cookie ]

abbrev pub is_cookie : Source → Bool
is_cookie from_header = false
is_cookie from_cookie = true

-- `JWTMiddleware`.
unfoldable pub jwt_middleware : Server → ℕ → Request → Passage
jwt_middleware s now r = elim (credential r) [
  | none ↦ reaches (record { credentials = none; db_role = none })
  | some (token, source) ↦ elim (validate_token s.jwt s.secret now token) [
    | none ↦ halted 401 (is_cookie source)
    | some claims ↦ reaches (record { credentials = some (claims, source); db_role = none })
  ]
]

abbrev pub is_safe : Bytes → Bool
is_safe method =
    bytes_eq method (codes "GET")
    || bytes_eq method (codes "HEAD")
    || bytes_eq method (codes "OPTIONS")

abbrev pub came_by_cookie : Context → Bool
came_by_cookie c = elim c.credentials [ none ↦ false | some (_, source) ↦ is_cookie source ]

-- `CSRFProtect`. The comparison in constant time is equality.
unfoldable pub csrf_protect : Request → Context → Passage
csrf_protect r c =
    if is_safe r.method
    then reaches c
    else (if not (came_by_cookie c) then reaches c else elim r.csrf_cookie [
      | none ↦ halted 403 false
      | some cookie ↦
          if bytes_eq cookie [] || not (bytes_eq r.csrf_header cookie)
          then halted 403 false
          else reaches c
    ])

-- `RequireAuth`.
unfoldable pub require_auth : Context → Passage
require_auth c = elim c.credentials [ none ↦ halted 401 false | some _ ↦ reaches c ]

-- `GetUserID`.
unfoldable pub get_user_id : Context → ℤ
get_user_id c = elim c.credentials [ none ↦ pos 0 | some (claims, _) ↦ claims.user_id ]

-- `sessionTouchInterval`.
abbrev pub session_touch_interval : ℕ
session_touch_interval = 5 * 60 * 1_000_000

abbrev pub same_version : ℤ → ℕ → Bool
same_version (pos n) m = n == m
same_version (negsuc n) m = false

-- The check of the session that the token names, and the context with the live role.
unfoldable pub check_session :
    Accounts → ℕ → Context → ℕ → Claims → Bytes × Bytes → Accounts × Passage
check_session a now c user claims live =
    let next = record c { db_role = some live } in
    if bytes_eq claims.session_id []
    then (a, reaches next)
    else (if session_active a.sessions.rows now user claims.session_id
        then (
          record a {
            sessions = touch_session a.sessions now claims.session_id session_touch_interval;
          },
          reaches next,
        )
        else (a, halted 401 true))

-- `LoadDBRole` for a user number and the claims that carry it.
unfoldable pub load_user : Accounts → ℕ → Context → ℕ → Claims → Accounts × Passage
load_user a now c user claims = elim (get_user_auth_info a.users user) [
  | none ↦ (a, halted 401 false)
  | some (email, (role, version)) ↦
      if same_version claims.token_version version
      then check_session a now c user claims (role, email)
      else (a, halted 401 false)
]

-- The number of the claims: none is 0, and one below zero is no account's.
unfoldable pub load_number : Accounts → ℕ → Context → Claims → ℤ → Accounts × Passage
load_number a now c claims (negsuc n) = (a, halted 401 false)
load_number a now c claims (pos user) =
    if user == 0 then (a, reaches c) else load_user a now c user claims

-- `LoadDBRole`.
unfoldable pub load_db_role : Accounts → ℕ → Context → Accounts × Passage
load_db_role a now c = elim c.credentials [
  | none ↦ (a, reaches c)
  | some (claims, _) ↦ load_number a now c claims claims.user_id
]

-- `IsAdmin`.
unfoldable pub is_admin_role : Context → Bool
is_admin_role c = elim c.db_role [ none ↦ false | some (role, _) ↦ bytes_eq role (codes "admin") ]

-- The second factor of an account; none where its row is gone, which the handler answers with 500.
unfoldable pub has_second_factor : Users → ℤ → Option Bool
has_second_factor t (negsuc n) = none
has_second_factor t (pos n) = elim (first_row (has_id n) t.rows) [
  | none ↦ none
  | some u ↦ some (get_totp_state u.second).state_enabled
]

unfoldable pub is_zero : ℤ → Bool
is_zero (pos n) = n == 0
is_zero (negsuc n) = false

-- `RequireAdminDB`.
unfoldable pub require_admin_db : Bool → Accounts → Context → Passage
require_admin_db require_mfa a c =
    if is_zero (get_user_id c)
    then halted 401 false
    else (if not (is_admin_role c)
        then halted 403 false
        else (if not require_mfa
            then reaches c
            else elim (has_second_factor a.users (get_user_id c)) [
              | none ↦ halted 500 false
              | some enabled ↦ if enabled then reaches c else halted 403 false
            ]))

-- The middleware before the groups: `JWTMiddleware`, then `CSRFProtect`.
unfoldable pub front : Server → ℕ → Request → Passage
front s now r = elim (jwt_middleware s now r) [
  | halted status clears ↦ halted status clears
  | reaches c ↦ csrf_protect r c
]

-- The group for any account: `RequireAuth`, then `LoadDBRole`.
unfoldable pub user_route : Server → Accounts → ℕ → Request → Accounts × Passage
user_route s a now r = elim (front s now r) [
  | halted status clears ↦ (a, halted status clears)
  | reaches c ↦ elim (require_auth c) [
    | halted status clears ↦ (a, halted status clears)
    | reaches d ↦ load_db_role a now d
  ]
]

-- The group for administrators: `RequireAdminDB` after these.
unfoldable pub admin_route : Server → Bool → Accounts → ℕ → Request → Accounts × Passage
admin_route s require_mfa a now r =
    let (after, passage) = user_route s a now r in
    elim passage [
      | halted status clears ↦ (after, halted status clears)
      | reaches c ↦ (after, require_admin_db require_mfa after c)
    ]
