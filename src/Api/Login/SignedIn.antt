-- ===== src/Api/Login/SignedIn.antt =====
-- What a granted login proves, and what it opens.
use go_dark_web_crawler.Common.{
  ℕ, ◌+◌, ◌/◌, ◌<◌, ◌≡◌, ◌∙◌, refl, sym, true, false, not, ◌&&◌, ◌||◌, some, List, [], ◌∷◌, ◌++◌,
  arith, leb, Bool-cases, Option-cases, inl, inr,
}
use go_dark_web_crawler.Common.Text.{Bytes, bytes_eq, bytes_eq_refl, codes}
use go_dark_web_crawler.Auth.SecondFactor.{Account, get_totp_state, verify_second_factor}
use go_dark_web_crawler.Auth.Sessions.{
  Session, Sessions, is_live, has_token, create_session, session_active,
}
use go_dark_web_crawler.Auth.Passwords.{check_password_hash}
use go_dark_web_crawler.Auth.Tokens.{token_ttl, generate_token}
use go_dark_web_crawler.Auth.Users.{User, get_user_by_email}
use go_dark_web_crawler.Api.Login.{
  Server, Accounts, Visit, LoginRequest, signed_in, login_fail, record_event, count_events, sign_in,
  set_second, second_step, password_step, lockout_step, with_defaults, handle_login,
}

session_active-append :
    (rows : List Session) (r : Session) (now user : ℕ) (token : Bytes)
    → is_live now user token r ≡ true
    → session_active (rows ++ r ∷ []) now user token ≡ true
unfolding session_active
session_active-append [] r now user token h = rw h refl
session_active-append (q ∷ rows) r now user token h =
    ground (arith, session_active-append rows r now user token h)

create_session-active :
    (t : Sessions) (now later user expires : ℕ) (token label : Bytes) (number : ℕ)
    → (create_session t now user token label expires).1 ≡ some number
    → later < expires
    → session_active (create_session t now user token label expires).0.rows later user token ≡ true
unfolding create_session
create_session-active t now later user expires token label number e h =
    elim (Bool-cases (has_token token t.rows)) [
      | inl f ↦ absurd (cc (rw f at e))
      | inr f ↦
          rw f (session_active-append t.rows _ later user token (rw bytes_eq_refl (ground arith)))
    ]

-- The proofs of identity that a login has given for an account.
abbrev pub IsProved : Server → Visit → LoginRequest → User → Type 0
IsProved s v r u =
    (check_password_hash s.kdf r.password u.password_hash ≡ true)
    × ((u.is_verified ≡ true)
        × (u.second.totp_enabled ≡ true
            → (verify_second_factor s.crypto s.sha256 u.second
                (get_totp_state u.second).state_secret r.code (v.now / 1_000_000)).1
              ≡ true))

-- What the answer and the table of sessions say of an account.
abbrev pub IsOpened : Server → Visit → User → Accounts → Bytes → Bytes → Bytes → Type 0
IsOpened s v u after token role email =
    (token ≡ generate_token s.jwt s.secret v.now u.id u.token_version v.fresh_session)
    × ((role ≡ u.role)
        × ((email ≡ u.email)
            × ((later : ℕ)
                → later < v.now + token_ttl
                → session_active after.sessions.rows later u.id v.fresh_session ≡ true)))

enabled_off : (a : Account) → (get_totp_state a).state_enabled ≡ false → a.totp_enabled ≡ false
unfolding get_totp_state
enabled_off a e = e

module _ (s : Server) (v : Visit) (r : LoginRequest) (u : User)
    (mode token role email : Bytes) where
  sign_in-IsOpened :
      (a : Accounts)
      → (sign_in s a v r u).1 ≡ signed_in mode token role email
      → IsOpened s v u (sign_in s a v r u).0 token role email
  unfolding sign_in record_event
  sign_in-IsOpened a e =
      elim (Option-cases
        (create_session a.sessions v.now u.id v.fresh_session v.device (v.now + token_ttl)).1) [
          | inl f ↦ absurd (cc (rw (f, sign_in) at e))
          | inr (number, f) ↦
              rw (f, sign_in)
                (
                  cc (rw (f, sign_in) at e),
                  (
                    cc (rw (f, sign_in) at e),
                    (
                      cc (rw (f, sign_in) at e),
                      λ later h.
                          create_session-active a.sessions v.now later u.id (v.now + token_ttl)
                            v.fresh_session v.device number f h,
                    ),
                  ),
                )
        ]

  second_step-IsOpened :
      (a : Accounts)
      → (second_step s a v r u).1 ≡ signed_in mode token role email
      → (u.second.totp_enabled ≡ true
          → (verify_second_factor s.crypto s.sha256 u.second
              (get_totp_state u.second).state_secret
              r.code
              (v.now / 1_000_000)).1
            ≡ true)
        × IsOpened s v u (second_step s a v r u).0 token role email
  unfolding second_step
  second_step-IsOpened a e = elim (Bool-cases (get_totp_state u.second).state_enabled) [
    | inr f ↦ (
      λ on. absurd (cc (sym on ∙ enabled_off u.second f)),
      rw (f, second_step) (sign_in-IsOpened a (rw (f, second_step) at e)),
    )
    | inl f ↦ elim (Bool-cases (bytes_eq r.code [])) [
      | inl g ↦ absurd (cc (rw (f, g, second_step) at e))
      | inr g ↦
          let (second, passed) =
            verify_second_factor s.crypto s.sha256 u.second (get_totp_state u.second).state_secret
              r.code (v.now / 1_000_000) in
          let after : Accounts = record a { users = set_second a.users u.id second } in
          elim (Bool-cases passed) [
            | inr h ↦ absurd (cc (rw h at (rw (f, g, second_step) at e)))
            | inl h ↦ (
              λ _. h,
              rw (f, g, second_step)
                  (rw h (sign_in-IsOpened after (rw h at (rw (f, g, second_step) at e)))),
            )
          ]
    ]
  ]

module _ (s : Server) (v : Visit) (r : LoginRequest) (mode token role email : Bytes) where
  password_step-IsOpened :
      (a : Accounts)
      → (password_step s a v r).1 ≡ signed_in mode token role email
      → (u : User) × ((get_user_by_email s.unicode s.sha256 a.users r.email ≡ some u)
          × (IsProved s v r u × IsOpened s v u (password_step s a v r).0 token role email))
  unfolding password_step
  password_step-IsOpened a e =
      elim (Option-cases (get_user_by_email s.unicode s.sha256 a.users r.email)) [
        | inl f ↦ absurd (cc (rw (f, password_step) at e))
        | inr (u, f) ↦ elim (Bool-cases (check_password_hash s.kdf r.password u.password_hash)) [
          | inr g ↦ absurd (cc (rw (f, g, password_step) at e))
          | inl g ↦ elim (Bool-cases u.is_verified) [
            | inr h ↦ absurd (cc (simp h at (rw (f, g, password_step) at e)))
            | inl h ↦
                let granted = simp h at (rw (f, g, password_step) at e) in
                let (second, opened) =
                  second_step-IsOpened s v r u mode token role email a granted in
                (u, (f, ((g, (h, second)), rw (f, g, password_step) (simp h opened))))
          ]
        ]
      ]

-- A login that was granted came from a request that its limiter let through, for an address with fewer than
-- five failures in the last 15 minutes, where they could be counted, and for an account with that address: the password fits its hash, it
-- is verified, and where it has a second factor the code has passed. The token is the one of this account,
-- its token version and a new session, which is active until the token expires.
pub login-IsProved :
    (s : Server) (a : Accounts) (v : Visit) (raw : LoginRequest) (mode token role email : Bytes)
    → (handle_login s a v (some raw)).1 ≡ signed_in mode token role email
    → let r = with_defaults s raw in
      (v.allowed ≡ true)
      × ((v.counted ≡ true → count_events s a v.now login_fail r.email 15 < 5)
          × ((u : User) × ((get_user_by_email s.unicode s.sha256 a.users r.email ≡ some u)
                × (IsProved s v r u
                    × IsOpened s v u (handle_login s a v (some raw)).0 token role email))))
unfolding handle_login lockout_step
login-IsProved s a v raw mode token role email e = elim (Bool-cases v.allowed) [
  | inr f ↦ absurd (cc (simp f at e))
  | inl f ↦
      let r : LoginRequest = with_defaults s raw in
      let e1 = simp f at e in
      elim (Bool-cases (bytes_eq r.email [] || bytes_eq r.password [])) [
        | inl g ↦ absurd (cc (rw g at e1))
        | inr g ↦
            elim (Bool-cases
              (not (bytes_eq r.mode (codes "cookie")) && not (bytes_eq r.mode (codes "bearer")))) [
                | inl h ↦ absurd (cc (rw h at (rw g at e1)))
                | inr h ↦
                    let e2 = rw h at (rw g at e1) in
                    elim (Bool-cases
                      (v.counted && leb 5 (count_events s a v.now login_fail r.email 15))) [
                        | inl k ↦ absurd (cc (rw (k, lockout_step) at e2))
                        | inr k ↦
                            let (u, (found, (proved, opened))) =
                              password_step-IsOpened s v r mode token role email a
                                (rw (k, lockout_step) at e2) in
                            (
                              f,
                              (
                                λ counts. ground arith,
                                (
                                  u,
                                  (
                                    found,
                                    (proved, simp f (rw g (rw h (rw (k, lockout_step) opened)))),
                                  ),
                                ),
                              ),
                            )
                      ]
              ]
      ]
]
