-- ===== src/Api/Login/Kept.antt =====
-- A login changes no address, no role and no token version.
use go_dark_web_crawler.Common.{
  ℕ, ◌+◌, ◌/◌, ◌≡◌, ◌⊎◌, ◌∙◌, refl, ap, Bool, not, ◌&&◌, ◌||◌, Option, none, some, [], leb,
  Bool-cases, Option-cases, inl, inr, ◌==◌,
}
use go_dark_web_crawler.Common.Text.{Bytes, bytes_eq, codes}
use go_dark_web_crawler.Common.Select.{update_rows, first_row, first_row-update_rows}
use go_dark_web_crawler.Auth.SecondFactor.{Account, get_totp_state, verify_second_factor}
use go_dark_web_crawler.Auth.Sessions.{create_session}
use go_dark_web_crawler.Auth.Passwords.{
  HashError, Hashed, hashed, unhashed, hash_password, check_password_hash, needs_rehash,
}
use go_dark_web_crawler.Auth.Tokens.{token_ttl}
use go_dark_web_crawler.Auth.Users.{
  User, Users, has_id, get_user_by_email, get_user_auth_info, upgrade_password_hash,
}
use go_dark_web_crawler.Api.Login.{
  Server, Accounts, Visit, LoginRequest, login_fail, record_event, count_events, rehashed, sign_in,
  set_second, second_step, password_step, lockout_step, with_defaults, handle_login,
}

-- What the middleware reads of an account.
abbrev pub IsSame : Users → Users → Type 0
IsSame t t' = (user : ℕ) → get_user_auth_info t' user ≡ get_user_auth_info t user

update_rows-IsSame :
    (t : Users) (p : User → Bool) (f : User → User)
    → ((u : User)
        → ((f u).id ≡ u.id)
          × (((f u).email ≡ u.email)
              × (((f u).role ≡ u.role) × ((f u).token_version ≡ u.token_version))))
    → IsSame t (record t { rows = update_rows p f t.rows })
unfolding get_user_auth_info
update_rows-IsSame t p f k user =
    rw
      (
        get_user_auth_info,
        first_row-update_rows (has_id user) p f t.rows (λ r. ap (λ x. x == user) (k r).0),
      )
      (elim (Option-cases (first_row (has_id user) t.rows)) [
        | inl e ↦ rw e (rw (get_user_auth_info, e) refl)
        | inr (u, e) ↦ rw e (
            rw (get_user_auth_info, e)
              (elim (Bool-cases (p u)) [
                | inl g ↦ rw (g, (k u).1.0, (k u).1.1.0, (k u).1.1.1) refl
                | inr g ↦ rw g refl
              ]))
      ])

Hashed-cases :
    (h : Hashed) → ((x : HashError) × (h ≡ unhashed x)) ⊎ ((new : Bytes) × (h ≡ hashed new))
Hashed-cases (unhashed x) = inl (x, refl)
Hashed-cases (hashed new) = inr (new, refl)

upgraded : (t : Users) (id : ℕ) (old new : Bytes) → IsSame t (upgrade_password_hash t id old new)
unfolding upgrade_password_hash
upgraded t id old new =
    update_rows-IsSame t (λ u. has_id id u && bytes_eq u.password_hash old)
      (λ u. record u { password_hash = new }) (λ u. (refl, (refl, (refl, refl))))

set_second-IsSame : (t : Users) (id : ℕ) (second : Account) → IsSame t (set_second t id second)
set_second-IsSame t id second =
    update_rows-IsSame t (has_id id) (λ u. record u { second = second })
      (λ u. (refl, (refl, (refl, refl))))

rehashed-IsSame :
    (s : Server) (t : Users) (u : User) (password : Bytes) (salt : Option Bytes)
    → IsSame t (rehashed s t u password salt)
unfolding rehashed
rehashed-IsSame s t u password salt user = elim (Bool-cases (needs_rehash s.kdf u.password_hash)) [
  | inr e ↦ rw (e, rehashed) refl
  | inl e ↦ elim (Hashed-cases (hash_password s.kdf password salt)) [
    | inl (x, f) ↦ rw (e, f, rehashed) refl
    | inr (new, f) ↦ rw (e, f, rehashed) (upgraded t u.id u.password_hash new user)
  ]
]

module _ (s : Server) where
  sign_in-IsSame :
      (a : Accounts) (v : Visit) (r : LoginRequest) (u : User)
      → IsSame a.users (sign_in s a v r u).0.users
  unfolding sign_in record_event
  sign_in-IsSame a v r u user =
      elim (Option-cases
        (create_session a.sessions v.now u.id v.fresh_session v.device (v.now + token_ttl)).1) [
          | inl e ↦ rw (e, sign_in) (rehashed-IsSame s a.users u r.password v.salt user)
          | inr (n, e) ↦ rw (e, sign_in) (rehashed-IsSame s a.users u r.password v.salt user)
        ]

  second_step-IsSame :
      (a : Accounts) (v : Visit) (r : LoginRequest) (u : User)
      → IsSame a.users (second_step s a v r u).0.users
  unfolding second_step record_event
  second_step-IsSame a v r u user = elim (Bool-cases (get_totp_state u.second).state_enabled) [
    | inr e ↦ rw (e, second_step) (sign_in-IsSame a v r u user)
    | inl e ↦ elim (Bool-cases (bytes_eq r.code [])) [
      | inl f ↦ rw (e, f, second_step) refl
      | inr f ↦
          let (second, passed) =
            verify_second_factor s.crypto s.sha256 u.second (get_totp_state u.second).state_secret
              r.code (v.now / 1_000_000) in
          let after : Accounts = record a { users = set_second a.users u.id second } in
          let set = set_second-IsSame a.users u.id second user in
          elim (Bool-cases passed) [
            | inl g ↦ rw (e, f, second_step) (rw g (sign_in-IsSame after v r u user ∙ set))
            | inr g ↦ rw (e, f, second_step) (rw g set)
          ]
    ]
  ]

  password_step-IsSame :
      (a : Accounts) (v : Visit) (r : LoginRequest) → IsSame a.users (password_step s a v r).0.users
  unfolding password_step record_event
  password_step-IsSame a v r user =
      elim (Option-cases (get_user_by_email s.unicode s.sha256 a.users r.email)) [
        | inl e ↦ rw (e, password_step) refl
        | inr (u, e) ↦ elim (Bool-cases (check_password_hash s.kdf r.password u.password_hash)) [
          | inr f ↦ rw (e, f, password_step) refl
          | inl f ↦ elim (Bool-cases u.is_verified) [
            | inr g ↦ rw (e, f, password_step) (simp g refl)
            | inl g ↦ rw (e, f, password_step) (simp g (second_step-IsSame a v r u user))
          ]
        ]
      ]

  -- Whatever its answer, a login leaves the address, the role and the token version of every account.
  pub handle_login-IsSame :
      (a : Accounts) (v : Visit) (body : Option LoginRequest)
      → IsSame a.users (handle_login s a v body).0.users
  unfolding handle_login lockout_step record_event
  handle_login-IsSame a v none user = elim (Bool-cases v.allowed) [
    | inl e ↦ simp e refl
    | inr e ↦ simp e refl
  ]
  handle_login-IsSame a v (some raw) user = elim (Bool-cases v.allowed) [
    | inr e ↦ simp e refl
    | inl e ↦
        let r : LoginRequest = with_defaults s raw in
        elim (Bool-cases (bytes_eq r.email [] || bytes_eq r.password [])) [
          | inl f ↦ simp e (rw f refl)
          | inr f ↦
              elim (Bool-cases (
                not (bytes_eq r.mode (codes "cookie")) && not (bytes_eq r.mode (codes "bearer")))) [
                  | inl g ↦ simp e (rw f (rw g refl))
                  | inr g ↦
                      elim (Bool-cases
                        (v.counted && leb 5 (count_events s a v.now login_fail r.email 15))) [
                          | inl h ↦ simp e (rw f (rw g (rw (h, lockout_step) refl)))
                          | inr h ↦
                              simp e (
                                rw f
                                  (rw g (rw (h, lockout_step) (password_step-IsSame a v r user))))
                        ]
                ]
        ]
  ]
