-- ===== src/Api/Login/Guesses.antt =====
-- How many failed logins an address can collect.
use go_dark_web_crawler.Common.{
  ℕ, ◌+◌, ◌/◌, ◌<◌, ◌≡◌, ◌⊎◌, refl, true, false, not, ◌&&◌, ◌||◌, Option, none, some, List, [], ◌∷◌,
  ◌++◌, arith, leb, Bool-cases, Option-cases, inl, inr,
}
use go_dark_web_crawler.Common.Text.{Bytes, bytes_eq, codes}
use go_dark_web_crawler.Common.Select.{count_rows, count_rows-append}
use go_dark_web_crawler.Auth.SecondFactor.{get_totp_state, verify_second_factor}
use go_dark_web_crawler.Auth.Sessions.{create_session}
use go_dark_web_crawler.Auth.Passwords.{check_password_hash}
use go_dark_web_crawler.Auth.Tokens.{token_ttl}
use go_dark_web_crawler.Auth.Users.{User, get_user_by_email}
use go_dark_web_crawler.Auth.Audit.{is_recent, AuditRow, log_auth_event, count_recent_auth_events}
use go_dark_web_crawler.Api.Login.{
  Server, Accounts, Visit, LoginRequest, login_fail, audit_email_reference, audit_ip_reference,
  record_event, count_events, sign_in, set_second, second_step, password_step, lockout_step,
  with_defaults, handle_login, rehashed, admit, LoginReply, too_many_requests, invalid_data,
  credentials_required, bad_mode, locked,
}

-- The failures of one reference in the last 15 minutes.
abbrev pub failures : List AuditRow → ℕ → Bytes → ℕ
failures rows now reference = count_recent_auth_events rows now login_fail reference 15

-- A step leaves the table as it is, or adds one row for a reference at its time.
abbrev pub IsLogged : ℕ → Bytes → List AuditRow → List AuditRow → Type 0
IsLogged now reference before after =
    (after ≡ before)
    ⊎ ((row : AuditRow) × ((after ≡ before ++ row ∷ [])
          × ((row.created_at ≡ now) × (row.email ≡ reference))))

locked_counts_none : bytes_eq (codes "login_locked") login_fail ≡ false
unfolding bytes_eq
locked_counts_none = refl

-- An event that is no failure leaves the failures of every reference as they are.
other_event :
    (before : List AuditRow) (row : AuditRow) (now : ℕ) (reference : Bytes)
    → bytes_eq row.event login_fail ≡ false
    → failures (before ++ row ∷ []) now reference ≡ failures before now reference
unfolding count_recent_auth_events count_rows
other_event before row now reference e =
    rw (count_rows-append (is_recent now login_fail reference 15) before (row ∷ []))
      (rw e (omega arith))

module _ (s : Server) where
  row_added :
      (a : Accounts) (v : Visit) (event email : Bytes)
      → IsLogged v.now
          (audit_email_reference s email)
          a.audit
          (record_event s a v event email).audit
  unfolding record_event log_auth_event
  row_added a v event email = inr (
    record {
      event = event;
      email = audit_email_reference s email;
      ip = audit_ip_reference s v.ip;
      created_at = v.now;
    },
    (refl, (refl, refl)),
  )

  sign_in-IsLogged :
      (a : Accounts) (v : Visit) (r : LoginRequest) (u : User)
      → IsLogged v.now (audit_email_reference s r.email) a.audit (sign_in s a v r u).0.audit
  unfolding sign_in
  sign_in-IsLogged a v r u =
      elim (Option-cases
        (create_session a.sessions v.now u.id v.fresh_session v.device (v.now + token_ttl)).1) [
          | inl e ↦ rw (e, sign_in) (inl refl)
          | inr (x, e) ↦
              rw (e, sign_in)
                (row_added
                  (record a {
                    users = rehashed s a.users u r.password v.salt;
                    sessions =
                        (create_session a.sessions v.now u.id v.fresh_session v.device
                          (v.now + token_ttl)).0;
                  })
                  v (codes "login_ok") r.email)
        ]

  second_step-IsLogged :
      (a : Accounts) (v : Visit) (r : LoginRequest) (u : User)
      → IsLogged v.now (audit_email_reference s r.email) a.audit (second_step s a v r u).0.audit
  unfolding second_step
  second_step-IsLogged a v r u = elim (Bool-cases (get_totp_state u.second).state_enabled) [
    | inr e ↦ rw (e, second_step) (sign_in-IsLogged a v r u)
    | inl e ↦ elim (Bool-cases (bytes_eq r.code [])) [
      | inl f ↦ rw (e, f, second_step) (inl refl)
      | inr f ↦
          let (second, passed) =
            verify_second_factor s.crypto s.sha256 u.second (get_totp_state u.second).state_secret
              r.code (v.now / 1_000_000) in
          let after : Accounts = record a { users = set_second a.users u.id second } in
          elim (Bool-cases passed) [
            | inl g ↦ rw (e, f, second_step) (rw g (sign_in-IsLogged after v r u))
            | inr g ↦ rw (e, f, second_step) (rw g (row_added after v login_fail r.email))
          ]
    ]
  ]

  -- From the password on, a request adds at most one event, for its own address.
  pub password_step-IsLogged :
      (a : Accounts) (v : Visit) (r : LoginRequest)
      → IsLogged v.now (audit_email_reference s r.email) a.audit (password_step s a v r).0.audit
  unfolding password_step
  password_step-IsLogged a v r =
      elim (Option-cases (get_user_by_email s.unicode s.sha256 a.users r.email)) [
        | inl e ↦ rw (e, password_step) (row_added a v login_fail r.email)
        | inr (u, e) ↦ elim (Bool-cases (check_password_hash s.kdf r.password u.password_hash)) [
          | inr f ↦ rw (e, f, password_step) (row_added a v login_fail r.email)
          | inl f ↦ elim (Bool-cases u.is_verified) [
            | inr g ↦ rw (e, f, g, password_step) (row_added a v (codes "login_unverified") r.email)
            | inl g ↦ rw (e, f, password_step) (simp g (second_step-IsLogged a v r u))
          ]
        ]
      ]

  -- What is answered up to the lockout is no failure; what goes on was counted below five.
  pub admit-counts :
      (a : Accounts) (v : Visit) (body : Option LoginRequest)
      → ((x : Accounts × LoginReply) × ((admit s a v body ≡ inl x)
            × ((now : ℕ) (reference : Bytes)
                → failures x.0.audit now reference ≡ failures a.audit now reference)))
        ⊎ ((r : LoginRequest) × ((admit s a v body ≡ inr r)
              × (v.counted ≡ true → failures a.audit v.now (audit_email_reference s r.email) < 5)))
  unfolding admit count_events record_event log_auth_event
  admit-counts a v none = elim (Bool-cases v.allowed) [
    | inl e ↦ inl ((a, invalid_data), (simp e refl, λ now reference. refl))
    | inr e ↦ inl ((a, too_many_requests), (simp e refl, λ now reference. refl))
  ]
  admit-counts a v (some raw) = elim (Bool-cases v.allowed) [
    | inr e ↦ inl ((a, too_many_requests), (simp e refl, λ now reference. refl))
    | inl e ↦
        let r : LoginRequest = with_defaults s raw in
        elim (Bool-cases (bytes_eq r.email [] || bytes_eq r.password [])) [
          | inl f ↦ inl ((a, credentials_required), (simp e (rw f refl), λ now reference. refl))
          | inr f ↦
              elim (Bool-cases (
                not (bytes_eq r.mode (codes "cookie")) && not (bytes_eq r.mode (codes "bearer")))) [
                  | inl g ↦ inl ((a, bad_mode), (simp e (rw f (rw g refl)), λ now reference. refl))
                  | inr g ↦
                      elim (Bool-cases
                        (v.counted && leb 5 (count_events s a v.now login_fail r.email 15))) [
                          | inl h ↦ inl (
                            (record_event s a v (codes "login_locked") r.email, locked),
                            (
                              simp e (rw f (rw g (rw h refl))),
                              λ now reference.
                                  other_event a.audit _ now reference locked_counts_none,
                            ),
                          )
                          | inr h ↦
                              inr (r, (simp e (rw f (rw g (rw h refl))), λ counts. ground arith))
                        ]
                ]
        ]
  ]

  -- The handler is these two parts, one after the other.
  pub handle_login-admit :
      (a : Accounts) (v : Visit) (body : Option LoginRequest)
      → handle_login s a v body
        ≡ elim (admit s a v body) [ inl x ↦ x | inr r ↦ password_step s a v r ]
  unfolding handle_login admit lockout_step
  handle_login-admit a v none = elim (Bool-cases v.allowed) [
    | inl e ↦ simp e refl
    | inr e ↦ simp e refl
  ]
  handle_login-admit a v (some raw) = elim (Bool-cases v.allowed) [
    | inr e ↦ simp e refl
    | inl e ↦
        let r : LoginRequest = with_defaults s raw in
        elim (Bool-cases (bytes_eq r.email [] || bytes_eq r.password [])) [
          | inl f ↦ simp e (rw f refl)
          | inr f ↦
              elim (Bool-cases (
                not (bytes_eq r.mode (codes "cookie")) && not (bytes_eq r.mode (codes "bearer")))) [
                  | inl g ↦ simp e (rw f (rw g refl))
                  | inr g ↦
                      elim (Bool-cases
                        (v.counted && leb 5 (count_events s a v.now login_fail r.email 15))) [
                          | inl h ↦ simp e (rw f (rw g (rw (h, lockout_step) refl)))
                          | inr h ↦ simp e (rw f (rw g (rw (h, lockout_step) refl)))
                        ]
                ]
        ]
  ]
