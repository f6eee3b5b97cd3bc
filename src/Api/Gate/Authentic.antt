-- ===== src/Api/Gate/Authentic.antt =====
-- What a request has shown when it passes the middleware for any account.
use go_dark_web_crawler.Common.{
  ℕ, ◌≡◌, ◌⊎◌, ◌∙◌, refl, ap, sym, Bool, true, false, not, ◌||◌, none, some, [], arith, Bool-cases,
  Option-cases, inl, inr, ◌==◌,
}
use go_dark_web_crawler.Common.Text.{Bytes, bytes_eq, bytes_eq_iff}
use go_dark_web_crawler.Common.Select.{first_row}
use go_dark_web_crawler.Auth.Sessions.{session_active}
use go_dark_web_crawler.Auth.Tokens.{ℤ, pos, negsuc, Claims, validate_token}
use go_dark_web_crawler.Auth.Users.{User, has_id, get_user_auth_info}
use go_dark_web_crawler.Api.Login.{Server, Accounts}
use go_dark_web_crawler.Api.Gate.{
  Request, Source, is_cookie, Context, Passage, halted, reaches, credential, jwt_middleware,
  is_safe, came_by_cookie, csrf_protect, require_auth, get_user_id, same_version, check_session,
  load_user, load_number, load_db_role, front, user_route,
}

pub Passage-cases :
    (p : Passage)
    → ((status : ℕ) × ((clears : Bool) × (p ≡ halted status clears)))
      ⊎ ((c : Context) × (p ≡ reaches c))
Passage-cases (halted status clears) = inl (status, (clears, refl))
Passage-cases (reaches c) = inr (c, refl)

-- The double submission of the token against forgery, where it is asked for.
abbrev pub IsUnforged : Request → Source → Type 0
IsUnforged r source =
    is_safe r.method ≡ false
    → is_cookie source ≡ true
    → (cookie : Bytes) × ((r.csrf_cookie ≡ some cookie)
        × ((bytes_eq cookie [] ≡ false) × (r.csrf_header ≡ cookie)))

-- A live account with the token version of the claims, and a live session where they name one.
abbrev pub IsCurrent : Accounts → ℕ → Claims → ℕ → User → Type 0
IsCurrent a now claims user u =
    (claims.user_id ≡ pos user)
    × ((first_row (has_id user) a.users.rows ≡ some u)
        × ((same_version claims.token_version u.token_version ≡ true)
            × (bytes_eq claims.session_id [] ≡ false
                → session_active a.sessions.rows now user claims.session_id ≡ true)))

abbrev UnforgedCookie : Request → Context → Type 0
UnforgedCookie r c =
    is_safe r.method ≡ false
    → came_by_cookie c ≡ true
    → (cookie : Bytes) × ((r.csrf_cookie ≡ some cookie)
        × ((bytes_eq cookie [] ≡ false) × (r.csrf_header ≡ cookie)))

csrf_protect-reaches :
    (r : Request) (c d : Context) → csrf_protect r c ≡ reaches d → (d ≡ c) × UnforgedCookie r c
unfolding csrf_protect
csrf_protect-reaches r c d e = elim (Bool-cases (is_safe r.method)) [
  | inl f ↦ (cc (rw (f, csrf_protect) at e), λ unsafe _. absurd (cc (sym f ∙ unsafe)))
  | inr f ↦ elim (Bool-cases (came_by_cookie c)) [
    | inr g ↦ (cc (rw (f, g, csrf_protect) at e), λ _ by. absurd (cc (sym by ∙ g)))
    | inl g ↦ elim (Option-cases r.csrf_cookie) [
      | inl h ↦ absurd (cc (rw (f, g, h, csrf_protect) at e))
      | inr (cookie, h) ↦
          elim (Bool-cases (bytes_eq cookie [] || not (bytes_eq r.csrf_header cookie))) [
            | inl k ↦ absurd (cc (rw k at (rw (f, g, h, csrf_protect) at e)))
            | inr k ↦ (
              cc (rw k at (rw (f, g, h, csrf_protect) at e)),
              λ _ _. (
                cookie,
                (h, (ground arith, (bytes_eq_iff r.csrf_header cookie).0 (ground arith))),
              ),
            )
          ]
    ]
  ]
]

abbrev pub first_context : Claims → Source → Context
first_context claims source = record { credentials = some (claims, source); db_role = none }

front-reaches :
    (s : Server) (now : ℕ) (r : Request) (c : Context)
    → front s now r ≡ reaches c
    → (c.credentials ≡ none)
      ⊎ ((token : Bytes) × ((claims : Claims) × ((source : Source) × ((credential r
                  ≡ some (token, source))
                × ((validate_token s.jwt s.secret now token ≡ some claims)
                    × ((c ≡ first_context claims source) × IsUnforged r source))))))
unfolding front jwt_middleware
front-reaches s now r c e = elim (Option-cases (credential r)) [
  | inl f ↦ inl (ap (λ d. d.credentials) (csrf_protect-reaches r _ c (rw (f, front) at e)).0)
  | inr ((token, source), f) ↦ elim (Option-cases (validate_token s.jwt s.secret now token)) [
    | inl g ↦ absurd (cc (rw (f, g, front) at e))
    | inr (claims, g) ↦
        let (same, unforged) =
          csrf_protect-reaches r (first_context claims source) c (rw (f, g, front) at e) in
        inr (token, (claims, (source, (f, (g, (same, unforged))))))
  ]
]

check_session-reaches :
    (a : Accounts) (now : ℕ) (c d : Context) (user : ℕ) (claims : Claims) (live : Bytes × Bytes)
    → (check_session a now c user claims live).1 ≡ reaches d
    → (d ≡ record c { db_role = some live })
      × (((check_session a now c user claims live).0.users ≡ a.users)
          × (bytes_eq claims.session_id [] ≡ false
              → session_active a.sessions.rows now user claims.session_id ≡ true))
unfolding check_session
check_session-reaches a now c d user claims live e =
    elim (Bool-cases (bytes_eq claims.session_id [])) [
      | inl f ↦ (
        cc (rw (f, check_session) at e),
        (rw (f, check_session) refl, λ named. absurd (cc (sym f ∙ named))),
      )
      | inr f ↦ elim (Bool-cases (session_active a.sessions.rows now user claims.session_id)) [
        | inl g ↦ (cc (rw (f, g, check_session) at e), (rw (f, g, check_session) refl, λ _. g))
        | inr g ↦ absurd (cc (rw (f, g, check_session) at e))
      ]
    ]

load_user-reaches :
    (a : Accounts) (now : ℕ) (c d : Context) (user : ℕ) (claims : Claims)
    → claims.user_id ≡ pos user
    → (load_user a now c user claims).1 ≡ reaches d
    → (u : User) × ((d ≡ record c { db_role = some (u.role, u.email) })
        × (((load_user a now c user claims).0.users ≡ a.users) × IsCurrent a now claims user u))
unfolding load_user get_user_auth_info
load_user-reaches a now c d user claims named e =
    elim (Option-cases (first_row (has_id user) a.users.rows)) [
      | inl f ↦ absurd (cc (rw (f, load_user, get_user_auth_info) at e))
      | inr (u, f) ↦ elim (Bool-cases (same_version claims.token_version u.token_version)) [
        | inr g ↦ absurd (cc (rw (f, g, load_user, get_user_auth_info) at e))
        | inl g ↦
            let (same, (users, live)) =
              check_session-reaches a now c d user claims (u.role, u.email)
                (rw (f, g, load_user, get_user_auth_info) at e) in
            (u, (same, (rw (f, g, load_user, get_user_auth_info) users, (named, (f, (g, live))))))
      ]
    ]

-- What a passed request has shown, for the claims of its token and their source.
abbrev pub IsAuthentic : Server → ℕ → Request → Claims → Source → Type 0
IsAuthentic s now r claims source =
    (token : Bytes) × ((credential r ≡ some (token, source))
      × ((validate_token s.jwt s.secret now token ≡ some claims) × IsUnforged r source))

load_number-reaches :
    (a : Accounts) (now : ℕ) (c d : Context) (claims : Claims) (z : ℤ)
    → claims.user_id ≡ z
    → (load_number a now c claims z).1 ≡ reaches d
    → ((z ≡ pos 0) × (d ≡ c))
      ⊎ ((user : ℕ) × ((u : User) × ((d ≡ record c { db_role = some (u.role, u.email) })
              × (((load_number a now c claims z).0.users ≡ a.users)
                  × IsCurrent a now claims user u))))
unfolding load_number
load_number-reaches a now c d claims (negsuc n) f e = absurd (cc e)
load_number-reaches a now c d claims (pos user) f e = elim (Bool-cases (user == 0)) [
  | inl g ↦ let zero_user : user ≡ 0 = ground arith in inl (ap pos zero_user, cc (rw g at e))
  | inr g ↦
      let (u, (same, (users, current))) = load_user-reaches a now c d user claims f (rw g at e) in
      inr (user, (u, (same, (rw g users, current))))
]

pub user_route-first :
    (s : Server) (a : Accounts) (now : ℕ) (r : Request) (claims : Claims) (source : Source)
    → front s now r ≡ reaches (first_context claims source)
    → user_route s a now r ≡ load_number a now (first_context claims source) claims claims.user_id
unfolding user_route require_auth load_db_role
user_route-first s a now r claims source f = rw (f, user_route) refl

same_id :
    (claims : Claims) (source : Source) (d : Context)
    → claims.user_id ≡ pos 0
    → d ≡ first_context claims source
    → get_user_id d ≡ pos 0
unfolding get_user_id
same_id claims source d zero_id same = rw same zero_id

-- The number of the context is 0, or the account is current.
abbrev pub IsAdmitted : Server → Accounts → ℕ → Request → Claims → Source → Context → Type 0
IsAdmitted s a now r claims source d =
    ((claims.user_id ≡ pos 0) × (get_user_id d ≡ pos 0))
    ⊎ ((user : ℕ) × ((u : User) × ((d
              ≡ record { credentials = some (claims, source); db_role = some (u.role, u.email) })
            × (((user_route s a now r).0.users ≡ a.users) × IsCurrent a now claims user u))))

pub user_route-reaches :
    (s : Server) (a : Accounts) (now : ℕ) (r : Request) (d : Context)
    → (user_route s a now r).1 ≡ reaches d
    → (claims : Claims) × ((source : Source) × (IsAuthentic s now r claims source
          × IsAdmitted s a now r claims source d))
unfolding user_route require_auth load_db_role
user_route-reaches s a now r d e = elim (Passage-cases (front s now r)) [
  | inl (status, (clears, f)) ↦ absurd (cc (rw (f, user_route) at e))
  | inr (c, f) ↦ elim (front-reaches s now r c f) [
    | inl bare ↦ absurd (cc (rw (f, user_route) at e))
    | inr (token, (claims, (source, (given, (valid, (same, unforged)))))) ↦
        let first = user_route-first s a now r claims source (f ∙ ap reaches same) in
        (
          claims,
          (
            source,
            (
              (token, (given, (valid, unforged))),
              elim (load_number-reaches a now (first_context claims source) d claims claims.user_id
                  refl (ap (λ x. x.1) (sym first) ∙ e)) [
                    | inl (zero_id, same_d) ↦ inl (zero_id, same_id claims source d zero_id same_d)
                    | inr (user, (u, (same_d, (users, current)))) ↦
                        inr (user, (u, (same_d, (ap (λ x. x.0.users) first ∙ users, current))))
                  ],
            ),
          ),
        )
  ]
]
