-- ===== src/Api/Gate/Entitled.antt =====
-- Who reaches a handler for administrators.
use go_dark_web_crawler.Common.{
  ℕ, ◌≡◌, ◌∙◌, ap, sym, Bool, true, false, some, Bool-cases, Option-cases, inl, inr,
}
use go_dark_web_crawler.Common.Text.{bytes_eq_iff, codes}
use go_dark_web_crawler.Common.Select.{first_row}
use go_dark_web_crawler.Auth.SecondFactor.{get_totp_state}
use go_dark_web_crawler.Auth.Tokens.{ℤ, pos, Claims}
use go_dark_web_crawler.Auth.Users.{Users, User, has_id}
use go_dark_web_crawler.Api.Login.{Server, Accounts}
use go_dark_web_crawler.Api.Gate.{
  Request, Source, Context, reaches, get_user_id, is_admin_role, has_second_factor, is_zero,
  require_admin_db, user_route, admin_route,
}
use go_dark_web_crawler.Api.Gate.Authentic.{
  Passage-cases, IsAuthentic, IsCurrent, user_route-reaches,
}

-- What the database says of an administrator.
abbrev pub IsAdministrator : Bool → User → Type 0
IsAdministrator require_mfa u =
    (u.role ≡ codes "admin") × (require_mfa ≡ true → u.second.totp_enabled ≡ true)

require_admin_db-reaches :
    (mfa : Bool) (a : Accounts) (c d : Context)
    → require_admin_db mfa a c ≡ reaches d
    → (d ≡ c)
      × ((is_zero (get_user_id c) ≡ false)
          × ((is_admin_role c ≡ true)
              × (mfa ≡ true → has_second_factor a.users (get_user_id c) ≡ some true)))
unfolding require_admin_db
require_admin_db-reaches mfa a c d e = elim (Bool-cases (is_zero (get_user_id c))) [
  | inl f ↦ absurd (cc (rw f at e))
  | inr f ↦ elim (Bool-cases (is_admin_role c)) [
    | inr g ↦ absurd (cc (rw g at (rw f at e)))
    | inl g ↦ elim (Bool-cases mfa) [
      | inr h ↦ (cc (rw h at (rw g at (rw f at e))), (f, (g, λ on. absurd (cc (sym on ∙ h)))))
      | inl h ↦ elim (Option-cases (has_second_factor a.users (get_user_id c))) [
        | inl k ↦ absurd (cc (rw k at (rw h at (rw g at (rw f at e)))))
        | inr (b, k) ↦ elim (Bool-cases b) [
          | inl m ↦
              (cc (rw m at (rw k at (rw h at (rw g at (rw f at e))))), (f, (g, λ _. k ∙ ap some m)))
          | inr m ↦ absurd (cc (rw m at (rw k at (rw h at (rw g at (rw f at e))))))
        ]
      ]
    ]
  ]
]

administrator :
    (mfa : Bool) (t : Users) (claims : Claims) (source : Source) (u : User) (user : ℕ) (z : ℤ)
    → z ≡ pos user
    → first_row (has_id user) t.rows ≡ some u
    → is_admin_role
        (record { credentials = some (claims, source); db_role = some (u.role, u.email) })
      ≡ true
    → (mfa ≡ true → has_second_factor t z ≡ some true)
    → IsAdministrator mfa u
unfolding is_admin_role has_second_factor get_totp_state
administrator mfa t claims source u user z named found role second = (
  (bytes_eq_iff u.role (codes "admin")).0 role,
  λ on. cc (rw (named, has_second_factor, found, get_totp_state) at (second on)),
)

entitled :
    (mfa : Bool) (a after : Accounts) (c : Context) (claims : Claims) (source : Source) (user : ℕ)
    (u : User) (now : ℕ)
    → c ≡ record { credentials = some (claims, source); db_role = some (u.role, u.email) }
    → after.users ≡ a.users
    → IsCurrent a now claims user u
    → is_admin_role c ≡ true
    → (mfa ≡ true → has_second_factor after.users (get_user_id c) ≡ some true)
    → IsAdministrator mfa u
unfolding get_user_id
entitled mfa a after c claims source user u now context users current role second =
    administrator mfa a.users claims source u user claims.user_id current.0 current.1.0
      (ap is_admin_role (sym context) ∙ role)
      (λ on.
        ap (λ t. has_second_factor t claims.user_id) (sym users)
        ∙ (ap (λ x. has_second_factor after.users (get_user_id x)) (sym context) ∙ second on))

-- A request that reaches a handler for administrators carries a token that is valid now. The account that
-- the token names has a row, whose role is that of an administrator, whatever the token was issued for, and
-- whose token version is the token's. The session that the token names, if any, is active. If the second
-- factor is required, the account has one. And if the token came in a cookie and the method is not a safe
-- one, the request repeats the token against forgery.
pub admin_route-IsEntitled :
    (s : Server) (mfa : Bool) (a : Accounts) (now : ℕ) (r : Request) (d : Context)
    → (admin_route s mfa a now r).1 ≡ reaches d
    → (claims : Claims) × ((source : Source) × (IsAuthentic s now r claims source
          × ((user : ℕ) × ((u : User) × (IsCurrent a now claims user u × IsAdministrator mfa u)))))
unfolding admin_route is_zero
admin_route-IsEntitled s mfa a now r d e = elim (Passage-cases (user_route s a now r).1) [
  | inl (status, (clears, f)) ↦ absurd (cc (rw (f, admin_route) at e))
  | inr (c, f) ↦
      let (claims, (source, (authentic, admitted))) = user_route-reaches s a now r c f in
      let (same, (number, (role, second))) =
        require_admin_db-reaches mfa (user_route s a now r).0 c d (rw (f, admin_route) at e) in
      (
        claims,
        (
          source,
          (
            authentic,
            elim admitted [
              | inl (_, zero_id) ↦ absurd (cc (rw (zero_id, is_zero) at number))
              | inr (user, (u, (context, (users, current)))) ↦ (
                user,
                (
                  u,
                  (
                    current,
                    entitled mfa a (user_route s a now r).0 c claims source user u now context users
                        current role second,
                  ),
                ),
              )
            ],
          ),
        ),
      )
]
