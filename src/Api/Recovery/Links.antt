-- ===== src/Api/Recovery/Links.antt =====
-- What a mailed link for a reset opens.
use go_dark_web_crawler.Common.{
  ◌&&◌, ℕ, ◌+◌, ◌*◌, ◌<◌, ◌≡◌, refl, true, ◌||◌, some, arith, leb, Bool-cases, inl, inr,
}
use go_dark_web_crawler.Common.Text.{Bytes, bytes_eq_refl, codes}
use go_dark_web_crawler.Common.Select.{first_row, first_row-update_rows}
use go_dark_web_crawler.Auth.Users.{
  User, Users, has_id, has_email, may_reset, normalize_email, opaque_token_hash, set_reset_token,
}
use go_dark_web_crawler.Api.Login.{Server, Accounts, Visit, record_event, count_events}
use go_dark_web_crawler.Api.Recovery.{reset_mail, bad_email, forgot_step, handle_forgot}

-- The row of an account that a token opens until a moment.
abbrev pub IsOpenUntil : Server → Bytes → ℕ → Users → ℕ → Type 0
IsOpenUntil s token until t user =
    (w : User) × ((first_row (has_id user) t.rows ≡ some w)
      × ((later : ℕ) → later < until → may_reset s.unicode s.sha256 later token w ≡ true))

set_reset_token-IsOpenUntil :
    (s : Server) (t : Users) (now : ℕ) (email token : Bytes) (u : User)
    → first_row (has_id u.id) t.rows ≡ some u
    → has_email (normalize_email s.unicode email) u ≡ true
    → IsOpenUntil s token
        (now + 3600 * 1_000_000)
        (set_reset_token s.unicode s.sha256 t now email token).0
        u.id
unfolding set_reset_token
set_reset_token-IsOpenUntil s t now email token u found here = (
  record u {
    reset_token = some (opaque_token_hash s.sha256 token);
    reset_expires_at = some (now + 3600 * 1_000_000);
  },
  (
    rw
        (first_row-update_rows (has_id u.id) (has_email (normalize_email s.unicode email))
          (λ r. record r {
            reset_token = some (opaque_token_hash s.sha256 token);
            reset_expires_at = some (now + 3600 * 1_000_000);
          })
          t.rows (λ r. refl))
        (rw found (rw here refl)),
    λ later h. rw (bytes_eq_refl (opaque_token_hash s.sha256 token)) (ground arith),
  ),
)

forgot_step-mails :
    (s : Server) (a : Accounts) (v : Visit) (email to token : Bytes)
    → (forgot_step s a v email).1 ≡ some (reset_mail to token)
    → (to ≡ email)
      × ((token ≡ v.fresh_token)
          × ((forgot_step s a v email).0.users
              ≡ (set_reset_token s.unicode s.sha256 a.users v.now email v.fresh_token).0))
unfolding forgot_step record_event
forgot_step-mails s a v email to token e =
    elim (Bool-cases (set_reset_token s.unicode s.sha256 a.users v.now email v.fresh_token).1) [
      | inr f ↦ absurd (cc (rw (f, forgot_step) at e))
      | inl f ↦
          let sent = rw (f, forgot_step) at e in (cc sent, (cc sent, rw (f, forgot_step) refl))
    ]

-- A reset mail goes to the address that was asked for, normalized, which had fewer than three of them in the
-- last hour, where they could be counted. Its token opens every account with that address for one hour.
pub mailed_link_opens :
    (s : Server) (a : Accounts) (v : Visit) (raw to token : Bytes)
    → (handle_forgot s a v (some raw)).1.1 ≡ some (reset_mail to token)
    → (to ≡ normalize_email s.unicode raw)
      × ((v.counted ≡ true
            → count_events s a v.now (codes "reset_request") (normalize_email s.unicode raw) 60 < 3)
          × ((u : User)
              → first_row (has_id u.id) a.users.rows ≡ some u
              → has_email (normalize_email s.unicode to) u ≡ true
              → IsOpenUntil s token
                  (v.now + 3600 * 1_000_000)
                  (handle_forgot s a v (some raw)).0.users
                  u.id))
unfolding handle_forgot
mailed_link_opens s a v raw to token e = elim (Bool-cases v.allowed) [
  | inr f ↦ absurd (cc (simp f at e))
  | inl f ↦
      let email = normalize_email s.unicode raw in
      elim (Bool-cases (
        bad_email email
        || (v.counted && leb 3 (count_events s a v.now (codes "reset_request") email 60)))) [
          | inl g ↦ absurd (cc (rw g at (simp f at e)))
          | inr g ↦
              let (same, (fresh, users)) =
                forgot_step-mails s a v email to token (rw g at (simp f at e)) in
              (
                same,
                (
                  ground arith,
                  λ u found here. simp f (
                      rw g (
                        rw (users, fresh)
                          (set_reset_token-IsOpenUntil s a.users v.now email v.fresh_token u found
                            (rw same at here)))),
                ),
              )
        ]
]
