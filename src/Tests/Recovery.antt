-- ===== src/Tests/Recovery.antt =====
-- A reset of a password, from its link.
use go_dark_web_crawler.Common.{◌≡◌, refl, true, some, ◌<◌, [], ◌∷◌}
use go_dark_web_crawler.Common.Text.{codes, no_tables}
use go_dark_web_crawler.Common.Select.{first_row}
use go_dark_web_crawler.Auth.Users.{User, has_email, normalize_email, has_id, may_reset}
use go_dark_web_crawler.Api.Validate.{token_safe, validate_password}
use go_dark_web_crawler.Api.Login.{Accounts, Visit, count_events}
use go_dark_web_crawler.Api.Recovery.{
  ResetRequest, reset_mail, handle_forgot, password_updated, handle_reset,
}
use go_dark_web_crawler.Api.Recovery.Reset.{IsRenewed, reset_renews}
use go_dark_web_crawler.Api.Recovery.Links.{IsOpenUntil, mailed_link_opens}
use go_dark_web_crawler.Tests.Libraries.{kdf-IsKdf}
use go_dark_web_crawler.Tests.Accounts.{admin, users, same_text, reset_link}
use go_dark_web_crawler.Tests.SignIn.{server, accounts, visit}

abbrev click : Visit
click = record visit { now = 50 }

abbrev chosen : ResetRequest
chosen = record { token = reset_link; new_password = codes "Correct1horse" }

updated : (handle_reset server accounts click (some chosen)).1 ≡ password_updated
unfolding handle_reset token_safe validate_password go_dark_web_crawler.Auth.Passwords.hash_password
    go_dark_web_crawler.Auth.Passwords.phc_string go_dark_web_crawler.Auth.Users.reset_password
    go_dark_web_crawler.Common.Select.count_rows go_dark_web_crawler.Common.Text.bytes_eq
    go_dark_web_crawler.Auth.Users.opaque_token_hash go_dark_web_crawler.Common.Hex.hex
updated = refl

reset_renews_example :
    (token_safe reset_link ≡ true)
    × ((validate_password (codes "Correct1horse") ≡ true)
        × ((u : User)
            → first_row (has_id u.id) users.rows ≡ some u
            → may_reset no_tables same_text 50 reset_link u ≡ true
            → (w : User) × ((first_row
                    (has_id u.id)
                    (handle_reset server accounts click (some chosen)).0.users.rows
                  ≡ some w)
                × IsRenewed server (codes "Correct1horse") (codes "s") u w)))
reset_renews_example =
    reset_renews server accounts click chosen (codes "s") kdf-IsKdf refl refl updated

abbrev reachable : Accounts
reachable = record accounts {
  users = record users { rows = record admin { email = codes "ab@cd.ef" } ∷ [] };
}

abbrev asking : Visit
asking = record visit { now = 50; fresh_token = reset_link }

mailed :
    (handle_forgot server reachable asking (some (codes " AB@cd.ef"))).1.1
    ≡ some (reset_mail (codes "ab@cd.ef") reset_link)
unfolding handle_forgot normalize_email go_dark_web_crawler.Common.Text.to_lower
    go_dark_web_crawler.Common.Text.trim_space go_dark_web_crawler.Common.Text.trim_left
    go_dark_web_crawler.Common.Text.trim_right go_dark_web_crawler.Common.Text.drop_space
    go_dark_web_crawler.Common.Text.is_space go_dark_web_crawler.Common.Text.is_ascii
    go_dark_web_crawler.Common.Text.lower_byte go_dark_web_crawler.Api.Validate.email_regex
    go_dark_web_crawler.Api.Validate.local_part go_dark_web_crawler.Api.Validate.domain_part
    count_events go_dark_web_crawler.Api.Login.audit_email_reference
    go_dark_web_crawler.Auth.Tokens.audit_reference go_dark_web_crawler.Common.Hex.hex
    go_dark_web_crawler.Auth.Audit.count_recent_auth_events
    go_dark_web_crawler.Common.Select.count_rows go_dark_web_crawler.Api.Recovery.forgot_step
    go_dark_web_crawler.Auth.Users.set_reset_token go_dark_web_crawler.Common.Text.bytes_eq
    go_dark_web_crawler.Api.Login.record_event
mailed = refl

mailed_link_opens_example :
    (codes "ab@cd.ef" ≡ normalize_email no_tables (codes " AB@cd.ef"))
    × ((asking.counted ≡ true
          → count_events server reachable 50
              (codes "reset_request")
              (normalize_email no_tables (codes " AB@cd.ef"))
              60
            < 3)
        × ((u : User)
            → first_row (has_id u.id) reachable.users.rows ≡ some u
            → has_email (normalize_email no_tables (codes "ab@cd.ef")) u ≡ true
            → IsOpenUntil server reset_link 3_600_000_050
                (handle_forgot server reachable asking (some (codes " AB@cd.ef"))).0.users
                u.id))
mailed_link_opens_example =
    mailed_link_opens server reachable asking (codes " AB@cd.ef") (codes "ab@cd.ef") reset_link
      mailed
