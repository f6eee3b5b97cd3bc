-- ===== src/Api/Recovery.antt =====
-- Registration, verification, and the reset of a password: `handleRegister`, `handleVerifyPOST`,
-- `handleForgotPassword` and `handleResetPassword` of backend/internal/api/auth_handlers.go. A handler gives
-- the tables, its answer, and the mail that it sends. The page of `handleVerifyGET` is left out.
pub mod Reset
pub mod Links
use go_dark_web_crawler.Common.{
  ℕ, Bool, true, false, not, ◌&&◌, ◌||◌, Option, none, some, ltb, leb, length, if◌then◌else◌,
}
use go_dark_web_crawler.Common.Text.{Bytes, codes}
use go_dark_web_crawler.Auth.Passwords.{hashed, unhashed, hash_password}
use go_dark_web_crawler.Auth.Users.{
  done, refused, email_in_use, normalize_email, create_registered_user, verify_user,
  set_reset_token, reset_password, UserError, invalid_role, invalid_token, token_not_valid,
  retention_out_of_range, deletion_pending,
}
use go_dark_web_crawler.Api.Login.{Server, Accounts, Visit, record_event, count_events}
use go_dark_web_crawler.Api.Validate.{token_safe, email_regex, validate_password}

-- `AllowRegistration` and `AdminEmail`.
pub record Config : Type 0 where
  pub allow_registration : Bool
  pub admin_email : Bytes

pub data Reply : Type 0 where
  registration_closed too_many_requests invalid_data invalid_email weak_password address_limited
        unprocessable address_taken internal_error created invalid_token_shape token_refused
        verified generic_answer password_updated :
      Reply

-- A verification or a reset mail: the address and the token in its link.
pub data Mail : Type 0 where
  verification_mail : Bytes → Bytes → Mail
  reset_mail : Bytes → Bytes → Mail

pub record RegisterRequest : Type 0 where
  pub email : Bytes
  pub password : Bytes

pub record ResetRequest : Type 0 where
  pub token : Bytes
  pub new_password : Bytes

abbrev pub bad_email : Bytes → Bool
bad_email email = not (email_regex email) || ltb 254 (length email)

abbrev pub refusal : UserError → Reply
refusal email_in_use = address_taken
refusal invalid_role = internal_error
refusal invalid_token = internal_error
refusal token_not_valid = internal_error
refusal retention_out_of_range = internal_error
refusal deletion_pending = internal_error

module _ (s : Server) where
  -- The end of `handleRegister`, for a normalized address and a hash.
  unfoldable pub register_step :
      Config → Accounts → Visit → Bytes → Bytes → Accounts × (Reply × Option Mail)
  register_step c a v email hash =
      let (users, answer) =
        create_registered_user s.unicode s.sha256 a.users v.now email hash v.fresh_token
          c.admin_email in
      elim answer [
        | refused e ↦ (
          record_event s (record a { users = users }) v (codes "register_fail") email,
          (refusal e, none),
        )
        | done _ ↦ (
          record_event s (record a { users = users }) v (codes "register_ok") email,
          (created, some (verification_mail email v.fresh_token)),
        )
      ]

  -- `handleRegister`; none is a body that does not decode.
  unfoldable pub handle_register :
      Config → Accounts → Visit → Option RegisterRequest → Accounts × (Reply × Option Mail)
  handle_register c a v body =
      if not c.allow_registration
      then (a, (registration_closed, none))
      else (if not v.allowed then (a, (too_many_requests, none)) else elim body [
        | none ↦ (a, (invalid_data, none))
        | some r ↦
            let email = normalize_email s.unicode r.email in
            if bad_email email
            then (a, (invalid_email, none))
            else (if not (validate_password r.password)
                then (a, (weak_password, none))
                else (if v.counted && leb 3 (count_events s a v.now (codes "register_ok") email 60)
                    then (a, (address_limited, none))
                    else elim (hash_password s.kdf r.password v.salt) [
                      | unhashed _ ↦ (a, (unprocessable, none))
                      | hashed hash ↦ register_step c a v email hash
                    ]))
      ])

  -- `handleVerifyPOST`, for the token of the JSON or form body; none is one that does not decode.
  unfoldable pub handle_verify : Accounts → Visit → Option Bytes → Accounts × Reply
  handle_verify a v body = if not v.allowed then (a, too_many_requests) else elim body [
    | none ↦ (a, invalid_data)
    | some token ↦
        if not (token_safe token)
        then (a, invalid_token_shape)
        else let (users, answer) = verify_user s.unicode s.sha256 a.users v.now token in
          (
            record a { users = users },
            elim answer [ refused _ ↦ token_refused | done _ ↦ verified ],
          )
  ]

  -- The part of `handleForgotPassword` behind its tests.
  unfoldable pub forgot_step : Accounts → Visit → Bytes → Accounts × Option Mail
  forgot_step a v email =
      let (users, found) = set_reset_token s.unicode s.sha256 a.users v.now email v.fresh_token in
      if found
      then (
        record_event s (record a { users = users }) v (codes "reset_request") email,
        some (reset_mail email v.fresh_token),
      )
      else (record a { users = users }, none)

  -- `handleForgotPassword`.
  unfoldable pub handle_forgot : Accounts → Visit → Option Bytes → Accounts × (Reply × Option Mail)
  handle_forgot a v body = if not v.allowed then (a, (too_many_requests, none)) else elim body [
    | none ↦ (a, (invalid_data, none))
    | some raw ↦
        let email = normalize_email s.unicode raw in
        if bad_email email
          || (v.counted && leb 3 (count_events s a v.now (codes "reset_request") email 60))
        then (a, (generic_answer, none))
        else let (after, mail) = forgot_step a v email in (after, (generic_answer, mail))
  ]

  -- `handleResetPassword`.
  unfoldable pub handle_reset : Accounts → Visit → Option ResetRequest → Accounts × Reply
  handle_reset a v body = if not v.allowed then (a, too_many_requests) else elim body [
    | none ↦ (a, invalid_data)
    | some r ↦
        if not (token_safe r.token)
        then (a, invalid_token_shape)
        else (if not (validate_password r.new_password)
            then (a, weak_password)
            else elim (hash_password s.kdf r.new_password v.salt) [
              | unhashed _ ↦ (a, unprocessable)
              | hashed hash ↦
                  let (users, answer) =
                    reset_password s.unicode s.sha256 a.users v.now r.token hash in
                  (
                    record a { users = users },
                    elim answer [ refused _ ↦ token_refused | done _ ↦ password_updated ],
                  )
            ])
  ]
