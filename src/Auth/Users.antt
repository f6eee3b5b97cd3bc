-- ===== src/Auth/Users.antt =====
-- The table `users`: its operations in backend/internal/database/db.go, and those of privacy.go on its
-- columns. The second factor and the recovery codes of an account stand in its row. The column
-- `created_at` is left out; SHA-256 is a parameter.
pub mod OneTime
pub mod Deletion
use go_dark_web_crawler.Common.{
  ℕ, suc, ◌+◌, ◌*◌, Bool, true, false, not, ◌&&◌, ◌||◌, Option, none, some, List, [], ◌∷◌, ◌++◌,
  ltb, leb, ◌==◌, length, take, keep, map, if◌then◌else◌,
}
use go_dark_web_crawler.Common.Text.{Bytes, bytes_eq, codes, Unicode, to_lower, trim_space}
use go_dark_web_crawler.Common.Hex.{hex}
use go_dark_web_crawler.Common.Select.{update_rows, count_rows, first_row, delete_rows, order_by}
use go_dark_web_crawler.Auth.SecondFactor.{Account}

pub record User : Type 0 where
  pub id : ℕ
  pub email : Bytes
  pub password_hash : Bytes
  pub role : Bytes
  pub is_verified : Bool
  pub verification_token : Option Bytes
  pub verification_expires_at : Option ℕ
  pub reset_token : Option Bytes
  pub reset_expires_at : Option ℕ
  pub token_version : ℕ
  pub second : Account
  pub retention_days : ℕ
  pub store_content : Bool
  pub deletion_requested_at : Option ℕ
  pub deletion_scheduled_for : Option ℕ

-- The rows, and the next value of the sequence of `id`.
pub record Users : Type 0 where
  pub rows : List User
  pub next_id : ℕ

pub data UserError : Type 0 where
  email_in_use invalid_role invalid_token token_not_valid retention_out_of_range deletion_pending :
      UserError

pub data Outcome {ℓ} (A : Type ℓ) : Type ℓ where
  done : A → Outcome A
  refused : UserError → Outcome A

abbrev pub hours : ℕ → ℕ
hours n = n * 3600 * 1_000_000

-- `NormalizeEmail`.
unfoldable pub normalize_email : Unicode → Bytes → Bytes
normalize_email u email = to_lower u (trim_space u email)

-- `opaqueTokenHash`.
unfoldable pub opaque_token_hash : (Bytes → Bytes) → Bytes → Bytes
opaque_token_hash sha256 token = hex (sha256 token)

abbrev pub has_email : Bytes → User → Bool
has_email email u = bytes_eq u.email email

abbrev pub has_id : ℕ → User → Bool
has_id user u = u.id == user

-- A row as the INSERT of a registration leaves it, the other columns at their defaults.
unfoldable pub new_user : ℕ → ℕ → Bytes → Bytes → Bytes → Bytes → User
new_user user now email hash role token_hash = record {
  id = user;
  email = email;
  password_hash = hash;
  role = role;
  is_verified = false;
  verification_token = some token_hash;
  verification_expires_at = some (now + hours 24);
  reset_token = none;
  reset_expires_at = none;
  token_version = 0;
  second = record {
    totp_secret = none;
    totp_enabled = false;
    totp_confirmed = false;
    totp_last_step = 0;
    recovery_codes = [];
  };
  retention_days = 0;
  store_content = true;
  deletion_requested_at = none;
  deletion_scheduled_for = none;
}

-- The INSERT: an address stands once in the table, and a refused row still uses up its number.
unfoldable pub insert_user : Users → ℕ → Bytes → Bytes → Bytes → Bytes → Users × Outcome (Unit {0})
insert_user t now email hash role token_hash = elim (first_row (has_email email) t.rows) [
  | some _ ↦ (record t { next_id = suc t.next_id }, refused email_in_use)
  | none ↦ (
    record {
      rows = t.rows ++ new_user t.next_id now email hash role token_hash ∷ [];
      next_id = suc t.next_id;
    },
    done tt,
  )
]

module _ (uni : Unicode) (sha256 : Bytes → Bytes) where
  -- `CreateUser`.
  unfoldable pub create_user :
      Users → ℕ → Bytes → Bytes → Bytes → Bytes → Users × Outcome (Unit {0})
  create_user t now email hash role token =
      if not (bytes_eq role (codes "user")) && not (bytes_eq role (codes "admin"))
      then (t, refused invalid_role)
      else insert_user t now (normalize_email uni email) hash role (opaque_token_hash sha256 token)

  abbrev pub is_admin : User → Bool
  is_admin u = bytes_eq u.role (codes "admin")

  -- The role that a registration gets, for normalized addresses.
  unfoldable pub registered_role : List User → Bytes → Bytes → Bytes
  registered_role rows email admin_email =
      if not (bytes_eq admin_email [])
        && bytes_eq email admin_email
        && count_rows is_admin rows == 0
      then codes "admin"
      else codes "user"

  -- `CreateRegisteredUser`.
  unfoldable pub create_registered_user :
      Users → ℕ → Bytes → Bytes → Bytes → Bytes → Users × Outcome Bytes
  create_registered_user t now email hash token admin_email =
      let address = normalize_email uni email in
      let role = registered_role t.rows address (normalize_email uni admin_email) in
      let (after, answer) = insert_user t now address hash role (opaque_token_hash sha256 token) in
      (after, elim answer [ refused e ↦ refused e | done _ ↦ done role ])

  -- `GetUserByEmail`.
  unfoldable pub get_user_by_email : Users → Bytes → Option User
  get_user_by_email t email = first_row (has_email (normalize_email uni email)) t.rows

  -- `SetResetToken`.
  unfoldable pub set_reset_token : Users → ℕ → Bytes → Bytes → Users × Bool
  set_reset_token t now email token =
      let hit : User → Bool = has_email (normalize_email uni email) in
      (
        record t {
          rows =
              update_rows hit
                (λ u. record u {
                  reset_token = some (opaque_token_hash sha256 token);
                  reset_expires_at = some (now + hours 1);
                })
                t.rows;
        },
        ltb 0 (count_rows hit t.rows),
      )

  -- `token = $1` and `expires_at IS NOT NULL AND expires_at > CURRENT_TIMESTAMP`.
  abbrev pub is_token : Option Bytes → Bytes → Bool
  is_token none hash = false
  is_token (some h) hash = bytes_eq h hash

  abbrev pub is_open : ℕ → Option ℕ → Bool
  is_open now none = false
  is_open now (some t) = ltb now t

  abbrev pub may_reset : ℕ → Bytes → User → Bool
  may_reset now token u =
      is_token u.reset_token (opaque_token_hash sha256 token) && is_open now u.reset_expires_at

  abbrev pub with_new_password : Bytes → User → User
  with_new_password hash u = record u {
    password_hash = hash;
    reset_token = none;
    reset_expires_at = none;
    token_version = u.token_version + 1;
  }

  -- `ResetPassword`.
  unfoldable pub reset_password : Users → ℕ → Bytes → Bytes → Users × Outcome (Unit {0})
  reset_password t now token hash = if ltb (length token) 16 then (t, refused invalid_token) else (
    record t { rows = update_rows (may_reset now token) (with_new_password hash) t.rows },
    if count_rows (may_reset now token) t.rows == 0 then refused token_not_valid else done tt,
  )

  abbrev pub may_verify : ℕ → Bytes → User → Bool
  may_verify now token u =
      is_token u.verification_token (opaque_token_hash sha256 token)
      && not u.is_verified
      && elim u.verification_expires_at [ none ↦ true | some t ↦ ltb now t ]

  -- `VerifyUser`.
  unfoldable pub verify_user : Users → ℕ → Bytes → Users × Outcome (Unit {0})
  verify_user t now token = if ltb (length token) 16 then (t, refused invalid_token) else (
    record t {
      rows =
          update_rows (may_verify now token)
            (λ u. record u {
              is_verified = true;
              verification_token = none;
              verification_expires_at = none;
            })
            t.rows;
    },
    if count_rows (may_verify now token) t.rows == 0 then refused token_not_valid else done tt,
  )

-- `BumpTokenVersion`.
unfoldable pub bump_token_version : Users → ℕ → Users
bump_token_version t user = record t {
  rows = update_rows (has_id user) (λ u. record u { token_version = u.token_version + 1 }) t.rows;
}

-- `UpgradePasswordHash`.
unfoldable pub upgrade_password_hash : Users → ℕ → Bytes → Bytes → Users
upgrade_password_hash t user old new = record t {
  rows =
      update_rows (λ u. has_id user u && bytes_eq u.password_hash old)
        (λ u. record u { password_hash = new }) t.rows;
}

-- `GetUserAuthInfo`: address, role and token version.
unfoldable pub get_user_auth_info : Users → ℕ → Option (Bytes × (Bytes × ℕ))
get_user_auth_info t user = elim (first_row (has_id user) t.rows) [
  | none ↦ none
  | some u ↦ some (u.email, (u.role, u.token_version))
]

abbrev pub max_retention_days : ℕ
max_retention_days = 3650

-- `SetPrivacySettings`.
unfoldable pub set_privacy_settings : Users → ℕ → ℕ → Bool → Users × Outcome (Unit {0})
set_privacy_settings t user days keep_content =
    if ltb max_retention_days days then (t, refused retention_out_of_range) else (
      record t {
        rows =
            update_rows (has_id user)
              (λ u. record u { retention_days = days; store_content = keep_content }) t.rows;
      },
      done tt,
    )

abbrev pub is_scheduled : User → Bool
is_scheduled u = elim u.deletion_scheduled_for [ none ↦ false | some _ ↦ true ]

-- `RequestAccountDeletion`, for a grace of whole seconds; a negative one counts as 0.
unfoldable pub request_account_deletion : Users → ℕ → ℕ → ℕ → Users × Outcome ℕ
request_account_deletion t now user grace =
    let hit : User → Bool = λ u. has_id user u && not (is_scheduled u) in
    let due = now + grace * 1_000_000 in
    (
      record t {
        rows =
            update_rows hit
              (λ u. record u {
                deletion_requested_at = some now;
                deletion_scheduled_for = some due;
              })
              t.rows;
      },
      if count_rows hit t.rows == 0 then refused deletion_pending else done due,
    )

-- `CancelAccountDeletion`.
unfoldable pub cancel_account_deletion : Users → ℕ → Users × Bool
cancel_account_deletion t user =
    let hit : User → Bool = λ u. has_id user u && is_scheduled u in
    (
      record t {
        rows =
            update_rows hit
              (λ u. record u { deletion_requested_at = none; deletion_scheduled_for = none })
              t.rows;
      },
      ltb 0 (count_rows hit t.rows),
    )

abbrev pub is_due : ℕ → User → Bool
is_due now u = elim u.deletion_scheduled_for [ none ↦ false | some t ↦ leb t now ]

abbrev pub due_before : User → User → Bool
due_before u v = elim u.deletion_scheduled_for [
  | none ↦ false
  | some a ↦ elim v.deletion_scheduled_for [ none ↦ true | some b ↦ leb a b ]
]

-- `DueAccountDeletions`: number and address of each account; a limit of 0 or less stands for 50.
unfoldable pub due_account_deletions : Users → ℕ → ℕ → List (ℕ × Bytes)
due_account_deletions t now limit =
    map (λ u. (u.id, u.email))
      (take (if limit == 0 then 50 else limit) (order_by due_before (keep (is_due now) t.rows)))

-- `DELETE FROM users WHERE id = $1`.
unfoldable pub delete_user : Users → ℕ → Users
delete_user t user = record t { rows = delete_rows (has_id user) t.rows }
