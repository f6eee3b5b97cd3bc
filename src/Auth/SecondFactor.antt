-- ===== src/Auth/SecondFactor.antt =====
-- The second factor of one account: the columns of `users` and the rows of `recovery_codes` that
-- backend/internal/database/totp.go works on, and `verifySecondFactor` of api/totp_handlers.go. The
-- account's row exists; one SQL statement, and one transaction, is one function.
pub mod Replay
use go_dark_web_crawler.Common.{
  ℕ, suc, ◌+◌, Bool, true, false, not, ◌&&◌, Option, none, some, List, [], ◌∷◌, map, ltb, ◌==◌,
  if◌then◌else◌,
}
use go_dark_web_crawler.Common.Text.{Bytes, bytes_eq}
use go_dark_web_crawler.Common.Hex.{hex}
use go_dark_web_crawler.Auth.Totp.{Crypto, validate_totp, normalize_recovery_code}

pub record RecoveryCode : Type 0 where
  pub code_hash : Bytes
  pub used : Bool

pub record Account : Type 0 where
  pub totp_secret : Option Bytes
  pub totp_enabled : Bool
  pub totp_confirmed : Bool
  pub totp_last_step : ℕ
  pub recovery_codes : List RecoveryCode

pub data Error : Type 0 where
  already_enabled no_pending_enrolment totp_replay : Error

pub data Result {ℓ} (A : Type ℓ) : Type ℓ where
  ok : A → Result A
  err : Error → Result A

-- `TOTPState` and `GetTOTPState`: no secret reads as the empty text.
pub record TotpState : Type 0 where
  pub state_secret : Bytes
  pub state_enabled : Bool
  pub state_last_step : ℕ
  pub state_confirmed : Bool

unfoldable pub get_totp_state : Account → TotpState
get_totp_state a = record {
  state_secret = elim a.totp_secret [ none ↦ [] | some s ↦ s ];
  state_enabled = a.totp_enabled;
  state_last_step = a.totp_last_step;
  state_confirmed = a.totp_confirmed;
}

-- `StageTOTPSecret`.
unfoldable pub stage_totp_secret : Account → Bytes → Account × Result (Unit {0})
stage_totp_secret a secret =
    if a.totp_enabled
    then (a, err already_enabled)
    else (record a { totp_secret = some secret; totp_confirmed = false }, ok tt)

-- The condition of the UPDATE of `ConfirmTOTP`.
unfoldable pub is_pending : Account → Bool
is_pending a = not a.totp_enabled && elim a.totp_secret [ none ↦ false | some s ↦ true ]

-- `ConfirmTOTP`.
unfoldable pub confirm_totp : Account → ℕ → List Bytes → Account × Result (Unit {0})
confirm_totp a step code_hashes =
    if is_pending a
    then (
      record a {
        totp_enabled = true;
        totp_confirmed = true;
        totp_last_step = step;
        recovery_codes = map (λ h. record { code_hash = h; used = false }) code_hashes;
      },
      ok tt,
    )
    else (a, err no_pending_enrolment)

-- `ConsumeTOTPStep`.
unfoldable pub consume_totp_step : Account → ℕ → Account × Result (Unit {0})
consume_totp_step a step =
    if ltb a.totp_last_step step
    then (record a { totp_last_step = step }, ok tt)
    else (a, err totp_replay)

abbrev pub matches : Bytes → RecoveryCode → Bool
matches hash r = bytes_eq r.code_hash hash && not r.used

-- `UPDATE recovery_codes SET used_at = ...` and the number of rows that it affects.
unfoldable pub mark_used : Bytes → List RecoveryCode → List RecoveryCode
mark_used hash [] = []
mark_used hash (r ∷ rs) =
    (if matches hash r then record r { used = true } else r) ∷ mark_used hash rs

unfoldable pub count_matches : Bytes → List RecoveryCode → ℕ
count_matches hash [] = 0
count_matches hash (r ∷ rs) = (if matches hash r then 1 else 0) + count_matches hash rs

-- `ConsumeRecoveryCode`.
unfoldable pub consume_recovery_code : Account → Bytes → Account × Bool
consume_recovery_code a hash = (
  record a { recovery_codes = mark_used hash a.recovery_codes },
  count_matches hash a.recovery_codes == 1,
)

-- `CountUnusedRecoveryCodes`.
unfoldable pub count_unused : List RecoveryCode → ℕ
count_unused [] = 0
count_unused (r ∷ rs) = (if r.used then 0 else 1) + count_unused rs

-- `DisableTOTP`.
unfoldable pub disable_totp : Account → Account
disable_totp a = record a {
  totp_secret = none;
  totp_enabled = false;
  totp_confirmed = false;
  totp_last_step = 0;
  recovery_codes = [];
}

-- `RecoveryCodeHash`; SHA-256 is a parameter.
unfoldable pub recovery_code_hash : (Bytes → Bytes) → Bytes → Bytes
recovery_code_hash sha256 code = hex (sha256 code)

-- `verifySecondFactor`, for the secret that `GetTOTPState` has read and a time in seconds.
unfoldable pub verify_second_factor :
    Crypto → (Bytes → Bytes) → Account → Bytes → Bytes → ℕ → Account × Bool
verify_second_factor c sha256 a secret code now =
    if bytes_eq code [] then (a, false) else elim (validate_totp c secret code now) [
      | some step ↦
          let (after, answer) = consume_totp_step a step in
          elim answer [ ok _ ↦ (after, true) | err _ ↦ (after, false) ]
      | none ↦
          consume_recovery_code a
            (recovery_code_hash sha256 (normalize_recovery_code c.unicode code))
    ]
