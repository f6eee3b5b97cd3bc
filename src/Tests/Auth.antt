-- ===== src/Tests/Auth.antt =====
-- One-time passwords and the second factor.
use go_dark_web_crawler.Common.{
  ℕ, ◌+◌, ◌/◌, ◌≤◌, ◌≡◌, refl, Bool, true, false, Option, none, some, List, [], ◌∷◌, arith,
}
use go_dark_web_crawler.Common.Text.{Bytes, codes, no_tables, trim_space}
use go_dark_web_crawler.Auth.Totp.{
  Crypto, totp_period, totp_code, decode_totp_secret, generate_totp_code, validate_totp,
}
use go_dark_web_crawler.Auth.Totp.Codes.{IsNear, validate_totp_window}
use go_dark_web_crawler.Auth.SecondFactor.{
  disable_totp, verify_second_factor, Account, consume_recovery_code, count_unused,
}
use go_dark_web_crawler.Auth.SecondFactor.Replay.{
  Attempt, Event, attempting, staging, passed_step, replay_after_disable, passed_steps, Rising,
  passed_steps-Rising, recovery_code_once,
}
use go_dark_web_crawler.Tests.World.{zeros}

-- A stand-in for HMAC-SHA1 that gives every step of a key the same sum.
abbrev crypto : Crypto
crypto = record { unicode = no_tables; hmac_sha1 = λ k m. zeros 20; base32_decode = λ s. some s }

abbrev code : Bytes
code = codes "000000"

accepts : validate_totp crypto (codes "K") code 60 ≡ some 1
unfolding validate_totp trim_space go_dark_web_crawler.Auth.Totp.all_digits decode_totp_secret
    go_dark_web_crawler.Auth.Totp.trim_padding go_dark_web_crawler.Common.Text.to_upper
    go_dark_web_crawler.Auth.Totp.drop_spaces go_dark_web_crawler.Auth.Totp.drop_padding
    go_dark_web_crawler.Auth.Totp.first_match go_dark_web_crawler.Auth.Totp.offered
    go_dark_web_crawler.Common.Text.bytes_eq totp_code go_dark_web_crawler.Auth.Totp.six_digits
    go_dark_web_crawler.Auth.Totp.digit go_dark_web_crawler.Auth.Totp.uint32_at
accepts = refl

validate_totp_window_example :
    (key : Bytes) × ((decode_totp_secret crypto (codes "K") ≡ some key)
      × ((totp_code crypto key 1 ≡ trim_space crypto.unicode code) × IsNear (60 / totp_period) 1))
validate_totp_window_example = validate_totp_window crypto (codes "K") code 60 1 accepts

abbrev account : Account
account = record {
  totp_secret = some (codes "K");
  totp_enabled = true;
  totp_confirmed = true;
  totp_last_step = 0;
  recovery_codes =
      record { code_hash = codes "r"; used = false }
      ∷ record { code_hash = codes "q"; used = true }
      ∷ [];
}

abbrev attempt : ℕ → Attempt
attempt now = record { secret = codes "K"; typed = code; at = now }

abbrev attempts : List Event
attempts =
    attempting (attempt 60)
    ∷ attempting (attempt 61)
    ∷ staging (codes "L")
    ∷ attempting (attempt 120)
    ∷ []

passed_steps-Rising_example :
    Rising account.totp_last_step (passed_steps crypto (λ s. s) account attempts)
passed_steps-Rising_example = passed_steps-Rising crypto (λ s. s) account attempts

first_passed : passed_step crypto (λ s. s) account (attempt 60) ≡ some 1
unfolding passed_step verify_second_factor go_dark_web_crawler.Common.Text.bytes_eq validate_totp
    trim_space go_dark_web_crawler.Auth.Totp.all_digits decode_totp_secret
    go_dark_web_crawler.Auth.Totp.trim_padding go_dark_web_crawler.Common.Text.to_upper
    go_dark_web_crawler.Auth.Totp.drop_spaces go_dark_web_crawler.Auth.Totp.drop_padding
    go_dark_web_crawler.Auth.Totp.first_match go_dark_web_crawler.Auth.Totp.offered totp_code
    go_dark_web_crawler.Auth.Totp.six_digits go_dark_web_crawler.Auth.Totp.digit
    go_dark_web_crawler.Auth.Totp.uint32_at go_dark_web_crawler.Auth.SecondFactor.consume_totp_step
first_passed = refl

replay_after_disable_example :
    passed_step crypto
      (λ s. s)
      (disable_totp (verify_second_factor crypto (λ s. s) account (codes "K") code 60).0)
      (attempt 60)
    ≡ some 1
replay_after_disable_example =
    replay_after_disable crypto (λ s. s) account (attempt 60) 1 first_passed

redeemed : (consume_recovery_code account (codes "r")).1 ≡ true
unfolding consume_recovery_code go_dark_web_crawler.Auth.SecondFactor.count_matches
    go_dark_web_crawler.Common.Text.bytes_eq
redeemed = refl

recovery_code_once_example :
    (count_unused (consume_recovery_code account (codes "r")).0.recovery_codes + 1
      ≡ count_unused account.recovery_codes)
    × ((consume_recovery_code (consume_recovery_code account (codes "r")).0 (codes "r")).1 ≡ false)
recovery_code_once_example = recovery_code_once account (codes "r") redeemed
