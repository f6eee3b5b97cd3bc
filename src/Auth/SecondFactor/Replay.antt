-- ===== src/Auth/SecondFactor/Replay.antt =====
-- No credential of the second factor counts twice.
use go_dark_web_crawler.Common.{
  ℕ, ◌+◌, ◌≤◌, ◌<◌, ◌≡◌, refl, subst, Bool, true, false, Option, none, some, List, [], ◌∷◌, ltb,
  arith, Bool-cases, Option-cases, inl, inr, if◌then◌else◌,
}
use go_dark_web_crawler.Common.Text.{Bytes, bytes_eq}
use go_dark_web_crawler.Auth.Totp.{Crypto, validate_totp}
use go_dark_web_crawler.Auth.SecondFactor.{
  Account, RecoveryCode, consume_totp_step, consume_recovery_code, count_unused, mark_used,
  count_matches, verify_second_factor, stage_totp_secret, disable_totp,
}

-- One attempt: the secret that the request has read, what was typed, and when.
pub record Attempt : Type 0 where
  pub secret : Bytes
  pub typed : Bytes
  pub at : ℕ

-- The step of a passed attempt that used a one-time password.
unfoldable pub passed_step : Crypto → (Bytes → Bytes) → Account → Attempt → Option ℕ
passed_step c sha256 a t =
    if (verify_second_factor c sha256 a t.secret t.typed t.at).1
    then validate_totp c t.secret t.typed t.at
    else none

-- What happens to the second factor between its enrolment and its end: attempts, and enrolments that are
-- staged, which the statement refuses while the factor is enabled.
pub data Event : Type 0 where
  attempting : Attempt → Event
  staging : Bytes → Event

unfoldable pub passed_steps : Crypto → (Bytes → Bytes) → Account → List Event → List ℕ
passed_steps c sha256 a [] = []
passed_steps c sha256 a (attempting t ∷ es) =
    let rest = passed_steps c sha256 (verify_second_factor c sha256 a t.secret t.typed t.at).0 es in
    elim (passed_step c sha256 a t) [ none ↦ rest | some step ↦ step ∷ rest ]
passed_steps c sha256 a (staging secret ∷ es) =
    passed_steps c sha256 (stage_totp_secret a secret).0 es

-- Each number is above the one before it, the first above the bound.
abbrev pub Rising : ℕ → List ℕ → Type 0
Rising low [] = Unit
Rising low (n ∷ ns) = (low < n) × Rising n ns

no_step : {step : ℕ} (b : Bool) → ¬ ((if b then none else none) ≡ some step)
no_step true e = cc e
no_step false e = cc e

step_passed :
    (c : Crypto) (sha256 : Bytes → Bytes) (a : Account) (t : Attempt) (step : ℕ)
    → passed_step c sha256 a t ≡ some step
    → (a.totp_last_step < step)
      × ((verify_second_factor c sha256 a t.secret t.typed t.at).0.totp_last_step ≡ step)
unfolding passed_step verify_second_factor consume_totp_step
step_passed c sha256 a t step e = elim (Bool-cases (bytes_eq t.typed [])) [
  | inl bare ↦ absurd (cc (rw (bare, verify_second_factor, passed_step) at e))
  | inr typed ↦ elim (Option-cases (validate_totp c t.secret t.typed t.at)) [
    | inl gone ↦ absurd (no_step _ (rw (typed, gone, verify_second_factor, passed_step) at e))
    | inr (k, found) ↦ elim (Bool-cases (ltb a.totp_last_step k)) [
      | inl newer ↦
          let same : k ≡ step =
            cc (
              rw (typed, found, newer, verify_second_factor, passed_step, consume_totp_step) at
                e) in
          (
            ground (arith, same),
            rw (typed, found, newer, verify_second_factor, consume_totp_step)
                (rw (newer, consume_totp_step) same),
          )
      | inr older ↦
          absurd (
            cc
              (rw (typed, found, older, verify_second_factor, passed_step, consume_totp_step) at e))
    ]
  ]
]

step_kept :
    (c : Crypto) (sha256 : Bytes → Bytes) (a : Account) (t : Attempt)
    → passed_step c sha256 a t ≡ none
    → a.totp_last_step ≤ (verify_second_factor c sha256 a t.secret t.typed t.at).0.totp_last_step
unfolding passed_step verify_second_factor consume_totp_step consume_recovery_code
step_kept c sha256 a t e = elim (Bool-cases (bytes_eq t.typed [])) [
  | inl bare ↦ rw (bare, verify_second_factor) (omega arith)
  | inr typed ↦ elim (Option-cases (validate_totp c t.secret t.typed t.at)) [
    | inl gone ↦ rw (typed, gone, verify_second_factor) (omega arith)
    | inr (k, found) ↦ elim (Bool-cases (ltb a.totp_last_step k)) [
      | inl newer ↦ rw (typed, found, newer, verify_second_factor, consume_totp_step) (ground arith)
      | inr older ↦ rw (typed, found, older, verify_second_factor, consume_totp_step) (ground arith)
    ]
  ]
]

Rising-lower : (low mid : ℕ) (ns : List ℕ) → low ≤ mid → Rising mid ns → Rising low ns
Rising-lower low mid [] h r = tt
Rising-lower low mid (n ∷ ns) h r = (omega arith, r.1)

-- What a passed password says of the code, and that it passes an account whose last step is 0.
passed_valid :
    (c : Crypto) (sha256 : Bytes → Bytes) (a : Account) (t : Attempt) (step : ℕ)
    → passed_step c sha256 a t ≡ some step
    → (bytes_eq t.typed [] ≡ false) × (validate_totp c t.secret t.typed t.at ≡ some step)
unfolding passed_step verify_second_factor
passed_valid c sha256 a t step e = elim (Bool-cases (bytes_eq t.typed [])) [
  | inl bare ↦ absurd (cc (rw (bare, verify_second_factor, passed_step) at e))
  | inr typed ↦ (
    typed,
    elim (Bool-cases (verify_second_factor c sha256 a t.secret t.typed t.at).1) [
      | inl on ↦ rw (on, passed_step) at e
      | inr off ↦ absurd (cc (rw (off, passed_step) at e))
    ],
  )
]

passes_from_zero :
    (c : Crypto) (sha256 : Bytes → Bytes) (a : Account) (t : Attempt) (step : ℕ)
    → a.totp_last_step ≡ 0
    → (bytes_eq t.typed [] ≡ false) × (validate_totp c t.secret t.typed t.at ≡ some step)
    → 0 < step
    → passed_step c sha256 a t ≡ some step
unfolding passed_step verify_second_factor consume_totp_step
passes_from_zero c sha256 a t step low (typed, valid) above =
    let newer : ltb a.totp_last_step step ≡ true = ground arith in
    rw (typed, valid, passed_step, verify_second_factor) (rw (newer, consume_totp_step) refl)

staged_step :
    (a : Account) (secret : Bytes)
    → (stage_totp_secret a secret).0.totp_last_step ≡ a.totp_last_step
unfolding stage_totp_secret
staged_step a secret = elim (Bool-cases a.totp_enabled) [
  | inl e ↦ simp e refl
  | inr e ↦ simp e refl
]

-- The steps of the passwords that pass rise, in any sequence of attempts and of enrolments that are staged:
-- none passes twice, and after one no older one passes. An attempt may be for any secret, such as one that was
-- read before another was staged. No enrolment is confirmed in between and the factor is not disabled, which
-- set the last step anew.
pub passed_steps-Rising :
    (c : Crypto) (sha256 : Bytes → Bytes) (a : Account) (es : List Event)
    → Rising a.totp_last_step (passed_steps c sha256 a es)
unfolding passed_steps
passed_steps-Rising c sha256 a [] = tt
passed_steps-Rising c sha256 a (attempting t ∷ es) =
    let b = (verify_second_factor c sha256 a t.secret t.typed t.at).0 in
    let rest = passed_steps-Rising c sha256 b es in
    elim (Option-cases (passed_step c sha256 a t)) [
      | inl e ↦ rw (e, passed_steps) (Rising-lower _ _ _ (step_kept c sha256 a t e) rest)
      | inr (step, e) ↦
          let (above, same) = step_passed c sha256 a t step e in
          rw (e, passed_steps) (above, subst (λ x. Rising x (passed_steps c sha256 b es)) same rest)
    ]
passed_steps-Rising c sha256 a (staging secret ∷ es) =
    let b = (stage_totp_secret a secret).0 in
    subst (λ x. Rising x (passed_steps c sha256 b es)) (staged_step a secret)
      (passed_steps-Rising c sha256 b es)

-- A password that has passed passes again once the second factor was disabled, for a request that had read
-- the state before: the last step is 0 again.
pub replay_after_disable :
    (c : Crypto) (sha256 : Bytes → Bytes) (a : Account) (t : Attempt) (step : ℕ)
    → passed_step c sha256 a t ≡ some step
    → passed_step c sha256
        (disable_totp (verify_second_factor c sha256 a t.secret t.typed t.at).0)
        t
      ≡ some step
unfolding disable_totp
replay_after_disable c sha256 a t step e =
    passes_from_zero c sha256
      (disable_totp (verify_second_factor c sha256 a t.secret t.typed t.at).0) t step refl
      (passed_valid c sha256 a t step e) (omega (arith, (step_passed c sha256 a t step e).0))

marked_gone : (hash : Bytes) (rs : List RecoveryCode) → count_matches hash (mark_used hash rs) ≡ 0
unfolding count_matches mark_used
marked_gone hash [] = refl
marked_gone hash (r ∷ rs) = ground (arith, marked_gone hash rs)

marked_count :
    (hash : Bytes) (rs : List RecoveryCode)
    → count_unused (mark_used hash rs) + count_matches hash rs ≡ count_unused rs
unfolding count_matches mark_used count_unused
marked_count hash [] = refl
marked_count hash (r ∷ rs) = ground (arith, marked_count hash rs)

-- A recovery code that passes was unused, and does not pass again.
pub recovery_code_once :
    (a : Account) (hash : Bytes)
    → (consume_recovery_code a hash).1 ≡ true
    → (count_unused (consume_recovery_code a hash).0.recovery_codes + 1
        ≡ count_unused a.recovery_codes)
      × ((consume_recovery_code (consume_recovery_code a hash).0 hash).1 ≡ false)
unfolding consume_recovery_code
recovery_code_once a hash passed =
    let none_left = marked_gone hash a.recovery_codes in
    let one : count_matches hash a.recovery_codes ≡ 1 = ground arith in
    (omega (arith, marked_count hash a.recovery_codes), rw none_left refl)
