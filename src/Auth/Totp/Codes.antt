-- ===== src/Auth/Totp/Codes.antt =====
-- The window of `ValidateTOTP`: exactly the codes of the three steps around now.
use go_dark_web_crawler.Common.{
  ℕ, ◌+◌, ◌-◌, ◌/◌, ◌≤◌, ◌≡◌, refl, sym, true, false, not, ◌||◌, none, some, List, [], ◌∷◌, ltb,
  ◌==◌, length, All, arith, Bool-cases, Option-cases, ◌⊎◌, subst, inl, inr, if◌then◌else◌,
}
use go_dark_web_crawler.Common.Text.{
  Bytes, bytes_eq, bytes_eq_iff, bytes_eq_refl, Unicode, trim_space, lower_byte,
}
use go_dark_web_crawler.Common.Plain.{IsPlain, trim_space-plain}
use go_dark_web_crawler.Auth.Totp.{
  Crypto, totp_period, totp_digits, six_digits, totp_code, decode_totp_secret, generate_totp_code,
  all_digits, digit, offered, first_match, validate_totp,
}

length-totp_code :
    (c : Crypto) (key : Bytes) (counter : ℕ) → length (totp_code c key counter) ≡ totp_digits
unfolding totp_code six_digits
length-totp_code c key counter = refl

digit_lem : (n : ℕ) → (48 ≤ digit n) × (digit n ≤ 57)
unfolding digit
digit_lem n = (omega arith, omega arith)

digit-IsPlain : (n : ℕ) → IsPlain (digit n)
unfolding lower_byte
digit-IsPlain n =
    (omega (arith, digit_lem n), omega (arith, digit_lem n), ground (arith, digit_lem n))

all_digits-six_digits : (v : ℕ) → all_digits (six_digits v) ≡ true
unfolding all_digits six_digits
all_digits-six_digits v = ground (
  arith,
  digit_lem (v / 100_000),
  digit_lem (v / 10_000),
  digit_lem (v / 1_000),
  digit_lem (v / 100),
  digit_lem (v / 10),
  digit_lem v,
)

trim_space-six_digits : (u : Unicode) (v : ℕ) → trim_space u (six_digits v) ≡ six_digits v
unfolding six_digits
trim_space-six_digits u v = trim_space-plain u _ (
  digit-IsPlain (v / 100_000),
  (
    digit-IsPlain (v / 10_000),
    (
      digit-IsPlain (v / 1_000),
      (digit-IsPlain (v / 100), (digit-IsPlain (v / 10), (digit-IsPlain v, tt))),
    ),
  ),
)

first_match-hit :
    (c : Crypto) (key code : Bytes) (steps : List ℕ) (step : ℕ)
    → first_match c key code steps ≡ some step
    → totp_code c key step ≡ code
unfolding first_match
first_match-hit c key code [] step e = absurd (cc e)
first_match-hit c key code (s ∷ steps) step e =
    ground (arith, first_match-hit c key code steps step, bytes_eq_iff (totp_code c key s) code)

-- One step around the counter.
abbrev pub IsNear : ℕ → ℕ → Type 0
IsNear counter step = (counter ≤ step + 1) × (step ≤ counter + 1)

first_match-IsNear :
    (c : Crypto) (key code : Bytes) (counter step : ℕ)
    → first_match c key code (offered counter) ≡ some step
    → IsNear counter step
unfolding first_match offered
first_match-IsNear c key code counter step e = ground arith

-- A step of the list that has the code is never passed over for nothing.
first_match-miss :
    (c : Crypto) (key code : Bytes) (steps : List ℕ)
    → first_match c key code steps ≡ none
    → All (λ s. bytes_eq (totp_code c key s) code ≡ false) steps
unfolding first_match
first_match-miss c key code [] e = tt
first_match-miss c key code (s ∷ steps) e = ground (arith, first_match-miss c key code steps)

near_cases :
    (counter step : ℕ)
    → IsNear counter step
    → (step ≡ counter) ⊎ ((step ≡ counter + 1) ⊎ ((step ≡ counter - 1) × (ltb counter 1 ≡ false)))
near_cases counter step near = ground arith

offered_near :
    (P : ℕ → Type 0) (counter step : ℕ) → IsNear counter step → All P (offered counter) → P step
unfolding offered
offered_near P counter step near h = elim (Bool-cases (ltb counter 1)) [
  | inl first ↦
      let two = rw first at h in
      elim (near_cases counter step near) [
        | inl e ↦ rw e two.0
        | inr (inl e) ↦ rw e two.1.0
        | inr (inr (e, later)) ↦ absurd (cc (first, later))
      ]
  | inr later ↦
      let three = rw later at h in
      elim (near_cases counter step near) [
        | inl e ↦ rw e three.1.0
        | inr (inl e) ↦ rw e three.1.1.0
        | inr (inr (e, still)) ↦ rw e three.0
      ]
]

first_match-found :
    (c : Crypto) (key code : Bytes) (counter step : ℕ)
    → IsNear counter step
    → totp_code c key step ≡ code
    → (found : ℕ) × (first_match c key code (offered counter) ≡ some found)
first_match-found c key code counter step near hit =
    elim (Option-cases (first_match c key code (offered counter))) [
      | inr found ↦ found
      | inl gone ↦
          let misses =
            offered_near (λ k. bytes_eq (totp_code c key k) code ≡ false) counter step near
              (first_match-miss c key code (offered counter) gone) in
          absurd (cc (rw (hit, bytes_eq_refl code) at misses))
    ]

-- A code that `ValidateTOTP` accepts is the code, under the account's key, of the step that it returns,
-- which is one of the three steps around now.
pub validate_totp_window :
    (c : Crypto) (secret typed : Bytes) (now step : ℕ)
    → validate_totp c secret typed now ≡ some step
    → (key : Bytes) × ((decode_totp_secret c secret ≡ some key)
        × ((totp_code c key step ≡ trim_space c.unicode typed) × IsNear (now / totp_period) step))
unfolding validate_totp
validate_totp_window c secret typed now step e =
    let code = trim_space c.unicode typed in
    elim (Bool-cases (not (length code == totp_digits) || not (all_digits code))) [
      | inl bad ↦ absurd (cc (rw (bad, validate_totp) at e))
      | inr good ↦ elim (Option-cases (decode_totp_secret c secret)) [
        | inl gone ↦ absurd (cc (rw (good, gone, validate_totp) at e))
        | inr (key, decoded) ↦
            let hit = rw (good, decoded, validate_totp) at e in
            (
              key,
              (
                decoded,
                (
                  first_match-hit c key code (offered (now / totp_period)) step hit,
                  first_match-IsNear c key code (now / totp_period) step hit,
                ),
              ),
            )
      ]
    ]

trim_space-totp_code :
    (u : Unicode) (c : Crypto) (key : Bytes) (k : ℕ)
    → trim_space u (totp_code c key k) ≡ totp_code c key k
unfolding totp_code
trim_space-totp_code u c key k = trim_space-six_digits u _

all_digits-totp_code : (c : Crypto) (key : Bytes) (k : ℕ) → all_digits (totp_code c key k) ≡ true
unfolding totp_code
all_digits-totp_code c key k = all_digits-six_digits _

shape :
    (c : Crypto) (key : Bytes) (k : ℕ)
    → (not (length (totp_code c key k) == totp_digits) || not (all_digits (totp_code c key k)))
      ≡ false
shape c key k = rw (length-totp_code c key k, all_digits-totp_code c key k) refl

code_shape :
    (c : Crypto) (key : Bytes) (k : ℕ) (code : Bytes)
    → totp_code c key k ≡ code
    → (trim_space c.unicode code ≡ code)
      × ((not (length code == totp_digits) || not (all_digits code)) ≡ false)
code_shape c key k code e =
    subst
      (λ x.
        (trim_space c.unicode x ≡ x)
        × ((not (length x == totp_digits) || not (all_digits x)) ≡ false))
      e (trim_space-totp_code c.unicode c key k, shape c key k)

accept :
    (c : Crypto) (secret key code : Bytes) (now step : ℕ)
    → decode_totp_secret c secret ≡ some key
    → trim_space c.unicode code ≡ code
    → (not (length code == totp_digits) || not (all_digits code)) ≡ false
    → first_match c key code (offered (now / totp_period)) ≡ some step
    → validate_totp c secret code now ≡ some step
unfolding validate_totp
accept c secret key code now step decoded same well hit =
    subst
      (λ x.
        (if not (length x == totp_digits) || not (all_digits x)
          then none
          else elim (decode_totp_secret c secret) [
            | none ↦ none
            | some k ↦ first_match c k x (offered (now / totp_period))
          ])
        ≡ some step)
      (sym same) (rw (well, decoded) hit)

-- What an authenticator shows is accepted in its own period, the one before and the one after.
generated_accepted :
    (c : Crypto) (secret code : Bytes) (at now : ℕ)
    → generate_totp_code c secret at ≡ some code
    → IsNear (now / totp_period) (at / totp_period)
    → (step : ℕ) × (validate_totp c secret code now ≡ some step)
unfolding generate_totp_code
generated_accepted c secret code at now e near = elim (Option-cases (decode_totp_secret c secret)) [
  | inl gone ↦ absurd (cc (rw (gone, generate_totp_code) at e))
  | inr (key, decoded) ↦
      let shown : totp_code c key (at / totp_period) ≡ code =
        cc (rw (decoded, generate_totp_code) at e) in
      let (found, hit) =
        first_match-found c key code (now / totp_period) (at / totp_period) near shown in
      let (same, well) = code_shape c key (at / totp_period) code shown in
      (found, accept c secret key code now found decoded same well hit)
]
