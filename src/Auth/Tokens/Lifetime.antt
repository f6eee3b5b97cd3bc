-- ===== src/Auth/Tokens/Lifetime.antt =====
-- A token is accepted from its issue to its expiry.
use go_dark_web_crawler.Common.{
  ℕ, ◌+◌, ◌*◌, ◌/◌, ◌≤◌, ◌<◌, ◌≡◌, refl, Bool, true, false, not, ◌&&◌, ◌||◌, Option, none, some,
  List, [], ◌∷◌, arith, ltb, leb, ◌==◌, if◌then◌else◌,
}
use go_dark_web_crawler.Common.Text.{Bytes, bytes_eq, bytes_eq_refl}
use go_dark_web_crawler.Auth.Tokens.{
  token_ttl, token_issuer, token_audience, Claims, is_positive, is_negative, ClaimsError,
  lives_too_long, validate, ParserOptions, parser_options, Jwt, hs256, issued_claims,
  generate_token, key_for, validate_token,
}

-- Package jwt on the registered claims: exp, iat, nbf with the leeway, iss and aud.
abbrev pub is_member : Bytes → List Bytes → Bool
is_member x [] = false
is_member x (y ∷ ys) = bytes_eq x y || is_member x ys

abbrev pub not_expired : ParserOptions → ℕ → Option ℕ → Bool
not_expired o now none = not o.expiration_required
not_expired o now (some t) = ltb now (t + o.leeway)

abbrev pub has_begun : ParserOptions → ℕ → Option ℕ → Bool
has_begun o now none = true
has_begun o now (some t) = leb t (now + o.leeway)

abbrev pub no_error : Option ClaimsError → Bool
no_error none = true
no_error (some e) = false

abbrev pub accepts : ParserOptions → ℕ → Claims → Bool
accepts o now c =
    is_member hs256 o.valid_methods
    && not_expired o now c.expires_at
    && (not o.verify_issued_at || has_begun o now c.issued_at)
    && has_begun o now c.not_before
    && bytes_eq c.issuer o.expected_issuer
    && is_member o.expected_audience c.audience
    && no_error (o.validator c)

-- What the documentation of package jwt promises of a token that it signed with HS256, and of its dates,
-- which are whole seconds.
pub record IsJwt (j : Jwt) : Type 0 where
  pub whole_seconds : (t : ℕ) → j.numeric_date t ≡ (t / 1_000_000) * 1_000_000
  pub parses_signed :
      (o : ParserOptions) (keys : Bytes → Option Bytes) (now : ℕ) (secret : Bytes) (c : Claims)
      → keys hs256 ≡ some secret
      → j.parse o keys now (j.sign secret c) ≡ (if accepts o now c then some (c, true) else none)

-- The expiry is four hours after the issue, in whole seconds.
date_add :
    (t : ℕ) → ((t + token_ttl) / 1_000_000) * 1_000_000 ≡ (t / 1_000_000) * 1_000_000 + token_ttl
date_add t = omega arith

date_le :
    (t : ℕ) → ((t / 1_000_000) * 1_000_000 ≤ t) × (t < (t / 1_000_000) * 1_000_000 + 1_000_000)
date_le t = (omega arith, omega arith)

issued-validate :
    (j : Jwt) (now user version : ℕ) (session : Bytes)
    → IsJwt j
    → 0 < user
    → validate (issued_claims j now user version session) ≡ none
unfolding validate issued_claims is_positive is_negative lives_too_long
issued-validate j now user version session lib h =
    let positive : (user == 0) ≡ false = ground arith in
    let short : ltb (j.numeric_date now + token_ttl) (j.numeric_date (now + token_ttl)) ≡ false =
      rw (lib.whole_seconds now, lib.whole_seconds (now + token_ttl), date_add now)
        (ground arith) in
    rw positive (rw short refl)

and_true : (b : Bool) → (b && true && true && true && true && true) ≡ b
and_true b = ground arith

issued-accepts :
    (j : Jwt) (t now user version : ℕ) (session : Bytes)
    → IsJwt j
    → 0 < user
    → t ≤ now
    → accepts parser_options now (issued_claims j t user version session)
      ≡ ltb now (j.numeric_date (t + token_ttl) + 30 * 1_000_000)
unfolding issued_claims
issued-accepts j t now user version session lib h later =
    let begun : leb (j.numeric_date t) (now + 30 * 1_000_000) ≡ true =
      rw (lib.whole_seconds t) (ground (arith, date_le t)) in
    rw
      (
        begun,
        bytes_eq_refl hs256,
        bytes_eq_refl token_issuer,
        bytes_eq_refl token_audience,
        issued-validate j t user version session lib h,
      )
      (and_true (ltb now (j.numeric_date (t + token_ttl) + 30 * 1_000_000)))

-- A token that the server issued for an account at a time is accepted, with the account, the token version
-- and the session that it was issued for, at every moment of the four hours that follow, and at none that
-- is four hours and thirty seconds later or more.
pub issued_token-validate :
    (j : Jwt) (secret : Bytes) (t now user version : ℕ) (session : Bytes)
    → IsJwt j
    → 0 < user
    → t ≤ now
    → let answer = validate_token j secret now (generate_token j secret t user version session) in
      (now < t + 4 * 3600 * 1_000_000 → answer ≡ some (issued_claims j t user version session))
      × (t + (4 * 3600 + 30) * 1_000_000 ≤ now → answer ≡ none)
unfolding validate_token generate_token key_for
issued_token-validate j secret t now user version session lib h later =
    let parsed =
      lib.parses_signed parser_options (key_for secret) now secret
        (issued_claims j t user version session) (rw (bytes_eq_refl hs256, key_for) refl) in
    let accepted = issued-accepts j t now user version session lib h later in
    let bounds = date_le (t + token_ttl) in
    (
      λ early.
          let e : ltb now (j.numeric_date (t + token_ttl) + 30 * 1_000_000) ≡ true =
            rw (lib.whole_seconds (t + token_ttl)) (ground (arith, bounds)) in
          rw (parsed, accepted, e, validate_token) refl,
      λ late.
          let e : ltb now (j.numeric_date (t + token_ttl) + 30 * 1_000_000) ≡ false =
            rw (lib.whole_seconds (t + token_ttl)) (ground (arith, bounds)) in
          rw (parsed, accepted, e, validate_token) refl,
    )
