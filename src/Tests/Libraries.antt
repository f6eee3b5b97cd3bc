-- ===== src/Tests/Libraries.antt =====
-- Stand-ins for the libraries of package auth, which keep what their documentation promises: tokens that
-- carry their claims in clear after the key, and a key derivation that pads the password.
use go_dark_web_crawler.Common.{
  ℕ, zero, suc, ◌+◌, ◌-◌, ◌*◌, ◌/◌, ◌≡◌, ◌∙◌, refl, ap, Bool, true, false, ◌&&◌, Option, none, some,
  List, [], ◌∷◌, arith, All, ltb, ◌==◌, length, map, if◌then◌else◌,
}
use go_dark_web_crawler.Common.Text.{Bytes, bytes_eq, bytes_eq_refl}
use go_dark_web_crawler.Auth.Tokens.{ℤ, pos, negsuc, Claims, ParserOptions, Jwt, hs256}
use go_dark_web_crawler.Auth.Tokens.Lifetime.{IsJwt, accepts}
use go_dark_web_crawler.Auth.Passwords.{Kdf}
use go_dark_web_crawler.Auth.Passwords.RoundTrip.{IsKdf}

abbrev put_number : ℤ → Bytes → Bytes
put_number (pos n) rest = 0 ∷ n ∷ rest
put_number (negsuc n) rest = 1 ∷ n ∷ rest

abbrev read_number : Bytes → ℤ × Bytes
read_number (zero ∷ n ∷ rest) = (pos n, rest)
read_number (suc k ∷ n ∷ rest) = (negsuc n, rest)
read_number rest = (pos 0, rest)

read-put_number : (n : ℤ) (rest : Bytes) → read_number (put_number n rest) ≡ (n, rest)
read-put_number (pos n) rest = refl
read-put_number (negsuc n) rest = refl

abbrev put_date : Option ℕ → Bytes → Bytes
put_date none rest = 0 ∷ rest
put_date (some n) rest = 1 ∷ n ∷ rest

abbrev read_date : Bytes → Option ℕ × Bytes
read_date (zero ∷ rest) = (none, rest)
read_date (suc k ∷ n ∷ rest) = (some n, rest)
read_date rest = (none, rest)

read-put_date : (n : Option ℕ) (rest : Bytes) → read_date (put_date n rest) ≡ (n, rest)
read-put_date none rest = refl
read-put_date (some n) rest = refl

-- A text ends with 0.
abbrev put_text : Bytes → Bytes → Bytes
put_text [] rest = 0 ∷ rest
put_text (c ∷ s) rest = suc c ∷ put_text s rest

abbrev read_text : Bytes → Bytes × Bytes
read_text [] = ([], [])
read_text (zero ∷ rest) = ([], rest)
read_text (suc c ∷ s) = let (t, rest) = read_text s in (c ∷ t, rest)

read-put_text : (t rest : Bytes) → read_text (put_text t rest) ≡ (t, rest)
read-put_text [] rest = refl
read-put_text (c ∷ s) rest = ap (λ r. (c ∷ r.0, r.1)) (read-put_text s rest)

-- Among several texts each ends with 1, and the last 1 is followed by 0.
abbrev put_item : Bytes → Bytes → Bytes
put_item [] rest = 1 ∷ rest
put_item (c ∷ s) rest = suc (suc c) ∷ put_item s rest

abbrev put_texts : List Bytes → Bytes → Bytes
put_texts [] rest = 0 ∷ rest
put_texts (t ∷ ts) rest = put_item t (put_texts ts rest)

abbrev onto_first : ℕ → List Bytes → List Bytes
onto_first c [] = []
onto_first c (t ∷ ts) = (c ∷ t) ∷ ts

abbrev read_texts : Bytes → List Bytes × Bytes
read_texts [] = ([], [])
read_texts (zero ∷ rest) = ([], rest)
read_texts (suc zero ∷ s) = let (ts, rest) = read_texts s in ([] ∷ ts, rest)
read_texts (suc (suc c) ∷ s) = let (ts, rest) = read_texts s in (onto_first c ts, rest)

read-put_item :
    (t s : Bytes) (ts : List Bytes) (rest : Bytes)
    → read_texts s ≡ (ts, rest)
    → read_texts (put_item t s) ≡ (t ∷ ts, rest)
read-put_item [] s ts rest e = ap (λ r. ([] ∷ r.0, r.1)) e
read-put_item (c ∷ t) s ts rest e = ap (λ r. (onto_first c r.0, r.1)) (read-put_item t s ts rest e)

read-put_texts : (ts : List Bytes) (rest : Bytes) → read_texts (put_texts ts rest) ≡ (ts, rest)
read-put_texts [] rest = refl
read-put_texts (t ∷ ts) rest = read-put_item t (put_texts ts rest) ts rest (read-put_texts ts rest)

abbrev put_claims : Claims → Bytes
put_claims c = put_number c.user_id (
    put_number c.token_version (
      put_date c.expires_at (
        put_date c.issued_at (
          put_date c.not_before
            (put_text c.session_id (put_text c.issuer (put_texts c.audience [])))))))

abbrev read_claims : Bytes → Claims
read_claims s =
    let (user, s1) = read_number s in
    let (version, s2) = read_number s1 in
    let (expires, s3) = read_date s2 in
    let (issued, s4) = read_date s3 in
    let (begins, s5) = read_date s4 in
    let (session, s6) = read_text s5 in
    let (issuer, s7) = read_text s6 in
    record {
      user_id = user;
      token_version = version;
      session_id = session;
      issuer = issuer;
      audience = (read_texts s7).0;
      expires_at = expires;
      issued_at = issued;
      not_before = begins;
    }

read-put_claims : (c : Claims) → read_claims (put_claims c) ≡ c
read-put_claims c =
    rw
      (
        read-put_number c.user_id,
        read-put_number c.token_version,
        read-put_date c.expires_at,
        read-put_date c.issued_at,
        read-put_date c.not_before,
        read-put_text c.session_id,
        read-put_text c.issuer,
        read-put_texts c.audience,
      )
      refl

abbrev read_token : Bytes → Bytes × Claims
read_token token = let (key, body) = read_text token in (key, read_claims body)

abbrev check_token :
    ParserOptions → (Bytes → Option Bytes) → ℕ → Bytes × Claims → Option (Claims × Bool)
check_token o keys now (key, c) = elim (keys hs256) [
  | none ↦ none
  | some secret ↦ if bytes_eq key secret && accepts o now c then some (c, true) else none
]

abbrev pub jwt : Jwt
jwt = record {
  numeric_date = λ t. (t / 1_000_000) * 1_000_000;
  sign = λ secret c. put_text secret (put_claims c);
  parse = λ o keys now token. check_token o keys now (read_token token);
}

read-put_token :
    (secret : Bytes) (c : Claims) → read_token (put_text secret (put_claims c)) ≡ (secret, c)
read-put_token secret c =
    ap (λ r. (r.0, read_claims r.1)) (read-put_text secret (put_claims c))
    ∙ ap (λ x. (secret, x)) (read-put_claims c)

parses :
    (o : ParserOptions) (keys : Bytes → Option Bytes) (now : ℕ) (secret : Bytes) (c : Claims)
    → keys hs256 ≡ some secret
    → check_token o keys now (read_token (put_text secret (put_claims c)))
      ≡ (if accepts o now c then some (c, true) else none)
parses o keys now secret c e =
    ap (check_token o keys now) (read-put_token secret c)
    ∙ rw (check_token, e) (rw (bytes_eq_refl secret) refl)

pub jwt-IsJwt : IsJwt jwt
jwt-IsJwt = record { whole_seconds = λ t. refl; parses_signed = parses }

-- No text that is encoded holds a dollar sign, 36.
abbrev spell : ℕ → ℕ
spell c = if ltb c 36 then c else c + 1

abbrev unspell : ℕ → ℕ
unspell c = if ltb c 36 then c else c - 1

unspell-spell : (c : ℕ) → unspell (spell c) ≡ c
unspell-spell c = ground arith

unspell_all : (s : Bytes) → map unspell (map spell s) ≡ s
unspell_all [] = refl
unspell_all (c ∷ s) = rw (unspell-spell c, unspell_all s) refl

no_dollar_in : (s : Bytes) → All (λ c. (c == 36) ≡ false) (map spell s)
no_dollar_in [] = tt
no_dollar_in (c ∷ s) = (ground arith, no_dollar_in s)

abbrev padded : ℕ → Bytes → Bytes
padded zero s = []
padded (suc n) [] = 0 ∷ padded n []
padded (suc n) (c ∷ s) = c ∷ padded n s

length-padded : (n : ℕ) (s : Bytes) → length (padded n s) ≡ n
length-padded zero s = refl
length-padded (suc n) [] = omega (arith, length-padded n [])
length-padded (suc n) (c ∷ s) = omega (arith, length-padded n s)

abbrev pub kdf : Kdf
kdf = record {
  id_key = λ password salt time memory threads n. padded n password;
  bcrypt_matches = λ hash password. false;
  base64_encode = λ s. map spell s;
  base64_decode = λ s. some (map unspell s);
  scan_version = λ s. some 19;
  scan_params = λ s. some (65536, (3, 4));
}

pub kdf-IsKdf : IsKdf kdf
kdf-IsKdf = record {
  decode_encode = λ s. ap some (unspell_all s);
  no_dollar = no_dollar_in;
  scans_version = refl;
  scans_params = refl;
  key_length = λ password salt t m p n. length-padded n password;
}
