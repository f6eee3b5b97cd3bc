-- ===== src/Auth/Passwords/RoundTrip.antt =====
-- What is hashed can be checked.
use go_dark_web_crawler.Common.{
  ℕ, ◌≤◌, ◌≡◌, refl, true, false, not, ◌&&◌, some, arith, All, length, leb, ltb, ◌==◌, Bool-cases,
  inl, inr,
}
use go_dark_web_crawler.Common.Text.{
  Bytes, bytes_eq, codes, has_prefix, split_on, split_on-append, split_on-last,
}
use go_dark_web_crawler.Auth.Passwords.{
  Kdf, argon_time, argon_memory, argon_threads, argon_key_len, max_password_len, hashed, phc_string,
  hash_password, ArgonParams, parse_digest, parse_fields, parse_parts, parse_argon2id,
  check_argon2id, check_password_hash, needs_rehash,
}

-- What the documentation of the libraries promises.
pub record IsKdf (k : Kdf) : Type 0 where
  pub decode_encode : (s : Bytes) → k.base64_decode (k.base64_encode s) ≡ some s
  pub no_dollar : (s : Bytes) → All (λ c. (c == 36) ≡ false) (k.base64_encode s)
  pub scans_version : k.scan_version (codes "v=19") ≡ some 19
  pub scans_params : k.scan_params (codes "m=65536,t=3,p=4") ≡ some (argon_memory, (3, 4))
  pub key_length :
      (password salt : Bytes) (t m p n : ℕ) → length (k.id_key password salt t m p n) ≡ n

abbrev pub current : ArgonParams
current = record { memory = argon_memory; time = argon_time; threads = argon_threads }

leb-not-ltb : (m n : ℕ) → leb m n ≡ not (ltb n m)
leb-not-ltb m n = ground arith

module _ (k : Kdf) (lib : IsKdf k) where
  parse-phc_string :
      (salt key : Bytes)
      → (length salt == 0) ≡ false
      → (length key == 0) ≡ false
      → parse_argon2id k (phc_string k salt key) ≡ some (current, (salt, key))
  unfolding parse_argon2id phc_string split_on parse_parts parse_fields parse_digest bytes_eq
  parse-phc_string salt key hs hk =
      rw
        (
          split_on-append 36 (k.base64_encode salt) (k.base64_encode key) (lib.no_dollar salt),
          split_on-last 36 (k.base64_encode key) (lib.no_dollar key),
        )
        (rw lib.scans_version (
          rw lib.scans_params (
            rw (lib.decode_encode salt, parse_digest)
              (rw (hs, lib.decode_encode key) (rw hk refl)))))

  phc_string-prefix :
      (salt key : Bytes) → has_prefix (phc_string k salt key) (codes "$argon2id$") ≡ true
  unfolding has_prefix phc_string
  phc_string-prefix salt key = refl

  key_not_empty :
      (password salt : Bytes)
      → (length (k.id_key password salt argon_time argon_memory argon_threads argon_key_len) == 0)
        ≡ false
  key_not_empty password salt =
      rw (lib.key_length password salt argon_time argon_memory argon_threads argon_key_len) refl

  check-phc_string :
      (password salt key : Bytes)
      → (length salt == 0) ≡ false
      → (length key == 0) ≡ false
      → check_password_hash k password (phc_string k salt key) ≡ (
          leb (length password) max_password_len
          && bytes_eq
              (k.id_key password salt argon_time argon_memory argon_threads (length key))
              key)
  unfolding check_password_hash check_argon2id
  check-phc_string password salt key hs hk = rw (phc_string-prefix salt key) (
      rw (parse-phc_string salt key hs hk, check_argon2id)
        (elim (Bool-cases (ltb max_password_len (length password))) [
          | inl e ↦ rw (e, leb-not-ltb (length password) max_password_len, e) refl
          | inr e ↦ rw (e, leb-not-ltb (length password) max_password_len, e) refl
        ]))

-- A password of at most 1024 bytes and a salt that is not empty have a hash. It needs no rehash, and a
-- password passes the check against it exactly if it is no longer than 1024 bytes and Argon2id gives it the
-- same key under that salt.
pub hash_password-checks :
    (k : Kdf) (password salt : Bytes)
    → IsKdf k
    → length password ≤ 1024
    → (length salt == 0) ≡ false
    → (hash : Bytes) × ((hash_password k password (some salt) ≡ hashed hash)
        × ((needs_rehash k hash ≡ false)
            × ((offered : Bytes)
                → check_password_hash k offered hash ≡ (
                    leb (length offered) 1024
                    && bytes_eq
                        (k.id_key offered salt 3 65536 4 32)
                        (k.id_key password salt 3 65536 4 32)))))
unfolding hash_password needs_rehash
hash_password-checks k password salt lib short hs =
    let key = k.id_key password salt 3 65536 4 32 in
    let filled : (length key == 0) ≡ false = key_not_empty k lib password salt in
    (
      phc_string k salt key,
      (
        ground arith,
        (
          rw (phc_string-prefix k lib salt key, parse-phc_string k lib salt key hs filled) refl,
          λ offered.
              rw
                (
                  check-phc_string k lib offered salt key hs filled,
                  lib.key_length password salt 3 65536 4 32,
                )
                refl,
        ),
      ),
    )
