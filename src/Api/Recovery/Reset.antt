-- ===== src/Api/Recovery/Reset.antt =====
-- What a granted reset of a password leaves behind.
use go_dark_web_crawler.Common.{
  ℕ, ◌+◌, ◌≤◌, ◌≡◌, refl, true, false, ◌&&◌, some, arith, ltb, leb, length, ◌==◌, Bool-cases, inl,
  inr,
}
use go_dark_web_crawler.Common.Text.{Bytes, bytes_eq}
use go_dark_web_crawler.Common.Select.{first_row, first_row-update_rows}
use go_dark_web_crawler.Auth.Passwords.{check_password_hash, needs_rehash}
use go_dark_web_crawler.Auth.Passwords.RoundTrip.{IsKdf, hash_password-checks}
use go_dark_web_crawler.Auth.Users.{
  User, Users, has_id, may_reset, with_new_password, reset_password,
}
use go_dark_web_crawler.Api.Validate.{token_safe, validate_password}
use go_dark_web_crawler.Api.Login.{Server, Accounts, Visit}
use go_dark_web_crawler.Api.Recovery.{ResetRequest, password_updated, handle_reset}

-- The row of an account that was reset: its token version has grown, and its hash is a current one that
-- passes exactly the passwords with the key of the new one.
abbrev pub IsRenewed : Server → Bytes → Bytes → User → User → Type 0
IsRenewed s password salt u w =
    (w.token_version ≡ u.token_version + 1)
    × ((needs_rehash s.kdf w.password_hash ≡ false)
        × ((offered : Bytes)
            → check_password_hash s.kdf offered w.password_hash ≡ (
                leb (length offered) 1024
                && bytes_eq (s.kdf.id_key offered salt 3 65536 4 32)
                    (s.kdf.id_key password salt 3 65536 4 32))))

validate_password-short : (p : Bytes) → validate_password p ≡ true → length p ≤ 1024
unfolding validate_password
validate_password-short p e = ground arith

long_token : (token : Bytes) → token_safe token ≡ true → ltb (length token) 16 ≡ false
unfolding token_safe
long_token token e = ground arith

reset-found :
    (s : Server) (t : Users) (now : ℕ) (token hash : Bytes) (u : User)
    → token_safe token ≡ true
    → first_row (has_id u.id) t.rows ≡ some u
    → may_reset s.unicode s.sha256 now token u ≡ true
    → first_row (has_id u.id) (reset_password s.unicode s.sha256 t now token hash).0.rows
      ≡ some (with_new_password s.unicode s.sha256 hash u)
unfolding reset_password
reset-found s t now token hash u shaped found open_row = rw (long_token token shaped) (
    rw
      (first_row-update_rows (has_id u.id) (may_reset s.unicode s.sha256 now token)
        (with_new_password s.unicode s.sha256 hash) t.rows (λ r. refl))
      (rw found (rw open_row refl)))

-- A reset that was granted came with a token of the right shape and a password within the rules. Each account
-- that the token opened has a token version one higher and a hash that needs no rehash and passes exactly the
-- passwords of at most 1024 bytes to which Argon2id gives the key of the new one.
pub reset_renews :
    (s : Server) (a : Accounts) (v : Visit) (r : ResetRequest) (salt : Bytes)
    → IsKdf s.kdf
    → v.salt ≡ some salt
    → (length salt == 0) ≡ false
    → (handle_reset s a v (some r)).1 ≡ password_updated
    → (token_safe r.token ≡ true)
      × ((validate_password r.new_password ≡ true)
          × ((u : User)
              → first_row (has_id u.id) a.users.rows ≡ some u
              → may_reset s.unicode s.sha256 v.now r.token u ≡ true
              → (w : User) × ((first_row (has_id u.id) (handle_reset s a v (some r)).0.users.rows
                    ≡ some w)
                  × IsRenewed s r.new_password salt u w)))
unfolding handle_reset
reset_renews s a v r salt lib salted filled e = elim (Bool-cases v.allowed) [
  | inr f ↦ absurd (cc (simp f at e))
  | inl f ↦ elim (Bool-cases (token_safe r.token)) [
    | inr g ↦ absurd (cc (rw g at (simp f at e)))
    | inl g ↦ elim (Bool-cases (validate_password r.new_password)) [
      | inr h ↦ absurd (cc (rw h at (rw g at (simp f at e))))
      | inl h ↦
          let (hash, (is_hash, (current, passes))) =
            hash_password-checks s.kdf r.new_password salt lib
              (validate_password-short r.new_password h) filled in
          (
            g,
            (
              h,
              λ u found open_row. (
                with_new_password s.unicode s.sha256 hash u,
                (
                  simp (f, salted)
                      (rw g (
                        rw h (
                          rw is_hash
                            (reset-found s a.users v.now r.token hash u g found open_row)))),
                  (refl, (current, passes)),
                ),
              ),
            ),
          )
    ]
  ]
]
