-- ===== src/Auth/Users/OneTime.antt =====
-- A reset link works once.
use go_dark_web_crawler.Common.{
  ℕ, ◌+◌, ◌≤◌, ◌<◌, ◌≡◌, refl, true, false, ◌&&◌, some, List, [], ◌∷◌, arith, length, ltb, ◌==◌,
  Bool-cases, Option-cases, inl, inr, if◌then◌else◌,
}
use go_dark_web_crawler.Common.Text.{Bytes, bytes_eq, Unicode}
use go_dark_web_crawler.Common.Select.{update_rows, count_rows, first_row, first_row-update_rows}
use go_dark_web_crawler.Auth.Users.{
  User, Users, done, refused, token_not_valid, opaque_token_hash, may_reset, with_new_password,
  reset_password, get_user_auth_info, has_id,
}

count_positive :
    (n : ℕ) → (if n == 0 then refused token_not_valid else done (tt {0})) ≡ done tt → 0 < n
count_positive n e = ground arith

module _ (uni : Unicode) (sha256 : Bytes → Bytes) where
  still_shut :
      (now later : ℕ) (token : Bytes) (u : User)
      → now ≤ later
      → may_reset uni sha256 now token u ≡ false
      → may_reset uni sha256 later token u ≡ false
  still_shut now later token u h e = elim (Option-cases u.reset_token) [
    | inl x ↦ rw x refl
    | inr (a, x) ↦ elim (Option-cases u.reset_expires_at) [
      | inl y ↦ rw (x, y) (ground arith)
      | inr (b, y) ↦
          let shut : (bytes_eq a (opaque_token_hash sha256 token) && ltb now b) ≡ false =
            rw (x, y) at e in
          rw (x, y) (ground arith)
    ]
  ]

  -- Once the rows that a token opens are reset, it opens none, now or later.
  none_left :
      (now later : ℕ) (token hash : Bytes) (rows : List User)
      → now ≤ later
      → count_rows
          (may_reset uni sha256 later token)
          (update_rows (may_reset uni sha256 now token) (with_new_password uni sha256 hash) rows)
        ≡ 0
  unfolding count_rows update_rows
  none_left now later token hash [] h = refl
  none_left now later token hash (u ∷ rows) h =
      elim (Bool-cases (may_reset uni sha256 now token u)) [
        | inl e ↦ rw e (omega (arith, none_left now later token hash rows h))
        | inr e ↦ rw e (
            rw (still_shut now later token u h e)
              (omega (arith, none_left now later token hash rows h)))
      ]

  changed_version :
      (now : ℕ) (token hash : Bytes) (t : Users) (u : User)
      → first_row (has_id u.id) t.rows ≡ some u
      → may_reset uni sha256 now token u ≡ true
      → get_user_auth_info
          (record t {
            rows =
                update_rows
                  (may_reset uni sha256 now token)
                  (with_new_password uni sha256 hash)
                  t.rows;
          })
          u.id
        ≡ some (u.email, (u.role, u.token_version + 1))
  unfolding get_user_auth_info
  changed_version now token hash t u found e =
      rw
        (
          get_user_auth_info,
          first_row-update_rows (has_id u.id) (may_reset uni sha256 now token)
              (with_new_password uni sha256 hash) t.rows (λ r. refl),
        )
        (rw (found, e) refl)

-- A password reset that succeeded opened some account with its token, and has used the token up: from then
-- on it is refused. Every account that it opened has a token version one higher than before, so that no
-- session token issued for it earlier is current.
pub reset_password-once :
    (uni : Unicode) (sha256 : Bytes → Bytes) (t : Users) (now later : ℕ) (token hash again : Bytes)
    → now ≤ later
    → (reset_password uni sha256 t now token hash).1 ≡ done tt
    → let after = (reset_password uni sha256 t now token hash).0 in
      (0 < count_rows (may_reset uni sha256 now token) t.rows)
      × (((reset_password uni sha256 after later token again).1 ≡ refused token_not_valid)
          × ((u : User)
              → first_row (has_id u.id) t.rows ≡ some u
              → may_reset uni sha256 now token u ≡ true
              → get_user_auth_info after u.id ≡ some (u.email, (u.role, u.token_version + 1))))
unfolding reset_password
reset_password-once uni sha256 t now later token hash again h e =
    elim (Bool-cases (ltb (length token) 16)) [
      | inl short ↦ absurd (cc (rw short at e))
      | inr long ↦ (
        count_positive (count_rows (may_reset uni sha256 now token) t.rows) (rw long at e),
        (
          rw (long, none_left uni sha256 now later token hash t.rows h) refl,
          λ u found open_row.
              rw long (changed_version uni sha256 now token hash t u found open_row),
        ),
      )
    ]
