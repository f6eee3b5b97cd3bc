-- ===== src/Auth/Sessions/Revocation.antt =====
-- A session that has ended never counts again, and an account ends its own sessions only.
use go_dark_web_crawler.Common.{
  ℕ, ◌≤◌, ◌≡◌, refl, Bool, true, false, not, ◌&&◌, ◌||◌, List, [], ◌∷◌, ◌++◌, arith, Bool-cases,
  &&-both, inl, inr,
}
use go_dark_web_crawler.Common.Text.{Bytes, bytes_eq, bytes_eq_iff}
use go_dark_web_crawler.Auth.Sessions.{
  Session, Sessions, is_revoked, update, revoke, has_token, create_session, session_active, sweep,
  touch_session, revoke_session, revoke_all_sessions, revoke_session_by_token,
  delete_expired_sessions,
}

-- What can happen to the table, each with its time.
pub data Change : Type 0 where
  created : ℕ → Bytes → Bytes → ℕ → Change
  touched : Bytes → ℕ → Change
  revoked : ℕ → ℕ → Change
  revoked_all : ℕ → Bytes → Change
  signed_out : Bytes → Change

unfoldable pub change : Sessions → ℕ → Change → Sessions
change s now (created user token label expires) = (create_session s now user token label expires).0
change s now (touched token stale_after) = touch_session s now token stale_after
change s now (revoked user session) = (revoke_session s now user session).0
change s now (revoked_all user except) = revoke_all_sessions s now user except
change s now (signed_out token) = revoke_session_by_token s now token

unfoldable pub change_all : Sessions → List (ℕ × Change) → Sessions
change_all s [] = s
change_all s ((now, c) ∷ cs) = change_all (change s now c) cs

-- The token stands in the table, and every row that has it is revoked.
unfoldable pub has_ended : Bytes → List Session → Bool
has_ended token [] = true
has_ended token (r ∷ rs) = (not (bytes_eq r.token_id token) || is_revoked r) && has_ended token rs

update-has_token :
    (token : Bytes) (p : Session → Bool) (f : Session → Session) (rs : List Session)
    → ((r : Session) → (f r).token_id ≡ r.token_id)
    → has_token token (update p f rs) ≡ has_token token rs
unfolding has_token update
update-has_token token p f [] same = refl
update-has_token token p f (r ∷ rs) same = elim (Bool-cases (p r)) [
  | inl e ↦ rw (e, same r, update-has_token token p f rs same) refl
  | inr e ↦ rw (e, update-has_token token p f rs same) refl
]

update-has_ended :
    (token : Bytes) (p : Session → Bool) (f : Session → Session) (rs : List Session)
    → ((r : Session) → (f r).token_id ≡ r.token_id)
    → ((r : Session) → is_revoked r ≡ true → is_revoked (f r) ≡ true)
    → has_ended token rs ≡ true
    → has_ended token (update p f rs) ≡ true
unfolding has_ended update
update-has_ended token p f [] same kept over = refl
update-has_ended token p f (r ∷ rs) same kept over =
    let (here, rest) =
      &&-both (not (bytes_eq r.token_id token) || is_revoked r) (has_ended token rs) over in
    let after = update-has_ended token p f rs same kept rest in
    elim (Bool-cases (p r)) [
      | inr e ↦ rw (e, here, after) refl
      | inl e ↦ elim (Bool-cases (is_revoked r)) [
        | inl gone ↦ rw (e, kept r gone, after) (ground arith)
        | inr open_yet ↦ rw (e, same r, after) (ground (arith, here))
      ]
    ]

fresh_other :
    (token fresh : Bytes) (rs : List Session)
    → has_token fresh rs ≡ false
    → has_token token rs ≡ true
    → bytes_eq fresh token ≡ false
unfolding has_token
fresh_other token fresh [] free there = absurd (cc there)
fresh_other token fresh (r ∷ rs) free there = ground (
  arith,
  fresh_other token fresh rs,
  bytes_eq_iff r.token_id token,
  bytes_eq_iff r.token_id fresh,
  bytes_eq_iff fresh token,
)

append-has_ended :
    (token : Bytes) (r : Session) (rs : List Session)
    → has_ended token rs ≡ true
    → bytes_eq r.token_id token ≡ false
    → has_ended token (rs ++ r ∷ []) ≡ true
unfolding has_ended
append-has_ended token r [] over other = ground arith
append-has_ended token r (q ∷ rs) over other = ground (arith, append-has_ended token r rs)

append-has_token :
    (token : Bytes) (r : Session) (rs : List Session)
    → has_token token rs ≡ true
    → has_token token (rs ++ r ∷ []) ≡ true
unfolding has_token
append-has_token token r [] there = absurd (cc there)
append-has_token token r (q ∷ rs) there = ground (arith, append-has_token token r rs)

has_ended-inactive :
    (token : Bytes) (now user : ℕ) (rs : List Session)
    → has_ended token rs ≡ true
    → session_active rs now user token ≡ false
unfolding has_ended session_active
has_ended-inactive token now user [] over = refl
has_ended-inactive token now user (r ∷ rs) over =
    ground (arith, has_ended-inactive token now user rs)

-- The token stands, and it has ended.
abbrev pub IsEnded : Bytes → Sessions → Type 0
IsEnded token s = (has_token token s.rows ≡ true) × (has_ended token s.rows ≡ true)

update-IsEnded :
    (token : Bytes) (p : Session → Bool) (f : Session → Session) (s : Sessions)
    → ((r : Session) → (f r).token_id ≡ r.token_id)
    → ((r : Session) → is_revoked r ≡ true → is_revoked (f r) ≡ true)
    → IsEnded token s
    → IsEnded token (record s { rows = update p f s.rows })
update-IsEnded token p f s same kept h = (
  rw (update-has_token token p f s.rows same) h.0,
  update-has_ended token p f s.rows same kept h.1,
)

change-IsEnded :
    (token : Bytes) (s : Sessions) (now : ℕ) (c : Change)
    → IsEnded token s
    → IsEnded token (change s now c)
unfolding change create_session touch_session revoke_session revoke_all_sessions
    revoke_session_by_token
change-IsEnded token s now (created user fresh label expires) h =
    elim (Bool-cases (has_token fresh s.rows)) [
      | inl taken ↦ rw (taken, change, create_session) h
      | inr free ↦
          rw (free, change, create_session)
            (
              append-has_token token _ s.rows h.0,
              append-has_ended token _ s.rows h.1 (fresh_other token fresh s.rows free h.0),
            )
    ]
change-IsEnded token s now (touched other stale_after) h =
    update-IsEnded token _ _ s (λ r. refl) (λ r e. e) h
change-IsEnded token s now (revoked user session) h =
    update-IsEnded token _ _ s (λ r. refl) (λ r e. refl) h
change-IsEnded token s now (revoked_all user except) h =
    update-IsEnded token _ _ s (λ r. refl) (λ r e. refl) h
change-IsEnded token s now (signed_out other) h =
    update-IsEnded token _ _ s (λ r. refl) (λ r e. refl) h

change_all-IsEnded :
    (token : Bytes) (s : Sessions) (cs : List (ℕ × Change))
    → IsEnded token s
    → IsEnded token (change_all s cs)
unfolding change_all
change_all-IsEnded token s [] h = h
change_all-IsEnded token s ((now, c) ∷ cs) h =
    change_all-IsEnded token (change s now c) cs (change-IsEnded token s now c h)

all_ended :
    (now : ℕ) (token : Bytes) (rs : List Session)
    → has_ended token
        (update (λ r. bytes_eq r.token_id token && not (is_revoked r)) (revoke now) rs)
      ≡ true
unfolding has_ended update
all_ended now token [] = refl
all_ended now token (r ∷ rs) = ground (arith, all_ended now token rs)

sign_out-IsEnded :
    (s : Sessions) (now : ℕ) (token : Bytes)
    → has_token token s.rows ≡ true
    → IsEnded token (revoke_session_by_token s now token)
unfolding revoke_session_by_token
sign_out-IsEnded s now token there = (
  rw (update-has_token token _ (revoke now) s.rows (λ r. refl)) there,
  all_ended now token s.rows,
)

-- A token that signs out is never active again, for any account at any time, whatever is done to the table
-- after it but the removal of expired rows.
pub signed_out_stays_out :
    (s : Sessions) (now : ℕ) (token : Bytes) (cs : List (ℕ × Change)) (later user : ℕ)
    → has_token token s.rows ≡ true
    → session_active (change_all (revoke_session_by_token s now token) cs).rows later user token
      ≡ false
signed_out_stays_out s now token cs later user there =
    has_ended-inactive token later user _
      (change_all-IsEnded token _ cs (sign_out-IsEnded s now token there)).1

sweep_active :
    (now later user : ℕ) (token : Bytes) (rs : List Session)
    → now ≤ later
    → session_active (sweep now rs) later user token ≡ session_active rs later user token
unfolding sweep session_active
sweep_active now later user token [] after = refl
sweep_active now later user token (r ∷ rs) after =
    ground (arith, sweep_active now later user token rs after)

-- The rows that the sweep removes were dead: at any later time the same tokens are active as before.
sweep_ends_nothing :
    (s : Sessions) (now later user : ℕ) (token : Bytes)
    → now ≤ later
    → session_active (delete_expired_sessions s now).rows later user token
      ≡ session_active s.rows later user token
unfolding delete_expired_sessions
sweep_ends_nothing s now later user token after = sweep_active now later user token s.rows after
