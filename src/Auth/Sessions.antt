-- ===== src/Auth/Sessions.antt =====
-- Signed-in devices: the table `sessions` of backend/internal/database/sessions.go. A token identifier is
-- unique in the schema. The column `created_at` and the text of the listing are left out.
pub mod Revocation
use go_dark_web_crawler.Common.{
  ℕ, suc, ◌+◌, Bool, true, false, not, ◌&&◌, ◌||◌, Option, none, some, List, [], ◌∷◌, ◌++◌, ltb,
  ◌==◌, if◌then◌else◌,
}
use go_dark_web_crawler.Common.Text.{Bytes, bytes_eq}

pub record Session : Type 0 where
  pub id : ℕ
  pub user_id : ℕ
  pub token_id : Bytes
  pub device_label : Bytes
  pub last_used_at : ℕ
  pub expires_at : ℕ
  pub revoked_at : Option ℕ

-- The rows, and the next value of the sequence of `id`.
pub record Sessions : Type 0 where
  pub rows : List Session
  pub next_id : ℕ

abbrev pub is_revoked : Session → Bool
is_revoked r = elim r.revoked_at [ none ↦ false | some t ↦ true ]

-- `UPDATE sessions SET ... WHERE ...`, and the number of rows that it affects.
unfoldable pub update : (Session → Bool) → (Session → Session) → List Session → List Session
update p f [] = []
update p f (r ∷ rs) = (if p r then f r else r) ∷ update p f rs

unfoldable pub affected : (Session → Bool) → List Session → ℕ
affected p [] = 0
affected p (r ∷ rs) = (if p r then 1 else 0) + affected p rs

abbrev pub revoke : ℕ → Session → Session
revoke now r = record r { revoked_at = some now }

unfoldable pub has_token : Bytes → List Session → Bool
has_token token [] = false
has_token token (r ∷ rs) = bytes_eq r.token_id token || has_token token rs

-- `CreateSession`; none where the token stands already, which the schema refuses.
unfoldable pub create_session : Sessions → ℕ → ℕ → Bytes → Bytes → ℕ → Sessions × Option ℕ
create_session s now user token label expires = if has_token token s.rows then (s, none) else (
  record {
    rows =
        s.rows
        ++ record {
          id = s.next_id;
          user_id = user;
          token_id = token;
          device_label = label;
          last_used_at = now;
          expires_at = expires;
          revoked_at = none;
        }
          ∷ [];
    next_id = suc s.next_id;
  },
  some s.next_id,
)

abbrev pub is_live : ℕ → ℕ → Bytes → Session → Bool
is_live now user token r =
    bytes_eq r.token_id token && r.user_id == user && not (is_revoked r) && ltb now r.expires_at

-- `SessionActive`.
unfoldable pub session_active : List Session → ℕ → ℕ → Bytes → Bool
session_active [] now user token = false
session_active (r ∷ rs) now user token =
    is_live now user token r || session_active rs now user token

-- `TouchSession`.
unfoldable pub touch_session : Sessions → ℕ → Bytes → ℕ → Sessions
touch_session s now token stale_after = record s {
  rows =
      update
        (λ r.
          bytes_eq r.token_id token && not (is_revoked r) && ltb (r.last_used_at + stale_after) now)
        (λ r. record r { last_used_at = now }) s.rows;
}

-- `RevokeSession`.
unfoldable pub revoke_session : Sessions → ℕ → ℕ → ℕ → Sessions × Bool
revoke_session s now user session =
    let hit : Session → Bool = λ r. r.id == session && r.user_id == user && not (is_revoked r) in
    (record s { rows = update hit (revoke now) s.rows }, affected hit s.rows == 1)

-- `RevokeAllSessions`.
unfoldable pub revoke_all_sessions : Sessions → ℕ → ℕ → Bytes → Sessions
revoke_all_sessions s now user except = record s {
  rows =
      update
        (λ r.
          r.user_id == user
          && not (is_revoked r)
          && (bytes_eq except [] || not (bytes_eq r.token_id except)))
        (revoke now) s.rows;
}

-- `RevokeSessionByToken`.
unfoldable pub revoke_session_by_token : Sessions → ℕ → Bytes → Sessions
revoke_session_by_token s now token = record s {
  rows = update (λ r. bytes_eq r.token_id token && not (is_revoked r)) (revoke now) s.rows;
}

-- `DELETE FROM sessions WHERE expires_at < CURRENT_TIMESTAMP`.
unfoldable pub sweep : ℕ → List Session → List Session
sweep now [] = []
sweep now (r ∷ rs) = if ltb r.expires_at now then sweep now rs else r ∷ sweep now rs

-- `DeleteExpiredSessions`.
unfoldable pub delete_expired_sessions : Sessions → ℕ → Sessions
delete_expired_sessions s now = record s { rows = sweep now s.rows }

-- `ORDER BY last_used_at DESC`, by insertion.
unfoldable pub insert_by_use : Session → List Session → List Session
insert_by_use r [] = r ∷ []
insert_by_use r (q ∷ qs) =
    let rest = insert_by_use r qs in
    if ltb r.last_used_at q.last_used_at then q ∷ rest else r ∷ q ∷ qs

-- `ListSessions`: the live rows of an account, each with the mark of the caller's own.
unfoldable pub list_sessions : List Session → ℕ → ℕ → Bytes → List (Session × Bool)
list_sessions rows now user current = mark (live rows)
  where
    live : List Session → List Session
    live [] = []
    live (r ∷ rs) =
        let rest = live rs in
        if r.user_id == user && not (is_revoked r) && ltb now r.expires_at
        then insert_by_use r rest
        else rest

    mark : List Session → List (Session × Bool)
    mark [] = []
    mark (r ∷ rs) = (r, bytes_eq r.token_id current) ∷ mark rs
