-- ===== src/Auth/Audit.antt =====
-- The table `auth_audit`: its operations in backend/internal/database/db.go and privacy.go.
pub mod Counters
use go_dark_web_crawler.Common.{
  ℕ, ◌+◌, ◌*◌, Bool, true, false, not, ◌&&◌, ◌||◌, List, [], ◌∷◌, ◌++◌, map, ltb, leb, take, keep,
  ◌==◌, if◌then◌else◌,
}
use go_dark_web_crawler.Common.Text.{Bytes, bytes_eq, codes}
use go_dark_web_crawler.Common.Select.{count_rows, delete_rows, order_by}

-- `email` and `ip` hold keyed references.
pub record AuditRow : Type 0 where
  pub event : Bytes
  pub email : Bytes
  pub ip : Bytes
  pub created_at : ℕ

abbrev pub minutes : ℕ → ℕ
minutes n = n * 60 * 1_000_000

-- `LogAuthEvent`.
unfoldable pub log_auth_event : List AuditRow → ℕ → Bytes → Bytes → Bytes → List AuditRow
log_auth_event rows now event email ip =
    rows ++ record { event = event; email = email; ip = ip; created_at = now } ∷ []

-- `created_at > CURRENT_TIMESTAMP - window`, and the rest of the condition.
abbrev pub is_recent : ℕ → Bytes → Bytes → ℕ → AuditRow → Bool
is_recent now event email window r =
    bytes_eq r.event event && bytes_eq r.email email && ltb now (r.created_at + minutes window)

-- `CountRecentAuthEvents`.
unfoldable pub count_recent_auth_events : List AuditRow → ℕ → Bytes → Bytes → ℕ → ℕ
count_recent_auth_events rows now event email window =
    count_rows (is_recent now event email window) rows

-- `PurgeOldAuditLogs`, for an age in whole seconds.
unfoldable pub purge_old_audit_logs : List AuditRow → ℕ → ℕ → List AuditRow
purge_old_audit_logs rows now older_than =
    delete_rows (λ r. ltb (r.created_at + older_than * 1_000_000) now) rows

-- The events that a limit counts.
abbrev pub is_throttling : Bytes → Bool
is_throttling event =
    bytes_eq event (codes "login_fail")
    || bytes_eq event (codes "register_ok")
    || bytes_eq event (codes "reset_request")

-- `PurgeAuthAudit`, and the number of rows that it deletes.
unfoldable pub purge_auth_audit : List AuditRow → ℕ → Bytes → List AuditRow × ℕ
purge_auth_audit rows now email =
    let hit : AuditRow → Bool = λ r.
      bytes_eq r.email email
      && not (is_throttling r.event && ltb now (r.created_at + minutes 120)) in
    if bytes_eq email [] then (rows, 0) else (delete_rows hit rows, count_rows hit rows)

-- The statement of `DeleteAccount` on this table.
unfoldable pub delete_audit : List AuditRow → Bytes → List AuditRow
delete_audit rows email =
    if bytes_eq email [] then rows else delete_rows (λ r. bytes_eq r.email email) rows

-- `ListAuthEvents`: event and time, newest first; a limit out of range stands for 1000.
unfoldable pub list_auth_events : List AuditRow → Bytes → ℕ → List (Bytes × ℕ)
list_auth_events rows email limit =
    if bytes_eq email []
    then []
    else (map (λ r. (r.event, r.created_at))
        (take (if limit == 0 || ltb 5000 limit then 1000 else limit) (
          order_by (λ r q. leb q.created_at r.created_at)
            (keep (λ r. bytes_eq r.email email) rows))))
