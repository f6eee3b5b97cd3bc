-- ===== src/Auth/Users/Deletion.antt =====
-- A scheduled deletion: its moment, and how it ends.
use go_dark_web_crawler.Common.{
  ℕ, ◌+◌, ◌*◌, ◌≡◌, refl, false, not, ◌&&◌, none, some, List, [], ◌∷◌, arith,
}
use go_dark_web_crawler.Common.Select.{first_row, first_row-update_rows, first_row-holds}
use go_dark_web_crawler.Auth.Users.{
  User, Users, has_id, is_scheduled, is_due, request_account_deletion, cancel_account_deletion,
}

-- Further requests, each with its time and its grace.
unfoldable pub request_all : Users → ℕ → List (ℕ × ℕ) → Users
request_all t user [] = t
request_all t user ((now, grace) ∷ rs) =
    request_all (request_account_deletion t now user grace).0 user rs

-- The account has a row, which is scheduled for a moment.
abbrev pub IsScheduledFor : Users → ℕ → ℕ → Type 0
IsScheduledFor t user due =
    (u : User) × ((first_row (has_id user) t.rows ≡ some u) × (u.deletion_scheduled_for ≡ some due))

request-IsScheduledFor :
    (t : Users) (now user grace due : ℕ)
    → IsScheduledFor t user due
    → IsScheduledFor (request_account_deletion t now user grace).0 user due
unfolding request_account_deletion
request-IsScheduledFor t now user grace due (u, (found, e)) = (
  u,
  (
    rw
        (first_row-update_rows (has_id user) (λ r. has_id user r && not (is_scheduled r))
          (λ r. record r {
            deletion_requested_at = some now;
            deletion_scheduled_for = some (now + grace * 1_000_000);
          })
          t.rows (λ r. refl))
        (rw found (rw e (ground arith))),
    e,
  ),
)

request_all-IsScheduledFor :
    (t : Users) (user due : ℕ) (rs : List (ℕ × ℕ))
    → IsScheduledFor t user due
    → IsScheduledFor (request_all t user rs) user due
unfolding request_all
request_all-IsScheduledFor t user due [] h = h
request_all-IsScheduledFor t user due ((now, grace) ∷ rs) h =
    request_all-IsScheduledFor (request_account_deletion t now user grace).0 user due rs
      (request-IsScheduledFor t now user grace due h)

request_new :
    (t : Users) (now user grace : ℕ) (u : User)
    → first_row (has_id user) t.rows ≡ some u
    → u.deletion_scheduled_for ≡ none
    → IsScheduledFor (request_account_deletion t now user grace).0 user (now + grace * 1_000_000)
unfolding request_account_deletion
request_new t now user grace u found e = (
  record u {
    deletion_requested_at = some now;
    deletion_scheduled_for = some (now + grace * 1_000_000);
  },
  (
    rw
        (first_row-update_rows (has_id user) (λ r. has_id user r && not (is_scheduled r))
          (λ r. record r {
            deletion_requested_at = some now;
            deletion_scheduled_for = some (now + grace * 1_000_000);
          })
          t.rows (λ r. refl))
        (rw found (rw (e, first_row-holds (has_id user) t.rows u found) refl)),
    refl,
  ),
)

cancelled :
    (t : Users) (user due : ℕ)
    → IsScheduledFor t user due
    → (u : User) × ((first_row (has_id user) (cancel_account_deletion t user).0.rows ≡ some u)
        × (u.deletion_scheduled_for ≡ none))
unfolding cancel_account_deletion
cancelled t user due (u, (found, e)) = (
  record u { deletion_requested_at = none; deletion_scheduled_for = none },
  (
    rw
        (first_row-update_rows (has_id user) (λ r. has_id user r && is_scheduled r)
          (λ r. record r { deletion_requested_at = none; deletion_scheduled_for = none }) t.rows
          (λ r. refl))
        (rw found (rw (e, first_row-holds (has_id user) t.rows u found) refl)),
    refl,
  ),
)

never_due : (v : User) (later : ℕ) → v.deletion_scheduled_for ≡ none → is_due later v ≡ false
never_due v later e = rw (e, is_due) refl

-- An account that asks for its deletion, with none pending, is scheduled for the end of the grace. However
-- often it asks again, with whatever grace, that moment stays; and a cancellation at any point clears it, so
-- that the account is never due.
pub deletion_clock :
    (t : Users) (now user grace : ℕ) (u : User) (rs : List (ℕ × ℕ))
    → first_row (has_id user) t.rows ≡ some u
    → u.deletion_scheduled_for ≡ none
    → let pending = request_all (request_account_deletion t now user grace).0 user rs in
      IsScheduledFor pending user (now + grace * 1_000_000)
      × ((v : User) × ((first_row (has_id user) (cancel_account_deletion pending user).0.rows
              ≡ some v)
            × ((later : ℕ) → is_due later v ≡ false)))
deletion_clock t now user grace u rs found e =
    let pending =
      request_all-IsScheduledFor (request_account_deletion t now user grace).0 user
        (now + grace * 1_000_000) rs (request_new t now user grace u found e) in
    let (v, (standing, cleared)) =
      cancelled (request_all (request_account_deletion t now user grace).0 user rs) user
        (now + grace * 1_000_000) pending in
    (pending, (v, (standing, λ later. never_due v later cleared)))
