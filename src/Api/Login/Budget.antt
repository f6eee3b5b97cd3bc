-- ===== src/Api/Login/Budget.antt =====
-- The lockout over requests that run side by side, purges of history and sweeps. A request counts the
-- failures first; its own failure is logged later, after the password, and others may run in between.
use go_dark_web_crawler.Common.{
  ℕ, ◌+◌, ◌≤◌, ◌<◌, ◌≡◌, sym, subst, Bool, true, not, Option, none, some, List, [], ◌∷◌, arith,
  length, Bool-cases, Option-cases, inl, inr, if◌then◌else◌,
}
use go_dark_web_crawler.Common.Text.{Bytes, bytes_eq, bytes_eq_iff}
use go_dark_web_crawler.Common.Select.{
  take_out, take_out-count, count_rows-le-length, count_rows, count_rows-append, count_rows-keep-le,
  count_rows_mono, delete_rows,
}
use go_dark_web_crawler.Auth.Audit.{
  AuditRow, is_recent, count_recent_auth_events, purge_auth_audit, purge_old_audit_logs,
}
use go_dark_web_crawler.Api.Login.{
  Server, Accounts, Visit, LoginRequest, login_fail, audit_email_reference, password_step, admit,
}
use go_dark_web_crawler.Api.Login.Guesses.{failures, IsLogged, password_step-IsLogged, admit-counts}

-- A request that has passed the lockout and not yet its password.
pub record Waiting : Type 0 where
  pub visit : Visit
  pub request : LoginRequest

pub record Traffic : Type 0 where
  pub accounts : Accounts
  pub waiting : List Waiting

-- The two parts of a login request, which `handle_login-admit` puts together; an account's purge of its
-- history, and the retention of the table. A request that waits is named by its place.
pub data Step : Type 0 where
  starting : Visit → Option LoginRequest → Step
  finishing : ℕ → ℕ → Step
  purging : ℕ → Bytes → Step
  retaining : ℕ → ℕ → Step

abbrev pub time : Step → ℕ
time (starting v body) = v.now
time (finishing now place) = now
time (purging now email) = now
time (retaining now older_than) = now

unfoldable pub take_step : Server → Traffic → Step → Traffic
take_step s t (starting v body) = elim (admit s t.accounts v body) [
  | inl (after, _) ↦ record t { accounts = after }
  | inr r ↦ record t { waiting = record { visit = v; request = r } ∷ t.waiting }
]
take_step s t (finishing now place) = elim (take_out place t.waiting) [
  | none ↦ t
  | some (w, rest) ↦ record {
    accounts = (password_step s t.accounts (record w.visit { now = now }) w.request).0;
    waiting = rest;
  }
]
take_step s t (purging now email) = record t {
  accounts = record t.accounts { audit = (purge_auth_audit t.accounts.audit now email).0 };
}
take_step s t (retaining now older_than) = record t {
  accounts = record t.accounts { audit = purge_old_audit_logs t.accounts.audit now older_than };
}

unfoldable pub take_steps : Server → Traffic → List Step → Traffic
take_steps s t [] = t
take_steps s t (x ∷ xs) = take_steps s (take_step s t x) xs

-- The count of a request that starts succeeds.
abbrev pub IsCounted : Step → Type 0
IsCounted (starting v body) = v.counted ≡ true
IsCounted _ = Unit

-- The steps come one after the other, all before a moment; counts succeed, and at no time do more than so
-- many requests wait.
abbrev pub IsRun : Server → ℕ → Traffic → ℕ → List Step → ℕ → Type 0
IsRun s most t now [] later = now ≤ later
IsRun s most t now (x ∷ xs) later =
    (now ≤ time x)
    × (IsCounted x
        × ((length (take_step s t x).waiting ≤ most)
            × IsRun s most (take_step s t x) (time x) xs later))

abbrev pub asks : Server → Bytes → Waiting → Bool
asks s reference w = bytes_eq (audit_email_reference s w.request.email) reference

-- The failures of the last 15 minutes and the requests that wait, for each address.
abbrev pub IsWithin : Server → ℕ → Traffic → ℕ → Type 0
IsWithin s most t now =
    (reference : Bytes)
    → failures t.accounts.audit now reference + count_rows (asks s reference) t.waiting ≤ 4 + most

failures_later :
    (rows : List AuditRow) (now later : ℕ) (reference : Bytes)
    → now ≤ later
    → failures rows later reference ≤ failures rows now reference
unfolding count_recent_auth_events
failures_later rows now later reference h =
    count_rows_mono (is_recent later login_fail reference 15)
      (is_recent now login_fail reference 15) rows (λ r e. ground arith)

later-IsWithin :
    (s : Server) (most : ℕ) (t : Traffic) (now later : ℕ)
    → now ≤ later
    → IsWithin s most t now
    → IsWithin s most t later
later-IsWithin s most t now later h within reference =
    omega (arith, within reference, failures_later t.accounts.audit now later reference h)

logged-le :
    (now : ℕ) (own reference : Bytes) (before after : List AuditRow)
    → IsLogged now own before after
    → failures after now reference
      ≤ (if bytes_eq own reference then 1 else 0) + failures before now reference
unfolding count_recent_auth_events count_rows
logged-le now own reference before after (inl same) = rw same (omega arith)
logged-le now own reference before after (inr (row, (added, (at, of)))) =
    rw (added, count_rows-append (is_recent now login_fail reference 15) before (row ∷ []))
      (ground (arith, sym of))

fewer-le :
    (p : AuditRow → Bool) (rows : List AuditRow) (now : ℕ) (reference : Bytes)
    → failures (delete_rows p rows) now reference ≤ failures rows now reference
unfolding count_recent_auth_events delete_rows
fewer-le p rows now reference =
    count_rows-keep-le (is_recent now login_fail reference 15) (λ r. not (p r)) rows

purged-le :
    (rows : List AuditRow) (now : ℕ) (email reference : Bytes)
    → failures (purge_auth_audit rows now email).0 now reference ≤ failures rows now reference
unfolding purge_auth_audit
purged-le rows now email reference = elim (Bool-cases (bytes_eq email [])) [
  | inl e ↦ rw e (omega arith)
  | inr e ↦ rw e (fewer-le _ rows now reference)
]

joined-IsWithin :
    (s : Server) (most : ℕ) (t : Traffic) (w : Waiting) (reference : Bytes)
    → length (w ∷ t.waiting) ≤ most
    → failures t.accounts.audit w.visit.now (audit_email_reference s w.request.email) < 5
    → failures t.accounts.audit w.visit.now reference + count_rows (asks s reference) t.waiting
      ≤ 4 + most
    → failures t.accounts.audit w.visit.now reference
        + count_rows (asks s reference) (w ∷ t.waiting)
      ≤ 4 + most
unfolding count_rows
joined-IsWithin s most t w reference room below within = elim (Bool-cases (asks s reference w)) [
  | inr e ↦ rw e (omega (arith, within))
  | inl e ↦
      let same : audit_email_reference s w.request.email ≡ reference =
        (bytes_eq_iff (audit_email_reference s w.request.email) reference).0 e in
      let few : failures t.accounts.audit w.visit.now reference < 5 =
        subst (λ x. failures t.accounts.audit w.visit.now x < 5) same below in
      omega (arith, few, room, count_rows-le-length (asks s reference) (w ∷ t.waiting))
]

-- A request that starts.
started-IsWithin :
    (s : Server) (most : ℕ) (t : Traffic) (v : Visit) (body : Option LoginRequest)
    → v.counted ≡ true
    → length (take_step s t (starting v body)).waiting ≤ most
    → IsWithin s most t v.now
    → IsWithin s most (take_step s t (starting v body)) v.now
unfolding take_step
started-IsWithin s most t v body counts few within reference =
    elim (admit-counts s t.accounts v body) [
      | inl (x, (e, same)) ↦ rw (e, take_step, same v.now reference) (within reference)
      | inr (r, (e, below)) ↦
          let w : Waiting = record { visit = v; request = r } in
          let room : length (w ∷ t.waiting) ≤ most = rw (e, take_step) at few in
          rw (e, take_step)
            (joined-IsWithin s most t w reference room (below counts) (within reference))
    ]

-- A request that finishes.
finished-IsWithin :
    (s : Server) (most : ℕ) (t : Traffic) (now place : ℕ)
    → IsWithin s most t now
    → IsWithin s most (take_step s t (finishing now place)) now
unfolding take_step
finished-IsWithin s most t now place within reference =
    elim (Option-cases (take_out place t.waiting)) [
      | inl e ↦ rw (e, take_step) (within reference)
      | inr ((w, rest), e) ↦
          rw (e, take_step)
            (omega (
              arith,
              within reference,
              take_out-count (asks s reference) place t.waiting w rest e,
              logged-le now (audit_email_reference s w.request.email) reference t.accounts.audit _
                  (password_step-IsLogged s t.accounts (record w.visit { now = now }) w.request),
            ))
    ]

take_step-IsWithin :
    (s : Server) (most : ℕ) (t : Traffic) (x : Step)
    → IsCounted x
    → length (take_step s t x).waiting ≤ most
    → IsWithin s most t (time x)
    → IsWithin s most (take_step s t x) (time x)
unfolding take_step purge_old_audit_logs
take_step-IsWithin s most t (starting v body) counts few within =
    started-IsWithin s most t v body counts few within
take_step-IsWithin s most t (finishing now place) counts few within =
    finished-IsWithin s most t now place within
take_step-IsWithin s most t (purging now email) counts few within =
    λ reference. omega (arith, within reference, purged-le t.accounts.audit now email reference)
take_step-IsWithin s most t (retaining now older_than) counts few within =
    λ reference. omega (arith, within reference, fewer-le _ t.accounts.audit now reference)

-- However login requests, purges of history and sweeps of the table follow and overlap, with whatever
-- passwords and codes: if the counts of the requests succeed and at most `most` requests at a time are between
-- their count and the end of their check, no address ever has more than 4 + `most` failed logins on record
-- in the last 15 minutes. One at a time, that is five. At the start the failures of each address, and the
-- requests that wait for it, are to be within that number.
pub guess_budget :
    (s : Server) (most : ℕ) (t : Traffic) (xs : List Step) (now later : ℕ)
    → IsRun s most t now xs later
    → IsWithin s most t now
    → (reference : Bytes)
    → count_recent_auth_events (take_steps s t xs).accounts.audit later login_fail reference 15
      ≤ 4 + most
unfolding take_steps
guess_budget s most t [] now later h within =
    λ reference. omega (arith, later-IsWithin s most t now later h within reference)
guess_budget s most t (x ∷ xs) now later (h, (counts, (few, rest))) within =
    guess_budget s most (take_step s t x) xs (time x) later rest
      (take_step-IsWithin s most t x counts few (later-IsWithin s most t now (time x) h within))
