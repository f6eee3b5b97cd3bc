-- ===== src/Api/Gate/Revoked.antt =====
-- A token whose session has ended reaches nothing.
use go_dark_web_crawler.Common.{
  ℕ, ◌≡◌, ◌∙◌, ap, sym, Bool, true, false, none, some, List, [], inl, inr,
}
use go_dark_web_crawler.Common.Text.{Bytes, bytes_eq}
use go_dark_web_crawler.Auth.Sessions.{session_active, has_token, revoke_session_by_token}
use go_dark_web_crawler.Auth.Sessions.Revocation.{Change, change_all, signed_out_stays_out}
use go_dark_web_crawler.Auth.Tokens.{pos, is_positive, Claims, validate, validate_token}
use go_dark_web_crawler.Api.Login.{Server, Accounts, handle_logout}
use go_dark_web_crawler.Api.Gate.{Request, Source, halted, credential, user_route}
use go_dark_web_crawler.Api.Gate.Authentic.{Passage-cases, IsAuthentic, user_route-reaches}

-- Claims that pass the check do not name the account 0.
validate-positive : (c : Claims) → validate c ≡ none → c.user_id ≡ pos 0 → ⊥
unfolding validate is_positive
validate-positive c ok_claims e = cc (rw (e, validate, is_positive) at ok_claims)

same_claims :
    (s : Server) (now : ℕ) (r : Request) (token : Bytes) (claims other : Claims)
    (source from : Source)
    → credential r ≡ some (token, source)
    → validate_token s.jwt s.secret now token ≡ some claims
    → IsAuthentic s now r other from
    → other ≡ claims
same_claims s now r token claims other source from given valid (t, (given_too, (valid_too, _))) =
    let same : t ≡ token = cc in cc (ap (validate_token s.jwt s.secret now) same)

ended :
    (s : Server) (a later : Accounts) (now after : ℕ) (session : Bytes) (cs : List (ℕ × Change))
    (user : ℕ)
    → bytes_eq session [] ≡ false
    → has_token session a.sessions.rows ≡ true
    → later.sessions ≡ change_all (handle_logout s a now session).sessions cs
    → session_active later.sessions.rows after user session ≡ true
    → ⊥
unfolding handle_logout
ended s a later now after session cs user named stands same active =
    let out = signed_out_stays_out a.sessions now session cs after user stands in
    let ran : later.sessions ≡ change_all (revoke_session_by_token a.sessions now session) cs =
      rw named at same in
    absurd (cc (sym active ∙ (ap (λ t. session_active t.rows after user session) ran ∙ out)))

active_own :
    (later : Accounts) (after user : ℕ) (other claims : Claims) (session : Bytes)
    → other ≡ claims
    → claims.session_id ≡ session
    → bytes_eq session [] ≡ false
    → (bytes_eq other.session_id [] ≡ false
        → session_active later.sessions.rows after user other.session_id ≡ true)
    → session_active later.sessions.rows after user session ≡ true
active_own later after user other claims session same own named k =
    let e : other.session_id ≡ session = ap (λ x. x.session_id) same ∙ own in
    ap (session_active later.sessions.rows after user) (sym e)
    ∙ k (ap (λ x. bytes_eq x []) e ∙ named)

-- After a logout the session's token is worthless: whatever happens to the accounts and, but for the removal
-- of expired rows, to the sessions, a request at any time whose token is valid, passes the check of the
-- claims and names that session is halted before every handler that needs an account.
pub logged_out-halts :
    (s : Server) (a later : Accounts) (now after : ℕ) (session : Bytes) (cs : List (ℕ × Change))
    (r : Request) (token : Bytes) (source : Source) (claims : Claims)
    → bytes_eq session [] ≡ false
    → has_token session a.sessions.rows ≡ true
    → later.sessions ≡ change_all (handle_logout s a now session).sessions cs
    → credential r ≡ some (token, source)
    → validate_token s.jwt s.secret after token ≡ some claims
    → validate claims ≡ none
    → claims.session_id ≡ session
    → (status : ℕ) × ((clears : Bool) × ((user_route s later after r).1 ≡ halted status clears))
unfolding handle_logout
logged_out-halts s a later now after session cs r token source claims named stands same given valid
      ok_claims own =
    elim (Passage-cases (user_route s later after r).1) [
      | inl stopped ↦ stopped
      | inr (c, e) ↦
          let (other, (from, (authentic, admitted))) = user_route-reaches s later after r c e in
          let is_own : other ≡ claims =
            same_claims s after r token claims other source from given valid authentic in
          absurd (elim admitted [
            | inl (zero_id, _) ↦
                validate-positive claims ok_claims (ap (λ x. x.user_id) (sym is_own) ∙ zero_id)
            | inr (user, (u, (_, (_, current)))) ↦
                ended s a later now after session cs user named stands same
                  (active_own later after user other claims session is_own own named current.1.1.1)
          ])
    ]
