-- ===== src/Database/Claims/Workers.antt =====
-- What a worker of crawler/engine.go gets from `GetNextPendingNode`.
use go_dark_web_crawler.Common.{
  ℕ, ◌≡◌, refl, subst, true, false, none, some, List, [], ◌∷◌, arith, All, ◌↔◌, Option-cases,
  if◌then◌else◌, inl, inr,
}
use go_dark_web_crawler.Common.Text.{Bytes}
use go_dark_web_crawler.Common.Platform.{Platform}
use go_dark_web_crawler.Database.Store.{crawling, is, Node, Store, find_row, has_key, blacklisted}
use go_dark_web_crawler.Database.Queue.{is_due, first_due, get_next_pending_node}
use go_dark_web_crawler.Database.Rows.{find_row-update_where, find_row-key, All-find_row}
use go_dark_web_crawler.Database.Keys.{UniqueKeys, IsStored, UniqueKeys-IsStored}
use go_dark_web_crawler.Database.Refusal.{Refused, is_refused}
use go_dark_web_crawler.Database.Refusal.Steps.{first_due-picked}
use go_dark_web_crawler.Database.Operations.{Operation, perform_all}
use go_dark_web_crawler.Database.Operations.Soundness.{IsSound, perform_all-IsSound}
use go_dark_web_crawler.Database.Operations.Keys.{get_next_pending_node-UniqueKeys}
use go_dark_web_crawler.Database.Claims.{IsFirst, first_due-IsFirst, nothing_due}

-- The row as the claim leaves it.
unfoldable pub claimed : ℕ → Node → Node
claimed now n = record n { status = crawling; crawl_started_at = some now }

-- Where the query finds a row, the claim is of that row.
claim_row :
    (s : Store) (now : ℕ) (url : Bytes) (depth user : ℕ)
    → (get_next_pending_node s now).1 ≡ some (url, depth, user)
    → (n : Node) × ((first_due s.nodes now s.nodes ≡ some n)
        × ((n.url ≡ url) × ((n.depth ≡ depth) × (n.user_id ≡ user))))
unfolding get_next_pending_node
claim_row s now url depth user e = elim (Option-cases (first_due s.nodes now s.nodes)) [
  | inl gone ↦ absurd (cc (rw (gone, get_next_pending_node) at e))
  | inr (n, found) ↦
      let same : some (n.url, n.depth, n.user_id) ≡ some (url, depth, user) =
        rw (found, get_next_pending_node) at e in
      (n, (found, (cc, (cc, cc))))
]

pub claim-IsFirst :
    (s : Store) (now : ℕ) (url : Bytes) (depth user : ℕ)
    → UniqueKeys s.nodes
    → (get_next_pending_node s now).1 ≡ some (url, depth, user)
    → (n : Node) × ((find_row url user s.nodes ≡ some n)
        × ((is_due now n ≡ true) × IsFirst s.nodes now n s.nodes))
claim-IsFirst s now url depth user u e =
    let (n, (found, (a, (b, c)))) = claim_row s now url depth user e in
    let picked =
      first_due-picked (IsStored s.nodes) s.nodes now s.nodes n (UniqueKeys-IsStored s.nodes u)
        found in
    (n, (rw (a, c) at picked.0, (picked.1, first_due-IsFirst s.nodes now s.nodes n found)))

first_due-none :
    (all : List Node) (now : ℕ) (ns : List Node)
    → All (λ m. is_due now m ≡ false) ns
    → first_due all now ns ≡ none
unfolding first_due
first_due-none all now [] h = refl
first_due-none all now (n ∷ ns) h = rw h.0 (first_due-none all now ns h.1)

-- No row is claimed exactly when no row is due, and then nothing changes.
claim_none :
    (s : Store) (now : ℕ)
    → ((get_next_pending_node s now).1 ≡ none ↔ All (λ m. is_due now m ≡ false) s.nodes)
      × ((get_next_pending_node s now).1 ≡ none → (get_next_pending_node s now).0 ≡ s)
unfolding get_next_pending_node
claim_none s now = elim (Option-cases (first_due s.nodes now s.nodes)) [
  | inl gone ↦
      rw (gone, get_next_pending_node)
        (((λ e. nothing_due s.nodes now s.nodes gone, λ h. refl), λ e. refl))
  | inr (n, found) ↦
      rw (found, get_next_pending_node)
        ((
          (
            λ e. absurd (cc e),
            λ h.
                absurd (let quiet = first_due-none s.nodes now s.nodes h in cc (rw found at quiet)),
          ),
          λ e. absurd (cc e),
        ))
]

after_claim :
    (s : Store) (now : ℕ) (n : Node) (url : Bytes) (user : ℕ) (url' : Bytes) (user' : ℕ)
    → first_due s.nodes now s.nodes ≡ some n
    → n.url ≡ url
    → n.user_id ≡ user
    → find_row url' user' (get_next_pending_node s now).0.nodes
      ≡ elim (find_row url' user' s.nodes) [
        | none ↦ none
        | some m ↦ some (if has_key url user m then claimed now m else m)
      ]
unfolding claimed get_next_pending_node
after_claim s now n url user url' user' found a c =
    rw (found, get_next_pending_node, a, c)
      (find_row-update_where (has_key url user) (claimed now) url' user' s.nodes
        (λ r. (refl, refl)))

-- The claimed row becomes 'crawling'; every other row stays as it was.
claim_only :
    (s : Store) (now : ℕ) (url : Bytes) (depth user : ℕ) (url' : Bytes) (user' : ℕ)
    → (get_next_pending_node s now).1 ≡ some (url, depth, user)
    → find_row url' user' (get_next_pending_node s now).0.nodes
      ≡ elim (find_row url' user' s.nodes) [
        | none ↦ none
        | some m ↦ some (if has_key url user m then claimed now m else m)
      ]
claim_only s now url depth user url' user' e =
    let (n, (found, (a, (b, c)))) = claim_row s now url depth user e in
    after_claim s now n url user url' user' found a c

not_due : (now later : ℕ) (n : Node) → ¬ (is_due later (claimed now n) ≡ true)
unfolding claimed is
not_due now later n h = ground arith

-- Two claims in a row, at any times, are of different rows.
pub claim_once :
    (s : Store) (now later : ℕ) (url url' : Bytes) (depth depth' user user' : ℕ)
    → UniqueKeys s.nodes
    → (get_next_pending_node s now).1 ≡ some (url, depth, user)
    → (get_next_pending_node (get_next_pending_node s now).0 later).1 ≡ some (url', depth', user')
    → ¬ ((url' ≡ url) × (user' ≡ user))
claim_once s now later url url' depth depth' user user' u e e' (a, b) =
    let u' = get_next_pending_node-UniqueKeys s now u in
    let (n, (stored, (due, _))) = claim-IsFirst s now url depth user u e in
    let (m, (there, (ready, _))) =
      claim-IsFirst (get_next_pending_node s now).0 later url' depth' user' u' e' in
    let kept = claim_only s now url depth user url user e in
    let here = rw (stored, find_row-key url user s.nodes n stored) at kept in
    let same : m ≡ claimed now n = cc (rw (a, b) at there, here) in
    not_due now later n (subst (λ x. is_due later x ≡ true) same ready)

unlisted :
    (now : ℕ) (bl : List Bytes) (n : Node) (h : Bytes)
    → is_refused bl n ≡ true
    → n.host ≡ some h
    → is_due now n ≡ true
    → blacklisted h bl ≡ false
unfolding is_refused is
unlisted now bl n h r on due = ground arith

-- After any sequence of the operations, each of them run to its end before the next begins, the two
-- statements of `RequeueForCrawl` included, a row that a worker claims and whose host is on record is
-- on no host of the blacklist.
pub claim_never_refused :
    (p : Platform) (sha256 : Bytes → Bytes) (s : Store) (os : List (ℕ × Operation)) (now : ℕ)
    (url : Bytes) (depth user : ℕ)
    → IsSound s
    → (get_next_pending_node (perform_all p sha256 s os) now).1 ≡ some (url, depth, user)
    → (n : Node) × ((find_row url user (perform_all p sha256 s os).nodes ≡ some n)
        × ((h : Bytes)
            → n.host ≡ some h
            → blacklisted h (perform_all p sha256 s os).blacklist ≡ false))
unfolding IsSound Refused
claim_never_refused p sha256 s os now url depth user h e =
    let t = perform_all p sha256 s os in
    let sound = perform_all-IsSound p sha256 s os h in
    let (n, (stored, (due, _))) = claim-IsFirst t now url depth user sound.0 e in
    let refused =
      All-find_row (λ m. is_refused t.blacklist m ≡ true) url user t.nodes n sound.1 stored in
    (n, (stored, λ x on. unlisted now t.blacklist n x refused on due))
