-- ===== src/Database/Queue.antt =====
-- The crawl queue of backend/internal/database/db.go: one function for each of its operations.
use go_dark_web_crawler.Common.{
  ℕ, ◌≡◌, refl, ◌⊎◌, inl, inr, Bool, true, false, ◌&&◌, ◌||◌, Option, none, some, List, [], ◌∷◌,
  ◌++◌, ltb, leb, ◌==◌, if◌then◌else◌,
}
use go_dark_web_crawler.Common.Text.{Bytes, bytes_eq, to_lower}
use go_dark_web_crawler.Common.Platform.{Platform}
use go_dark_web_crawler.Onion.{normalize_url}
use go_dark_web_crawler.Database.Store.{
  pending, crawling, completed, is, Node, Edge, Store, has_key, find_row, update_where, count_where,
  blacklisted, new_row,
}

pub data Error : Type 0 where
  invalid_onion_url domain_blocked queue_quota_exceeded foreign_key : Error

pub data Result {ℓ} (A : Type ℓ) : Type ℓ where
  ok : A → Result A
  err : Error → Result A

pub Result-cases :
    {A : Type 0} (r : Result A) → ((e : Error) × (r ≡ err e)) ⊎ ((a : A) × (r ≡ ok a))
Result-cases (ok a) = inr (a, refl)
Result-cases (err e) = inl (e, refl)

-- `canonicalCrawlURL`: the canonical URL and its lower case hostname.
unfoldable pub canonical_crawl_url : Platform → Bytes → Result (Bytes × Bytes)
canonical_crawl_url p raw =
    let text = normalize_url p raw in
    if bytes_eq text [] then err invalid_onion_url else elim (p.url_parse text) [
      | none ↦ err invalid_onion_url
      | some url ↦
          if bytes_eq (p.url_hostname url) []
          then err invalid_onion_url
          else ok (text, to_lower p.unicode (p.url_hostname url))
    ]

-- The account's rows in state `pending`.
abbrev pub counts_as_pending : ℕ → Node → Bool
counts_as_pending user n = n.user_id == user && is n.status pending

-- `CountPendingNodes`.
unfoldable pub count_pending : ℕ → List Node → ℕ
count_pending user = count_where (counts_as_pending user)

-- `INSERT ... ON CONFLICT (url, user_id) DO NOTHING`.
unfoldable pub insert_new : Node → List Node → List Node
insert_new n ns = elim (find_row n.url n.user_id ns) [ none ↦ ns ++ n ∷ [] | some _ ↦ ns ]

-- The transaction of `EnqueueURL`, for a canonical URL and its host.
unfoldable pub enqueue : Store → ℕ → Bytes → Bytes → ℕ → ℕ → ℕ → Store × Result (Unit {0})
enqueue s now url host depth user max_pending =
    if blacklisted host s.blacklist
    then (s, err domain_blocked)
    else if ltb 0 max_pending && leb max_pending (count_pending user s.nodes)
    then (s, err queue_quota_exceeded)
    else (record s { nodes = insert_new (new_row url (some host) depth user now) s.nodes }, ok tt)

-- `EnqueueURL`.
unfoldable pub enqueue_url : Platform → Store → ℕ → Bytes → ℕ → ℕ → ℕ → Store × Result (Unit {0})
enqueue_url p s now raw depth user max_pending = elim (canonical_crawl_url p raw) [
  | err e ↦ (s, err e)
  | ok (url, host) ↦ enqueue s now url host depth user max_pending
]

-- `ON CONFLICT DO UPDATE SET depth = EXCLUDED.depth WHERE nodes.depth > EXCLUDED.depth AND pending`.
unfoldable pub insert_target : Node → List Node → List Node
insert_target n ns = elim (find_row n.url n.user_id ns) [
  | none ↦ ns ++ n ∷ []
  | some _ ↦
      update_where (λ r. has_key n.url n.user_id r && ltb n.depth r.depth && is r.status pending)
        (λ r. record r { depth = n.depth }) ns
]

abbrev has_edge : Bytes → Bytes → ℕ → List Edge → Bool
has_edge source target user [] = false
has_edge source target user (e ∷ es) =
    if bytes_eq e.source_url source && bytes_eq e.target_url target && e.owner == user
    then true
    else has_edge source target user es

unfoldable pub insert_edge : Edge → List Edge → List Edge
insert_edge e es = if has_edge e.source_url e.target_url e.owner es then es else es ++ e ∷ []

-- The transaction of `SaveEdge`, for canonical URLs and the host of the target. The key of `edges` on the
-- source fails, and all is rolled back, where the account has no row for the source.
unfoldable pub link : Store → ℕ → Bytes → Bytes → Bytes → ℕ → ℕ → Store × Result (Unit {0})
link s now source target host depth user =
    let after =
      if blacklisted host s.blacklist
      then s.nodes
      else insert_target (new_row target (some host) depth user now) s.nodes in
    elim (find_row source user after) [
      | none ↦ (s, err foreign_key)
      | some _ ↦ (
        record s {
          nodes = after;
          edges =
              insert_edge (record { source_url = source; target_url = target; owner = user })
                s.edges;
        },
        ok tt,
      )
    ]

-- `SaveEdge`.
unfoldable pub save_edge : Platform → Store → ℕ → Bytes → Bytes → ℕ → ℕ → Store × Result (Unit {0})
save_edge p s now source target depth user = elim (canonical_crawl_url p source) [
  | err e ↦ (s, err e)
  | ok (from, _) ↦ elim (canonical_crawl_url p target) [
    | err e ↦ (s, err e)
    | ok (to, host) ↦ link s now from to host depth user
  ]
]

-- How many of the owner's rows are in flight.
abbrev pub inflight : List Node → ℕ → ℕ
inflight ns user = count_where (λ n. n.user_id == user && is n.status crawling) ns

abbrev pub rank : Node → ℕ
rank n = if is n.status pending then 0 else 1

-- The rows that `GetNextPendingNode` considers.
abbrev pub is_due : ℕ → Node → Bool
is_due now n = (is n.status pending || is n.status completed) && leb n.next_crawl_at now

-- The order of the query: in flight, then pending before completed, then the due time.
abbrev pub goes_before : List Node → Node → Node → Bool
goes_before all a b =
    let x = inflight all a.user_id in
    let y = inflight all b.user_id in
    ltb x y
    || (x == y
        && (ltb (rank a) (rank b) || (rank a == rank b && ltb a.next_crawl_at b.next_crawl_at)))

-- The first row of the query; among rows that tie, the earlier of the table.
unfoldable pub first_due : List Node → ℕ → List Node → Option Node
first_due all now [] = none
first_due all now (n ∷ ns) =
    let rest = first_due all now ns in
    if is_due now n
    then elim rest [ none ↦ some n | some m ↦ if goes_before all m n then some m else some n ]
    else rest

-- `GetNextPendingNode`: the claimed row becomes 'crawling'.
unfoldable pub get_next_pending_node : Store → ℕ → Store × Option (Bytes × ℕ × ℕ)
get_next_pending_node s now = elim (first_due s.nodes now s.nodes) [
  | none ↦ (s, none)
  | some n ↦ (
    record s {
      nodes =
          update_where (has_key n.url n.user_id)
            (λ r. record r { status = crawling; crawl_started_at = some now }) s.nodes;
    },
    some (n.url, n.depth, n.user_id),
  )
]
