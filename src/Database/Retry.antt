-- ===== src/Database/Retry.antt =====
-- The operations of backend/internal/database/db.go that put a row back into the queue or take it out:
-- the resets after a crash, the retries with backoff, the requests of an account and the sweep that
-- revives failed rows.
use go_dark_web_crawler.Common.{
  ℕ, ◌+◌, ◌*◌, ◌^◌, min, Bool, true, false, not, ◌&&◌, ◌||◌, none, some, List, [], ◌∷◌, ltb, leb,
  ◌==◌, take, keep, if◌then◌else◌,
}
use go_dark_web_crawler.Common.Text.{Bytes}
use go_dark_web_crawler.Database.Store.{
  pending, crawling, failed, blocked, is, Node, Store, second, minute, hour, day, has_key, find_row,
  update_where,
}

-- `ResetStuckCrawling`: the age is whole seconds, as the code prints it.
unfoldable pub reset_stuck_crawling : Store → ℕ → ℕ → Store
reset_stuck_crawling s now older_than = record s {
  nodes =
      update_where
        (λ n.
          is n.status crawling
          && elim n.crawl_started_at [ none ↦ false | some t ↦ ltb (t + older_than * second) now ])
        (λ n. record n { status = pending; crawl_started_at = none }) s.nodes;
}

-- The reset in `InitDB`.
unfoldable pub init_reset : Store → Store
init_reset s = record s {
  nodes = update_where (λ n. is n.status crawling) (λ n. record n { status = pending }) s.nodes;
}

-- LEAST(1 minute * (10 * 2 ^ retry_count), 48 hours).
unfoldable pub backoff : ℕ → ℕ
backoff retry_count = min (minute * (10 * 2 ^ retry_count)) (48 * hour)

abbrev pub not_blocked : Bytes → ℕ → Node → Bool
not_blocked url user n = has_key url user n && not (is n.status blocked)

unfoldable pub retried : ℕ → Node → Node
unfolding backoff
retried now n = record n {
  retry_count = n.retry_count + 1;
  status = if leb 4 n.retry_count then failed else pending;
  next_crawl_at = now + backoff n.retry_count;
}

-- `FailNodeWithRetry`.
unfoldable pub fail_node_with_retry : Store → ℕ → Bytes → ℕ → Store
fail_node_with_retry s now url user = record s {
  nodes = update_where (not_blocked url user) (retried now) s.nodes;
}

-- `MarkRobotsBlocked`.
unfoldable pub mark_robots_blocked : Store → ℕ → Bytes → ℕ → Store
mark_robots_blocked s now url user = record s {
  nodes =
      update_where (not_blocked url user)
        (λ n. record n { status = failed; retry_count = 10; next_crawl_at = now + 30 * day })
        s.nodes;
}

-- The answer of `RequeueForCrawl`: whether the row is there, and whether it may be crawled again.
pub record Requeue : Type 0 where
  pub found : Bool
  pub can_requeue : Bool

-- The SELECT of `RequeueForCrawl` with the tests on what it read.
unfoldable pub requeue_check : Store → Bytes → ℕ → Requeue
requeue_check s url user = elim (find_row url user s.nodes) [
  | none ↦ record { found = false; can_requeue = false }
  | some n ↦
      if is n.status crawling || is n.status blocked
      then record { found = true; can_requeue = false }
      else record { found = true; can_requeue = true }
]

-- The UPDATE of `RequeueForCrawl`, a statement of its own.
unfoldable pub requeue_write : Store → ℕ → Bytes → ℕ → Store
requeue_write s now url user = record s {
  nodes =
      update_where (has_key url user) (λ n. record n { status = pending; next_crawl_at = now })
        s.nodes;
}

-- `RequeueForCrawl` when no other statement runs between its two.
unfoldable pub requeue_for_crawl : Store → ℕ → Bytes → ℕ → Store × Requeue
requeue_for_crawl s now url user =
    let answer = requeue_check s url user in
    if answer.can_requeue then (requeue_write s now url user, answer) else (s, answer)

-- `ORDER BY next_crawl_at ASC`, by insertion.
unfoldable pub insert_by_time : Node → List Node → List Node
insert_by_time n [] = n ∷ []
insert_by_time n (m ∷ ms) =
    let rest = insert_by_time n ms in
    if leb n.next_crawl_at m.next_crawl_at then n ∷ m ∷ ms else m ∷ rest

unfoldable pub sort_by_time : List Node → List Node
sort_by_time [] = []
sort_by_time (n ∷ ns) = insert_by_time n (sort_by_time ns)

-- The rows that the sweep may revive.
unfoldable pub is_stale_failure : ℕ → ℕ → Node → Bool
is_stale_failure now older_than n =
    is n.status failed && ltb (n.next_crawl_at + older_than * second) now

-- `(url, user_id) IN (SELECT ...)`.
unfoldable pub among : List Node → Node → Bool
among [] n = false
among (m ∷ ms) n = has_key m.url m.user_id n || among ms n

unfoldable pub revived : ℕ → Node → Node
revived now n = record n { status = pending; retry_count = 0; next_crawl_at = now }

-- `ReviveFailedNodes`.
unfoldable pub revive_failed_nodes : Store → ℕ → ℕ → ℕ → Store
revive_failed_nodes s now older_than limit = if limit == 0 then s else record s {
  nodes =
      update_where
        (among (take limit (sort_by_time (keep (is_stale_failure now older_than) s.nodes))))
        (revived now) s.nodes;
}
