-- ===== src/Database/Operations.antt =====
-- The operations of backend/internal/database/db.go on the crawl tables as one type of requests, and
-- the run of a sequence of them: workers, accounts and administrators in any interleaving, one
-- transaction at a time.
pub mod Keys
pub mod Soundness
use go_dark_web_crawler.Common.{ℕ, Bool, Option, List, [], ◌∷◌}
use go_dark_web_crawler.Common.Text.{Bytes}
use go_dark_web_crawler.Common.Platform.{Platform}
use go_dark_web_crawler.Database.Store.{Store}
use go_dark_web_crawler.Database.Queue.{enqueue_url, save_edge, get_next_pending_node}
use go_dark_web_crawler.Database.Retry.{
  reset_stuck_crawling, init_reset, fail_node_with_retry, mark_robots_blocked, requeue_for_crawl,
  revive_failed_nodes,
}
use go_dark_web_crawler.Database.Blacklist.{add_blacklist, delete_blacklist, Page, save_node}

-- An operation with its arguments.
pub data Operation : Type 0 where
  enqueueing : Bytes → ℕ → ℕ → ℕ → Operation
  linking : Bytes → Bytes → ℕ → ℕ → Operation
  claiming : Operation
  saving : Bytes → Page → Option Bool → ℕ → Operation
  failing : Bytes → ℕ → Operation
  disallowing : Bytes → ℕ → Operation
  requeueing : Bytes → ℕ → Operation
  unsticking : ℕ → Operation
  starting : Operation
  reviving : ℕ → ℕ → Operation
  banning : Bytes → Operation
  pardoning : Bytes → Operation

module _ (p : Platform) (sha256 : Bytes → Bytes) where
  -- One operation at a time of the database's clock.
  unfoldable pub perform : Store → ℕ → Operation → Store
  perform s now (enqueueing raw depth user max_pending) =
      (enqueue_url p s now raw depth user max_pending).0
  perform s now (linking source target depth user) = (save_edge p s now source target depth user).0
  perform s now claiming = (get_next_pending_node s now).0
  perform s now (saving raw page keep_content user) =
      (save_node p sha256 s now raw page keep_content user).0
  perform s now (failing url user) = fail_node_with_retry s now url user
  perform s now (disallowing url user) = mark_robots_blocked s now url user
  perform s now (requeueing url user) = (requeue_for_crawl s now url user).0
  perform s now (unsticking older_than) = reset_stuck_crawling s now older_than
  perform s now starting = init_reset s
  perform s now (reviving older_than limit) = revive_failed_nodes s now older_than limit
  perform s now (banning domain) = (add_blacklist p s domain).0
  perform s now (pardoning domain) = (delete_blacklist p s now domain).0

  unfoldable pub perform_all : Store → List (ℕ × Operation) → Store
  perform_all s [] = s
  perform_all s ((now, o) ∷ os) = perform_all (perform s now o) os
