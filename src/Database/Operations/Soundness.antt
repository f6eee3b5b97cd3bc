-- ===== src/Database/Operations/Soundness.antt =====
-- The invariant of the crawl tables under every sequence of operations of db.go.
use go_dark_web_crawler.Common.{ℕ, Bool, Option, List, [], ◌∷◌, Bool-cases, inl, inr}
use go_dark_web_crawler.Common.Text.{Bytes, bytes_eq}
use go_dark_web_crawler.Common.Platform.{Platform}
use go_dark_web_crawler.Onion.{normalize_hostname}
use go_dark_web_crawler.Database.Store.{Store}
use go_dark_web_crawler.Database.Queue.{Result-cases, canonical_crawl_url, enqueue_url, save_edge}
use go_dark_web_crawler.Database.Blacklist.{add_blacklist, delete_blacklist, Page, save_node}
use go_dark_web_crawler.Database.Keys.{UniqueKeys}
use go_dark_web_crawler.Database.Refusal.{
  Refused, enqueue-Refused, link-Refused, save_page-Refused, reset_stuck_crawling-Refused,
  init_reset-Refused, fail_node_with_retry-Refused, mark_robots_blocked-Refused,
  block_domain-Refused, unblock_domain-Refused,
}
use go_dark_web_crawler.Database.Refusal.Steps.{
  get_next_pending_node-Refused, requeue_for_crawl-Refused, revive_failed_nodes-Refused,
}
use go_dark_web_crawler.Database.Operations.{
  Operation, enqueueing, linking, claiming, saving, failing, disallowing, requeueing, unsticking,
  starting, reviving, banning, pardoning, perform, perform_all,
}
use go_dark_web_crawler.Database.Operations.Keys.{
  enqueue-UniqueKeys, link-UniqueKeys, get_next_pending_node-UniqueKeys, save_page-UniqueKeys,
  requeue_for_crawl-UniqueKeys, revive_failed_nodes-UniqueKeys, unblock_domain-UniqueKeys,
  fail_node_with_retry-UniqueKeys, mark_robots_blocked-UniqueKeys, reset_stuck_crawling-UniqueKeys,
  init_reset-UniqueKeys, block_domain-UniqueKeys,
}

-- Keys are unique and the rows of blacklisted hosts are 'blocked'.
unfoldable pub IsSound : Store → Type 0
IsSound s = UniqueKeys s.nodes × Refused s

module _ (p : Platform) (sha256 : Bytes → Bytes) where
  enqueue_url-IsSound :
      (s : Store) (now : ℕ) (raw : Bytes) (depth user max_pending : ℕ)
      → IsSound s
      → IsSound (enqueue_url p s now raw depth user max_pending).0
  unfolding IsSound enqueue_url
  enqueue_url-IsSound s now raw depth user max_pending h =
      elim (Result-cases (canonical_crawl_url p raw)) [
        | inl (e, bad) ↦ rw (bad, enqueue_url) h
        | inr (x, good) ↦
            rw (good, enqueue_url)
              (
                enqueue-UniqueKeys s now x.0 x.1 depth user max_pending h.0,
                enqueue-Refused s now x.0 x.1 depth user max_pending h.1,
              )
      ]

  save_edge-IsSound :
      (s : Store) (now : ℕ) (source target : Bytes) (depth user : ℕ)
      → IsSound s
      → IsSound (save_edge p s now source target depth user).0
  unfolding IsSound save_edge
  save_edge-IsSound s now source target depth user h =
      elim (Result-cases (canonical_crawl_url p source)) [
        | inl (e, bad) ↦ rw (bad, save_edge) h
        | inr (x, good) ↦ elim (Result-cases (canonical_crawl_url p target)) [
          | inl (e, bad) ↦ rw (good, bad, save_edge) h
          | inr (y, fine) ↦
              rw (good, fine, save_edge)
                (
                  link-UniqueKeys s now x.0 y.0 y.1 depth user h.0,
                  link-Refused s now x.0 y.0 y.1 depth user h.1,
                )
        ]
      ]

  save_node-IsSound :
      (s : Store) (now : ℕ) (raw : Bytes) (page : Page) (keep_content : Option Bool) (user : ℕ)
      → IsSound s
      → IsSound (save_node p sha256 s now raw page keep_content user).0
  unfolding IsSound save_node
  save_node-IsSound s now raw page keep_content user h =
      elim (Result-cases (canonical_crawl_url p raw)) [
        | inl (e, bad) ↦ rw (bad, save_node) h
        | inr (x, good) ↦
            rw (good, save_node)
              (
                save_page-UniqueKeys sha256 s now x.0 page keep_content user h.0,
                save_page-Refused sha256 s now x.0 page keep_content user h.1,
              )
      ]

  add_blacklist-IsSound : (s : Store) (raw : Bytes) → IsSound s → IsSound (add_blacklist p s raw).0
  unfolding IsSound add_blacklist
  add_blacklist-IsSound s raw h = elim (Bool-cases (bytes_eq (normalize_hostname p raw) [])) [
    | inl e ↦ rw e h
    | inr e ↦
        rw e
          (block_domain-UniqueKeys s (normalize_hostname p raw) h.0, block_domain-Refused s _ h.1)
  ]

  delete_blacklist-IsSound :
      (s : Store) (now : ℕ) (raw : Bytes) → IsSound s → IsSound (delete_blacklist p s now raw).0
  unfolding IsSound delete_blacklist
  delete_blacklist-IsSound s now raw h =
      elim (Bool-cases (bytes_eq (normalize_hostname p raw) [])) [
        | inl e ↦ rw e h
        | inr e ↦ rw e (
          unblock_domain-UniqueKeys s now (normalize_hostname p raw) h.0,
          unblock_domain-Refused s now _ h.1,
        )
      ]

  pub perform-IsSound :
      (s : Store) (now : ℕ) (o : Operation) → IsSound s → IsSound (perform p sha256 s now o)
  unfolding IsSound perform
  perform-IsSound s now (enqueueing raw depth user max_pending) h =
      enqueue_url-IsSound s now raw depth user max_pending h
  perform-IsSound s now (linking source target depth user) h =
      save_edge-IsSound s now source target depth user h
  perform-IsSound s now claiming h =
      (get_next_pending_node-UniqueKeys s now h.0, get_next_pending_node-Refused s now h.0 h.1)
  perform-IsSound s now (saving raw page keep_content user) h =
      save_node-IsSound s now raw page keep_content user h
  perform-IsSound s now (failing url user) h = (
    fail_node_with_retry-UniqueKeys s now url user h.0,
    fail_node_with_retry-Refused s now url user h.1,
  )
  perform-IsSound s now (disallowing url user) h = (
    mark_robots_blocked-UniqueKeys s now url user h.0,
    mark_robots_blocked-Refused s now url user h.1,
  )
  perform-IsSound s now (requeueing url user) h = (
    requeue_for_crawl-UniqueKeys s now url user h.0,
    requeue_for_crawl-Refused s now url user h.0 h.1,
  )
  perform-IsSound s now (unsticking older_than) h = (
    reset_stuck_crawling-UniqueKeys s now older_than h.0,
    reset_stuck_crawling-Refused s now older_than h.1,
  )
  perform-IsSound s now starting h = (init_reset-UniqueKeys s h.0, init_reset-Refused s h.1)
  perform-IsSound s now (reviving older_than limit) h = (
    revive_failed_nodes-UniqueKeys s now older_than limit h.0,
    revive_failed_nodes-Refused s now older_than limit h.0 h.1,
  )
  perform-IsSound s now (banning domain) h = add_blacklist-IsSound s domain h
  perform-IsSound s now (pardoning domain) h = delete_blacklist-IsSound s now domain h

  -- From a database whose keys are unique and in which every row on a host of the blacklist is 'blocked',
  -- every sequence of operations, at any times, leads to such a database.
  pub perform_all-IsSound :
      (s : Store) (os : List (ℕ × Operation)) → IsSound s → IsSound (perform_all p sha256 s os)
  unfolding perform_all
  perform_all-IsSound s [] h = h
  perform_all-IsSound s ((now, o) ∷ os) h =
      perform_all-IsSound (perform p sha256 s now o) os (perform-IsSound s now o h)
