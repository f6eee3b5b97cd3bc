-- ===== src/Database/Operations/Keys.antt =====
-- Every operation keeps the primary key of `nodes` unique.
use go_dark_web_crawler.Common.{
  if◌then◌else◌, some, ℕ, refl, Bool, ◌&&◌, Option, List, ◌==◌, Bool-cases, Option-cases, inl, inr,
  ltb, leb,
}
use go_dark_web_crawler.Common.Text.{Bytes}
use go_dark_web_crawler.Database.Store.{Node, Store, find_row, blacklisted, new_row}
use go_dark_web_crawler.Database.Queue.{
  count_pending, insert_new, enqueue, insert_target, link, first_due, get_next_pending_node,
}
use go_dark_web_crawler.Database.Retry.{
  retried, fail_node_with_retry, mark_robots_blocked, reset_stuck_crawling, init_reset,
  requeue_check, requeue_write, requeue_for_crawl, revived, revive_failed_nodes,
}
use go_dark_web_crawler.Database.Blacklist.{
  block_domain, unblock_domain, Page, rewritten, revisited, content_hash_of, same_digest, save_page,
}
use go_dark_web_crawler.Database.Keys.{UniqueKeys, update_where-UniqueKeys, append-UniqueKeys}

insert_new-UniqueKeys : (n : Node) (ns : List Node) → UniqueKeys ns → UniqueKeys (insert_new n ns)
unfolding insert_new
insert_new-UniqueKeys n ns u = elim (Option-cases (find_row n.url n.user_id ns)) [
  | inl e ↦ rw (e, insert_new) (append-UniqueKeys ns n e u)
  | inr (m, e) ↦ rw (e, insert_new) u
]

insert_target-UniqueKeys :
    (n : Node) (ns : List Node) → UniqueKeys ns → UniqueKeys (insert_target n ns)
unfolding insert_target
insert_target-UniqueKeys n ns u = elim (Option-cases (find_row n.url n.user_id ns)) [
  | inl e ↦ rw (e, insert_target) (append-UniqueKeys ns n e u)
  | inr (m, e) ↦ rw (e, insert_target) (update_where-UniqueKeys _ _ ns (λ r. (refl, refl)) u)
]

pub enqueue-UniqueKeys :
    (s : Store) (now : ℕ) (url host : Bytes) (depth user max_pending : ℕ)
    → UniqueKeys s.nodes
    → UniqueKeys (enqueue s now url host depth user max_pending).0.nodes
unfolding enqueue
enqueue-UniqueKeys s now url host depth user max_pending u =
    elim (Bool-cases (blacklisted host s.blacklist)) [
      | inl e ↦ rw e u
      | inr e ↦
          elim (Bool-cases (ltb 0 max_pending && leb max_pending (count_pending user s.nodes))) [
            | inl full ↦ rw (e, full) u
            | inr room ↦ rw (e, room) (insert_new-UniqueKeys _ s.nodes u)
          ]
    ]

pub link-UniqueKeys :
    (s : Store) (now : ℕ) (source target host : Bytes) (depth user : ℕ)
    → UniqueKeys s.nodes
    → UniqueKeys (link s now source target host depth user).0.nodes
unfolding link
link-UniqueKeys s now source target host depth user u =
    let after =
      if blacklisted host s.blacklist
      then s.nodes
      else insert_target (new_row target (some host) depth user now) s.nodes in
    let kept : UniqueKeys after = elim (Bool-cases (blacklisted host s.blacklist)) [
      | inl e ↦ rw e u
      | inr e ↦ rw e (insert_target-UniqueKeys _ s.nodes u)
    ] in
    elim (Option-cases (find_row source user after)) [
      | inl e ↦ rw (e, link) u
      | inr (m, e) ↦ rw (e, link) kept
    ]

pub get_next_pending_node-UniqueKeys :
    (s : Store) (now : ℕ) → UniqueKeys s.nodes → UniqueKeys (get_next_pending_node s now).0.nodes
unfolding get_next_pending_node
get_next_pending_node-UniqueKeys s now u = elim (Option-cases (first_due s.nodes now s.nodes)) [
  | inl e ↦ rw (e, get_next_pending_node) u
  | inr (n, e) ↦
      rw (e, get_next_pending_node) (update_where-UniqueKeys _ _ s.nodes (λ r. (refl, refl)) u)
]

pub save_page-UniqueKeys :
    (sha256 : Bytes → Bytes) (s : Store) (now : ℕ) (url : Bytes) (page : Page)
    (keep_content : Option Bool) (user : ℕ)
    → UniqueKeys s.nodes
    → UniqueKeys (save_page sha256 s now url page keep_content user).0.nodes
unfolding save_page rewritten revisited new_row
save_page-UniqueKeys sha256 s now url page keep_content user u =
    elim (Option-cases (find_row url user s.nodes)) [
      | inl e ↦ elim (Option-cases keep_content) [
        | inl gone ↦ rw (e, gone, save_page) u
        | inr (b, there) ↦ rw (e, there, save_page) (append-UniqueKeys s.nodes _ e u)
      ]
      | inr (old, e) ↦
          elim (Bool-cases (
            same_digest old.content_hash
              (content_hash_of sha256 page.page_title page.page_content))) [
                | inl same ↦
                    rw (e, same, save_page)
                      (update_where-UniqueKeys _ _ s.nodes (λ r. (refl, refl)) u)
                | inr other ↦
                    rw (e, other, save_page)
                      (update_where-UniqueKeys _ _ s.nodes (λ r. (refl, refl)) u)
              ]
    ]

pub requeue_for_crawl-UniqueKeys :
    (s : Store) (now : ℕ) (url : Bytes) (user : ℕ)
    → UniqueKeys s.nodes
    → UniqueKeys (requeue_for_crawl s now url user).0.nodes
unfolding requeue_for_crawl requeue_write
requeue_for_crawl-UniqueKeys s now url user u =
    elim (Bool-cases (requeue_check s url user).can_requeue) [
      | inl e ↦ rw e (update_where-UniqueKeys _ _ s.nodes (λ r. (refl, refl)) u)
      | inr e ↦ rw e u
    ]

pub revive_failed_nodes-UniqueKeys :
    (s : Store) (now older_than limit : ℕ)
    → UniqueKeys s.nodes
    → UniqueKeys (revive_failed_nodes s now older_than limit).nodes
unfolding revive_failed_nodes revived
revive_failed_nodes-UniqueKeys s now older_than limit u = elim (Bool-cases (limit == 0)) [
  | inl e ↦ rw e u
  | inr e ↦ rw e (update_where-UniqueKeys _ _ s.nodes (λ r. (refl, refl)) u)
]

pub unblock_domain-UniqueKeys :
    (s : Store) (now : ℕ) (domain : Bytes)
    → UniqueKeys s.nodes
    → UniqueKeys (unblock_domain s now domain).0.nodes
unfolding unblock_domain
unblock_domain-UniqueKeys s now domain u = elim (Bool-cases (blacklisted domain s.blacklist)) [
  | inl e ↦ rw e (update_where-UniqueKeys _ _ s.nodes (λ r. (refl, refl)) u)
  | inr e ↦ rw e u
]

pub fail_node_with_retry-UniqueKeys :
    (s : Store) (now : ℕ) (url : Bytes) (user : ℕ)
    → UniqueKeys s.nodes
    → UniqueKeys (fail_node_with_retry s now url user).nodes
unfolding fail_node_with_retry retried
fail_node_with_retry-UniqueKeys s now url user u =
    update_where-UniqueKeys _ _ s.nodes (λ r. (refl, refl)) u

pub mark_robots_blocked-UniqueKeys :
    (s : Store) (now : ℕ) (url : Bytes) (user : ℕ)
    → UniqueKeys s.nodes
    → UniqueKeys (mark_robots_blocked s now url user).nodes
unfolding mark_robots_blocked
mark_robots_blocked-UniqueKeys s now url user u =
    update_where-UniqueKeys _ _ s.nodes (λ r. (refl, refl)) u

pub reset_stuck_crawling-UniqueKeys :
    (s : Store) (now older_than : ℕ)
    → UniqueKeys s.nodes
    → UniqueKeys (reset_stuck_crawling s now older_than).nodes
unfolding reset_stuck_crawling
reset_stuck_crawling-UniqueKeys s now older_than u =
    update_where-UniqueKeys _ _ s.nodes (λ r. (refl, refl)) u

pub init_reset-UniqueKeys : (s : Store) → UniqueKeys s.nodes → UniqueKeys (init_reset s).nodes
unfolding init_reset
init_reset-UniqueKeys s u = update_where-UniqueKeys _ _ s.nodes (λ r. (refl, refl)) u

pub block_domain-UniqueKeys :
    (s : Store) (domain : Bytes) → UniqueKeys s.nodes → UniqueKeys (block_domain s domain).nodes
unfolding block_domain
block_domain-UniqueKeys s domain u = update_where-UniqueKeys _ _ s.nodes (λ r. (refl, refl)) u
