-- ===== src/Database/Refusal.antt =====
-- A domain on the blacklist stays out of the queue: the operations of db.go against the rows whose host
-- is refused.
pub mod Steps
use go_dark_web_crawler.Common.{
  ℕ, ltb, leb, ◌+◌, ◌*◌, ◌≡◌, refl, sym, Bool, true, false, not, ◌&&◌, ◌||◌, Option, none, some,
  List, [], ◌∷◌, ◌++◌, arith, All, Bool-cases, Option-cases, if◌then◌else◌, inl, inr, take, keep,
}
use go_dark_web_crawler.Common.Text.{Bytes, bytes_eq, bytes_eq_iff}
use go_dark_web_crawler.Database.Store.{
  Status, pending, crawling, completed, failed, blocked, is, Node, Store, day, has_key, find_row,
  update_where, blacklisted, on_host, new_row,
}
use go_dark_web_crawler.Database.Queue.{
  enqueue, insert_new, insert_target, link, count_pending, is_due, first_due, get_next_pending_node,
}
use go_dark_web_crawler.Database.Retry.{
  not_blocked, retried, fail_node_with_retry, mark_robots_blocked, reset_stuck_crawling, init_reset,
  requeue_check, requeue_write, requeue_for_crawl, among, revived, is_stale_failure, sort_by_time,
  revive_failed_nodes,
}
use go_dark_web_crawler.Database.Blacklist.{
  block_domain, strike, unblock_domain, Page, rewritten, revisited, kept_text, content_hash_of,
  same_digest, save_page,
}
use go_dark_web_crawler.Database.Rows.{
  find_row-append, All-update_where, All-append_one, All-find_row, All-update_where_each,
}

-- A row of a blacklisted host is 'blocked'. A row without a host names no domain.
unfoldable pub is_refused : List Bytes → Node → Bool
is_refused bl n = elim n.host [
  | none ↦ true
  | some h ↦ not (blacklisted h bl) || is n.status blocked
]

unfoldable pub Refused : Store → Type 0
Refused s = All (λ n. is_refused s.blacklist n ≡ true) s.nodes

pub blacklisted-append :
    (h d : Bytes) (bl : List Bytes)
    → blacklisted h (bl ++ d ∷ []) ≡ (blacklisted h bl || bytes_eq d h)
unfolding blacklisted
blacklisted-append h d [] = ground arith
blacklisted-append h d (b ∷ bl) = ground (arith, blacklisted-append h d bl)

pub blacklisted-strike :
    (h d : Bytes) (bl : List Bytes)
    → blacklisted h (strike d bl) ≡ (not (bytes_eq d h) && blacklisted h bl)
unfolding blacklisted strike
blacklisted-strike h d [] = ground arith
blacklisted-strike h d (b ∷ bl) =
    ground (arith, blacklisted-strike h d bl, bytes_eq_iff b d, bytes_eq_iff b h, bytes_eq_iff d h)

pub same_host-refused :
    (bl : List Bytes) (n m : Node)
    → m.host ≡ n.host
    → is n.status blocked ≡ false
    → is_refused bl n ≡ true
    → is_refused bl m ≡ true
unfolding is_refused
same_host-refused bl n m same out r = elim (Option-cases n.host) [
  | inl e ↦ ground arith
  | inr (x, e) ↦ ground arith
]

-- An update of rows that are not 'blocked' and that keeps the host.
update-Refused :
    (bl : List Bytes) (p : Node → Bool) (f : Node → Node) (ns : List Node)
    → ((n : Node) → p n ≡ true → is n.status blocked ≡ false)
    → ((n : Node) → (f n).host ≡ n.host)
    → All (λ n. is_refused bl n ≡ true) ns
    → All (λ n. is_refused bl n ≡ true) (update_where p f ns)
update-Refused bl p f ns out same h =
    All-update_where (λ n. is_refused bl n ≡ true) p f ns
      (λ n t r. same_host-refused bl n (f n) (same n) (out n t) r) h

-- The row that an insertion brings, on a host that is not blacklisted.
insert_new-Refused :
    (bl : List Bytes) (n : Node) (ns : List Node)
    → is_refused bl n ≡ true
    → All (λ m. is_refused bl m ≡ true) ns
    → All (λ m. is_refused bl m ≡ true) (insert_new n ns)
unfolding insert_new
insert_new-Refused bl n ns q h = elim (Option-cases (find_row n.url n.user_id ns)) [
  | inl e ↦ rw (e, insert_new) (All-append_one (λ m. is_refused bl m ≡ true) ns n h q)
  | inr (m, e) ↦ rw (e, insert_new) h
]

insert_target-Refused :
    (bl : List Bytes) (n : Node) (ns : List Node)
    → is_refused bl n ≡ true
    → All (λ m. is_refused bl m ≡ true) ns
    → All (λ m. is_refused bl m ≡ true) (insert_target n ns)
unfolding insert_target is
insert_target-Refused bl n ns q h = elim (Option-cases (find_row n.url n.user_id ns)) [
  | inl e ↦ rw (e, insert_target) (All-append_one (λ m. is_refused bl m ≡ true) ns n h q)
  | inr (m, e) ↦
      rw (e, insert_target) (update-Refused bl _ _ ns (λ r t. ground arith) (λ r. refl) h)
]

new_row-refused :
    (bl : List Bytes) (url host : Bytes) (depth user now : ℕ)
    → blacklisted host bl ≡ false
    → is_refused bl (new_row url (some host) depth user now) ≡ true
unfolding is_refused new_row
new_row-refused bl url host depth user now e = rw e refl

pub enqueue-Refused :
    (s : Store) (now : ℕ) (url host : Bytes) (depth user max_pending : ℕ)
    → Refused s
    → Refused (enqueue s now url host depth user max_pending).0
unfolding enqueue Refused
enqueue-Refused s now url host depth user max_pending h =
    elim (Bool-cases (blacklisted host s.blacklist)) [
      | inl e ↦ rw e h
      | inr e ↦
          elim (Bool-cases (ltb 0 max_pending && leb max_pending (count_pending user s.nodes))) [
            | inl full ↦ rw (e, full) h
            | inr room ↦
                rw (e, room)
                  (insert_new-Refused s.blacklist _ s.nodes
                    (new_row-refused s.blacklist url host depth user now e) h)
          ]
    ]

pub link-Refused :
    (s : Store) (now : ℕ) (source target host : Bytes) (depth user : ℕ)
    → Refused s
    → Refused (link s now source target host depth user).0
unfolding link Refused
link-Refused s now source target host depth user h =
    let after =
      if blacklisted host s.blacklist
      then s.nodes
      else insert_target (new_row target (some host) depth user now) s.nodes in
    let kept : All (λ n. is_refused s.blacklist n ≡ true) after =
      elim (Bool-cases (blacklisted host s.blacklist)) [
        | inl e ↦ rw e h
        | inr e ↦ rw e (
            insert_target-Refused s.blacklist _ s.nodes
              (new_row-refused s.blacklist target host depth user now e) h)
      ] in
    elim (Option-cases (find_row source user after)) [
      | inl e ↦ rw (e, link) h
      | inr (m, e) ↦ rw (e, link) kept
    ]

hostless-refused : (bl : List Bytes) (n : Node) → n.host ≡ none → is_refused bl n ≡ true
unfolding is_refused
hostless-refused bl n e = rw e refl

pub save_page-Refused :
    (sha256 : Bytes → Bytes) (s : Store) (now : ℕ) (url : Bytes) (page : Page)
    (keep_content : Option Bool) (user : ℕ)
    → Refused s
    → Refused (save_page sha256 s now url page keep_content user).0
unfolding Refused rewritten revisited save_page new_row kept_text
save_page-Refused sha256 s now url page keep_content user h =
    elim (Option-cases (find_row url user s.nodes)) [
      | inl e ↦ elim (Option-cases keep_content) [
        | inl gone ↦ rw (e, gone, save_page) h
        | inr (b, known) ↦
            rw (e, known, save_page)
              (All-append_one (λ n. is_refused s.blacklist n ≡ true) s.nodes _ h
                (hostless-refused s.blacklist _ refl))
      ]
      | inr (old, e) ↦
          let digest = content_hash_of sha256 page.page_title page.page_content in
          elim (Bool-cases (same_digest old.content_hash digest)) [
            | inl same ↦
                rw (e, same, save_page)
                  (update-Refused s.blacklist _ _ s.nodes (λ n t. ground arith) (λ n. refl) h)
            | inr other ↦
                rw (e, other, save_page)
                  (update-Refused s.blacklist _ _ s.nodes (λ n t. ground arith) (λ n. refl) h)
          ]
    ]

pub reset_stuck_crawling-Refused :
    (s : Store) (now older_than : ℕ) → Refused s → Refused (reset_stuck_crawling s now older_than)
unfolding Refused reset_stuck_crawling is
reset_stuck_crawling-Refused s now older_than h =
    update-Refused s.blacklist _ _ s.nodes (λ n t. ground arith) (λ n. refl) h

pub init_reset-Refused : (s : Store) → Refused s → Refused (init_reset s)
unfolding Refused init_reset is
init_reset-Refused s h = update-Refused s.blacklist _ _ s.nodes (λ n t. ground arith) (λ n. refl) h

pub fail_node_with_retry-Refused :
    (s : Store) (now : ℕ) (url : Bytes) (user : ℕ)
    → Refused s
    → Refused (fail_node_with_retry s now url user)
unfolding Refused fail_node_with_retry retried
fail_node_with_retry-Refused s now url user h =
    update-Refused s.blacklist _ _ s.nodes (λ n t. ground arith) (λ n. refl) h

pub mark_robots_blocked-Refused :
    (s : Store) (now : ℕ) (url : Bytes) (user : ℕ)
    → Refused s
    → Refused (mark_robots_blocked s now url user)
unfolding Refused mark_robots_blocked
mark_robots_blocked-Refused s now url user h =
    update-Refused s.blacklist _ _ s.nodes (λ n t. ground arith) (λ n. refl) h

block_row-refused :
    (bl : List Bytes) (domain : Bytes) (n : Node)
    → is_refused bl n ≡ true
    → is_refused
        (if blacklisted domain bl then bl else bl ++ domain ∷ [])
        (if on_host domain n && not (is n.status blocked) then record n { status = blocked } else n)
      ≡ true
unfolding is_refused on_host is
block_row-refused bl domain n r = elim (Option-cases n.host) [
  | inl e ↦ ground arith
  | inr (x, e) ↦
      ground (arith, blacklisted-append x domain bl, bytes_eq_iff domain x, bytes_eq_iff x domain)
]

pub block_domain-Refused :
    (s : Store) (domain : Bytes) → Refused s → Refused (block_domain s domain)
unfolding Refused block_domain
block_domain-Refused s domain h =
    All-update_where_each _ (λ n. is_refused (block_domain s domain).blacklist n ≡ true) _ _ s.nodes
      (λ n r. block_row-refused s.blacklist domain n r) h

unblock_row-refused :
    (bl : List Bytes) (domain : Bytes) (now : ℕ) (n : Node)
    → is_refused bl n ≡ true
    → is_refused (strike domain bl) (
        if on_host domain n && is n.status blocked
        then record n { status = pending; retry_count = 0; next_crawl_at = now }
        else n)
      ≡ true
unfolding is_refused on_host is
unblock_row-refused bl domain now n r = elim (Option-cases n.host) [
  | inl e ↦ ground arith
  | inr (x, e) ↦
      ground (arith, blacklisted-strike x domain bl, bytes_eq_iff domain x, bytes_eq_iff x domain)
]

pub unblock_domain-Refused :
    (s : Store) (now : ℕ) (domain : Bytes) → Refused s → Refused (unblock_domain s now domain).0
unfolding Refused unblock_domain
unblock_domain-Refused s now domain h = elim (Bool-cases (blacklisted domain s.blacklist)) [
  | inl e ↦ rw e (
      All-update_where_each _ (λ n. is_refused (strike domain s.blacklist) n ≡ true) _ _ s.nodes
        (λ n r. unblock_row-refused s.blacklist domain now n r) h)
  | inr e ↦ rw e h
]
