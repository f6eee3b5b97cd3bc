-- ===== src/Tests/Database.antt =====
-- The crawl queue and the blacklist.
use go_dark_web_crawler.Common.{
  ℕ, suc, ◌+◌, ◌*◌, ◌≤◌, ◌<◌, ◌≡◌, ◌↔◌, refl, Bool, true, false, Option, none, some, List, [], ◌∷◌,
  arith, All, if◌then◌else◌, leb,
}
use go_dark_web_crawler.Common.Text.{Bytes, codes}
use go_dark_web_crawler.Database.Store.{
  Status, pending, crawling, failed, completed, blocked, is, Node, Store, minute, hour, has_key,
  find_row, blacklisted, new_row,
}
use go_dark_web_crawler.Database.Queue.{
  Result, ok, err, count_pending, enqueue, get_next_pending_node,
}
use go_dark_web_crawler.Database.Retry.{requeue_check, requeue_write}
use go_dark_web_crawler.Database.Blacklist.{Page, block_domain, save_page}
use go_dark_web_crawler.Database.Keys.{UniqueKeys}
use go_dark_web_crawler.Database.Operations.{
  Operation, enqueueing, claiming, failing, banning, perform_all,
}
use go_dark_web_crawler.Database.Operations.Soundness.{IsSound, perform_all-IsSound}
use go_dark_web_crawler.Database.Claims.Workers.{claim_once, claim_never_refused}
use go_dark_web_crawler.Database.Quota.{enqueue_brings}
use go_dark_web_crawler.Database.Failures.{
  Outcome, fetched, unreachable, settle, failures, settle_counts,
}
use go_dark_web_crawler.Database.Gaps.{requeue_after_ban, ban_misses_saved}
use go_dark_web_crawler.Tests.World.{demo, page_url, site}

abbrev a_url : Bytes
a_url = codes "a"

abbrev b_url : Bytes
b_url = codes "b"

abbrev a_host : Bytes
a_host = codes "h"

-- Two rows of two accounts; the second one's host is refused.
abbrev a_row : Node
a_row = new_row a_url (some a_host) 0 1 0

abbrev b_row : Node
b_row = record (new_row b_url (some (codes "bad")) 0 2 0) { status = blocked }

abbrev store : Store
store = record { nodes = a_row ∷ b_row ∷ []; edges = []; blacklist = codes "bad" ∷ [] }

abbrev digest : Bytes → Bytes
digest s = s

abbrev page : Page
page = record {
  page_title = codes "t";
  page_server = [];
  page_code = 200;
  page_status = completed;
  page_metadata = [];
  page_content = codes "text";
  page_category = [];
}

abbrev history : List (ℕ × Operation)
history =
    (0, enqueueing page_url 0 1 0) ∷ (1, banning site) ∷ (2, claiming) ∷ (3, failing a_url 1) ∷ []

store-IsSound : IsSound store
unfolding IsSound find_row go_dark_web_crawler.Common.Text.bytes_eq new_row
    go_dark_web_crawler.Database.Refusal.Refused go_dark_web_crawler.Database.Refusal.is_refused
    blacklisted is
store-IsSound = ((refl, (refl, tt)), (refl, (refl, tt)))

perform_all-IsSound_example : IsSound (perform_all demo digest store history)
perform_all-IsSound_example = perform_all-IsSound demo digest store history store-IsSound

nothing_done : (get_next_pending_node (perform_all demo digest store []) 7).1 ≡ some (a_url, 0, 1)
unfolding get_next_pending_node go_dark_web_crawler.Database.Queue.first_due perform_all is new_row
nothing_done = refl

claim_never_refused_example :
    (n : Node) × ((find_row a_url 1 (perform_all demo digest store []).nodes ≡ some n)
      × ((h : Bytes)
          → n.host ≡ some h
          → blacklisted h (perform_all demo digest store []).blacklist ≡ false))
claim_never_refused_example =
    claim_never_refused demo digest store [] 7 a_url 0 1 store-IsSound nothing_done

-- Two rows that are due.
abbrev busy : Store
busy = record store { nodes = a_row ∷ new_row b_url (some a_host) 0 2 0 ∷ [] }

busy-UniqueKeys : UniqueKeys busy.nodes
unfolding find_row go_dark_web_crawler.Common.Text.bytes_eq new_row
busy-UniqueKeys = (refl, (refl, tt))

claim_one : (get_next_pending_node busy 7).1 ≡ some (a_url, 0, 1)
unfolding get_next_pending_node go_dark_web_crawler.Database.Queue.first_due is new_row
    go_dark_web_crawler.Database.Store.count_where
claim_one = refl

claim_two : (get_next_pending_node (get_next_pending_node busy 7).0 8).1 ≡ some (b_url, 0, 2)
unfolding get_next_pending_node go_dark_web_crawler.Database.Queue.first_due is new_row
    go_dark_web_crawler.Database.Store.count_where go_dark_web_crawler.Database.Store.update_where
    go_dark_web_crawler.Common.Text.bytes_eq
claim_two = refl

abbrev a_user : ℕ
a_user = 1

abbrev b_user : ℕ
b_user = 2

claim_once_example : ¬ ((b_url ≡ a_url) × (b_user ≡ a_user))
claim_once_example =
    claim_once busy 7 8 a_url b_url 0 0 a_user b_user busy-UniqueKeys claim_one claim_two

enqueue_done : (enqueue store 5 b_url a_host 0 1 2).1 ≡ ok tt
unfolding enqueue blacklisted go_dark_web_crawler.Common.Text.bytes_eq count_pending
    go_dark_web_crawler.Database.Store.count_where new_row is
enqueue_done = refl

enqueue_brings_example :
    (blacklisted a_host store.blacklist ≡ false)
    × ((0 < 2 → count_pending 1 store.nodes < 2)
        × (find_row b_url 1 (enqueue store 5 b_url a_host 0 1 2).0.nodes
            ≡ elim (find_row b_url 1 store.nodes) [
              | some m ↦ some m
              | none ↦
                  if has_key b_url 1 (new_row b_url (some a_host) 0 1 5)
                  then some (new_row b_url (some a_host) 0 1 5)
                  else none
            ]))
enqueue_brings_example = enqueue_brings store 5 b_url a_host 0 1 2 b_url 1 enqueue_done

abbrev outcomes : List (ℕ × Outcome)
outcomes = (1, unreachable) ∷ (2, fetched page (some true)) ∷ (3, unreachable) ∷ []

a_found : find_row a_url 1 store.nodes ≡ some a_row
unfolding find_row go_dark_web_crawler.Common.Text.bytes_eq new_row
a_found = refl

a_open : is a_row.status blocked ≡ false
unfolding is new_row
a_open = refl

settle_counts_example :
    (m : Node) × ((find_row a_url 1 (settle digest store a_url 1 outcomes).nodes ≡ some m)
      × ((m.retry_count ≡ a_row.retry_count + failures outcomes) × (is m.status blocked ≡ false)))
settle_counts_example = settle_counts digest store a_url 1 outcomes a_row a_found a_open

a_host_known : a_row.host ≡ some a_host
unfolding new_row
a_host_known = refl

a_can : (requeue_check store a_url 1).can_requeue ≡ true
unfolding requeue_check find_row go_dark_web_crawler.Common.Text.bytes_eq new_row is
a_can = refl

requeue_after_ban_example :
    (m : Node) × ((find_row a_url 1 (requeue_write (block_domain store a_host) 9 a_url 1).nodes
        ≡ some m)
      × ((m.host ≡ some a_host)
          × ((m.status ≡ pending)
              × (blacklisted a_host (requeue_write (block_domain store a_host) 9 a_url 1).blacklist
                  ≡ true))))
requeue_after_ban_example =
    requeue_after_ban store 9 a_url a_host 1 a_row a_found a_host_known a_can

absent : find_row b_url 1 store.nodes ≡ none
unfolding find_row go_dark_web_crawler.Common.Text.bytes_eq new_row
absent = refl

ban_misses_saved_example :
    (m : Node) × ((find_row b_url 1
          (block_domain (save_page digest store 5 b_url page (some true) 1).0 a_host).nodes
        ≡ some m)
      × ((m.host ≡ none) × (m.status ≡ page.page_status)))
ban_misses_saved_example = ban_misses_saved digest store 5 b_url page true 1 a_host absent
