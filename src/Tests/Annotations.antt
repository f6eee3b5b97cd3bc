-- ===== src/Tests/Annotations.antt =====
-- Tags, watches, the reads of an account and the retention of its rows.
use go_dark_web_crawler.Common.{
  ℕ, ◌+◌, ◌≡◌, ◌≢◌, refl, Bool, true, false, Option, none, some, List, [], ◌∷◌, arith, All,
}
use go_dark_web_crawler.Common.Text.{Bytes, bytes_eq, codes}
use go_dark_web_crawler.Common.Select.{first_row, count_rows}
use go_dark_web_crawler.Database.Store.{Node, Store, completed, is, find_row, new_row}
use go_dark_web_crawler.Database.Blacklist.{Page, content_hash_of, same_digest, save_page}
use go_dark_web_crawler.Database.Annotations.{content_changed, Book, watch_on}
use go_dark_web_crawler.Database.Annotations.Watching.{new_watch, begin_watch}
use go_dark_web_crawler.Database.Annotations.Requests.{tagging, watching, serve, read_all}
use go_dark_web_crawler.Database.Annotations.Tags.{Traffic, Step, asking, storing, serving}
use go_dark_web_crawler.Database.Annotations.Isolation.Readings.{others_unseen}
use go_dark_web_crawler.Database.Annotations.Feed.{
  Crawl, observe_all, reported, expected, IsRecorded, feed_refines,
}
use go_dark_web_crawler.Database.Reads.{TextIndex, query_all}
use go_dark_web_crawler.Database.Reads.Own.{own_store, queries_own}
use go_dark_web_crawler.Database.Retention.{Archive, Policy, apply_retention}
use go_dark_web_crawler.Database.Retention.Purge.{text_of, purged, storage_off_sticks}
use go_dark_web_crawler.Database.Retention.Spared.{IsSpared, tagged, retention_spares}
use go_dark_web_crawler.Database.Keys.{UniqueKeys}
use go_dark_web_crawler.Tests.World.{demo, page_url}

abbrev here : Bytes
here = codes "http://a"

-- A crawled row of account 1, and one of account 2 at the same place.
abbrev crawled : Node
crawled = record (new_row here none 0 1 0) {
  status = completed;
  last_crawled_at = some 5;
  content = codes "old";
  content_hash = some (codes "d");
}

abbrev foreign : Node
foreign = new_row here none 0 2 0

abbrev watched_book : Book
watched_book = record {
  nodes = crawled ∷ foreign ∷ [];
  tags = record { owner = 1; site = here; tag = codes "shop" } ∷ [];
  notes = [];
  watches = new_watch 0 here 1 7 ∷ [];
  events = [];
}

-- An answer with a digest, a silence, and an answer with another one.
abbrev crawl_with : Bytes → Bool → ℕ → Crawl
crawl_with digest reachable at = record {
  nodes_after = record crawled { content_hash = some digest } ∷ [];
  at = at;
  reachable = reachable;
  code = 200;
}

abbrev crawls : List Crawl
crawls =
    crawl_with (codes "d") true 10
    ∷ crawl_with (codes "d") false 20
    ∷ crawl_with (codes "e") true 30
    ∷ []

watch_found : first_row (watch_on here 1) watched_book.watches ≡ some (new_watch 0 here 1 7)
unfolding first_row bytes_eq
watch_found = refl

crawls-IsRecorded : All (IsRecorded here 1) crawls
unfolding find_row bytes_eq new_row
crawls-IsRecorded = (
  (record crawled { content_hash = some (codes "d") }, (refl, λ _. (codes "d", refl))),
  (
    (record crawled { content_hash = some (codes "d") }, (refl, λ _. (codes "d", refl))),
    ((record crawled { content_hash = some (codes "e") }, (refl, λ _. (codes "e", refl))), tt),
  ),
)

feed_refines_example :
    reported here 1 content_changed (observe_all here 1 watched_book crawls)
    ≡ reported here 1 content_changed watched_book + expected here 1 content_changed crawls
feed_refines_example =
    feed_refines here 1 watched_book crawls (new_watch 0 here 1 7) watch_found refl refl
      crawls-IsRecorded content_changed

others_unseen_example :
    read_all demo (serve demo watched_book 5 1 (tagging page_url (codes "forum"))) 2 page_url 10
    ≡ read_all demo watched_book 2 page_url 10
others_unseen_example =
    others_unseen demo watched_book 5 1 2 (tagging page_url (codes "forum")) page_url 10
      (omega arith)

-- Two tags that are added side by side, and a watch.
abbrev steps : List Step
steps =
    asking 1 page_url (codes "forum")
    ∷ asking 1 page_url (codes "shop")
    ∷ serving 6 2 (watching page_url 7)
    ∷ storing 0
    ∷ storing 0
    ∷ []

abbrev open_book : Traffic
open_book = record {
  book = record watched_book { nodes = new_row page_url none 0 1 0 ∷ []; tags = [] };
  adding = [];
}

abbrev watched_page : Book
watched_page = begin_watch open_book.book 5 page_url 1 7

abbrev index : TextIndex
index = record { matches = λ q n. true; rank = λ q n. 0 }

abbrev two_owners : Store
two_owners = record {
  nodes = crawled ∷ foreign ∷ [];
  edges =
      record { source_url = here; target_url = here; owner = 1 }
      ∷ record { source_url = here; target_url = here; owner = 2 }
      ∷ [];
  blacklist = [];
}

queries_own_example :
    query_all index (own_store two_owners 1) (codes "old") [] here 10 0 1 false
    ≡ query_all index two_owners (codes "old") [] here 10 0 1 false
queries_own_example = queries_own index two_owners (codes "old") [] here 10 0 1

abbrev new_page : Page
new_page = record {
  page_title = codes "t";
  page_server = [];
  page_code = 200;
  page_status = completed;
  page_metadata = [];
  page_content = codes "text";
  page_category = [];
}

crawled_found : find_row here 1 two_owners.nodes ≡ some crawled
unfolding find_row bytes_eq new_row
crawled_found = refl

new_digest :
    same_digest crawled.content_hash (content_hash_of (λ s. s) (codes "t") (codes "text")) ≡ false
unfolding same_digest content_hash_of bytes_eq go_dark_web_crawler.Common.Hex.hex
new_digest = refl

storage_off_sticks_example :
    text_of here 1
      (save_page
        (λ s. s)
        (purged (save_page (λ s. s) two_owners 8 here new_page (some false) 1).0 1)
        9
        here
        new_page
        (some true)
        1).0
    ≡ some []
unfolding is
storage_off_sticks_example =
    storage_off_sticks (λ s. s) two_owners 8 9 here new_page 1 crawled crawled_found refl new_digest

abbrev archive : Archive
archive = record { book = watched_book; edges = two_owners.edges }

abbrev one_day : List Policy
one_day = record { user = 1; days = 1 } ∷ []

archive-UniqueKeys : UniqueKeys archive.book.nodes
unfolding find_row bytes_eq new_row
archive-UniqueKeys = (refl, (refl, tt))

-- Its row is old, and stays for its tag.
spared : All (λ p. IsSpared archive.book 1_000_000_000_000 p crawled) one_day
unfolding bytes_eq new_row count_rows
spared = (tagged (omega arith), tt)

retention_spares_example :
    find_row here 1 (apply_retention archive 1_000_000_000_000 one_day 100 false).0.book.nodes
    ≡ some crawled
retention_spares_example =
    retention_spares archive 1_000_000_000_000 100 false one_day here 1 crawled archive-UniqueKeys
      crawled_found spared
