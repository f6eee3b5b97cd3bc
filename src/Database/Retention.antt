-- ===== src/Database/Retention.antt =====
-- What removes crawl data: `DeleteCrawlHistory`, `PurgeStoredContent` and `ApplyRetention` of
-- backend/internal/database/privacy.go. A node takes its links, tags, note, watch and events along, by the
-- cascades of the schema; a link belongs to its source.
pub mod Spared
pub mod Purge
use go_dark_web_crawler.Common.{
  ℕ, ◌+◌, ◌*◌, Bool, true, false, not, ◌&&◌, ◌||◌, Option, none, some, List, [], ◌∷◌, ltb, leb,
  take, length, keep, ◌==◌, if◌then◌else◌,
}
use go_dark_web_crawler.Common.Text.{Bytes, bytes_eq}
use go_dark_web_crawler.Common.Select.{count_rows, delete_rows, order_by, update_rows}
use go_dark_web_crawler.Database.Store.{
  crawling, is, Node, Edge, day, has_key, find_row, update_where, count_where,
}
use go_dark_web_crawler.Database.Annotations.{Book, tag_on, note_on, watch_on}

-- The crawl tables with the annotations.
pub record Archive : Type 0 where
  pub book : Book
  pub edges : List Edge

abbrev pub has_node : List Node → Bytes → ℕ → Bool
has_node ns url user = elim (find_row url user ns) [ none ↦ false | some _ ↦ true ]

-- The tables after the rows of `nodes` have become these: the cascades.
unfoldable pub with_nodes : Archive → List Node → Archive
with_nodes a ns = record {
  book = record {
    nodes = ns;
    tags = keep (λ t. has_node ns t.site t.owner) a.book.tags;
    notes = keep (λ t. has_node ns t.site t.owner) a.book.notes;
    watches = keep (λ w. has_node ns w.site w.owner) a.book.watches;
    events = keep (λ e. has_node ns e.site e.owner) a.book.events;
  };
  edges = keep (λ e. has_node ns e.source_url e.owner) a.edges;
}

-- `DeleteCrawlHistory`, and how many nodes went.
unfoldable pub delete_crawl_history : Archive → ℕ → Archive × ℕ
delete_crawl_history a user = (
  with_nodes a (delete_rows (λ n. n.user_id == user) a.book.nodes),
  count_rows (λ n. n.user_id == user) a.book.nodes,
)

abbrev pub has_content : ℕ → Node → Bool
has_content user n = n.user_id == user && not (bytes_eq n.content [])

abbrev pub without_content : Node → Node
without_content n = record n { content = []; content_hash = none }

-- `PurgeStoredContent`; no text reads as the empty one.
unfoldable pub purge_stored_content : List Node → ℕ → List Node × ℕ
purge_stored_content ns user =
    (update_where (has_content user) without_content ns, count_where (has_content user) ns)

-- An account with its window in days.
pub record Policy : Type 0 where
  pub user : ℕ
  pub days : ℕ

-- `last_crawled_at IS NULL OR last_crawled_at < cutoff`.
abbrev pub uncrawled_since : ℕ → ℕ → Node → Bool
uncrawled_since now days n = elim n.last_crawled_at [
  | none ↦ true
  | some t ↦ ltb (t + days * day) now
]

abbrev pub is_annotated : Book → Node → Bool
is_annotated b n = not (
    count_rows (tag_on n.url n.user_id) b.tags == 0
    && count_rows (note_on n.url n.user_id) b.notes == 0
    && count_rows (watch_on n.url n.user_id) b.watches == 0)

-- The condition on a row; the cut-off is the window before now, in days of 24 hours.
unfoldable pub outlived : Book → ℕ → Policy → Node → Bool
outlived b now p n =
    n.user_id == p.user
    && ltb (n.discovered_at + p.days * day) now
    && uncrawled_since now p.days n
    && not (is n.status crawling)
    && not (is_annotated b n)

unfoldable pub is_among : List Node → Node → Bool
is_among [] n = false
is_among (m ∷ ms) n = has_key m.url m.user_id n || is_among ms n

-- `SELECT id ... ORDER BY discovered_at LIMIT batch`.
unfoldable pub victims : Book → ℕ → ℕ → Policy → List Node
victims b now batch p =
    take batch
      (order_by (λ n m. leb n.discovered_at m.discovered_at) (keep (outlived b now p) b.nodes))

pub record Report : Type 0 where
  pub accounts : ℕ
  pub nodes_matched : ℕ
  pub nodes_deleted : ℕ
  pub dry_run : Bool

-- One account of the loop.
unfoldable pub retain : ℕ → ℕ → Archive × Report → Policy → Archive × Report
retain now batch (a, r) p =
    if r.dry_run
    then (
      a,
      record r {
        accounts = r.accounts + 1;
        nodes_matched = r.nodes_matched + count_rows (outlived a.book now p) a.book.nodes;
      },
    )
    else (let gone = victims a.book now batch p in
        let n = count_rows (is_among gone) a.book.nodes in
        (
          with_nodes a (delete_rows (is_among gone) a.book.nodes),
          record r {
            accounts = r.accounts + 1;
            nodes_matched = r.nodes_matched + n;
            nodes_deleted = r.nodes_deleted + n;
          },
        ))

unfoldable pub retain_all : ℕ → ℕ → Archive × Report → List Policy → Archive × Report
retain_all now batch ar [] = ar
retain_all now batch ar (p ∷ ps) = retain_all now batch (retain now batch ar p) ps

-- `ApplyRetention`, for the accounts with a window, in the order of their numbers; a batch of 0 or less
-- stands for 1000.
unfoldable pub apply_retention : Archive → ℕ → List Policy → ℕ → Bool → Archive × Report
apply_retention a now policies batch dry_run =
    retain_all now (if batch == 0 then 1000 else batch)
      (a, record { accounts = 0; nodes_matched = 0; nodes_deleted = 0; dry_run = dry_run })
      (keep (λ p. ltb 0 p.days) policies)
