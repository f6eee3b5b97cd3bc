-- ===== src/Database/Annotations/Watching.antt =====
-- The watches of annotations.go: starting and stopping one, folding a crawl result into it, and the feed of
-- events.
use go_dark_web_crawler.Common.{
  ℕ, ◌+◌, ◌*◌, Bool, true, false, not, ◌&&◌, ◌||◌, Option, none, some, List, [], ◌∷◌, ◌++◌, map,
  min, ltb, leb, take, keep, ◌==◌, if◌then◌else◌,
}
use go_dark_web_crawler.Common.Text.{Bytes, bytes_eq}
use go_dark_web_crawler.Common.Platform.{Platform}
use go_dark_web_crawler.Common.Select.{update_rows, count_rows, first_row, delete_rows, order_by}
use go_dark_web_crawler.Database.Store.{Node, day, has_key, find_row, update_where}
use go_dark_web_crawler.Database.Queue.{ok, err, canonical_crawl_url}
use go_dark_web_crawler.Database.Annotations.{
  Watch, WatchEvent, EventKind, content_changed, unreachable, recovered, Book, invalid_url,
  interval_out_of_range, Answer, done, failure, node_id_for, watch_on, watch_for,
}

abbrev pub min_watch_interval_days : ℕ
min_watch_interval_days = 1

abbrev pub max_watch_interval_days : ℕ
max_watch_interval_days = 365

-- A row as the INSERT leaves it: the other columns are NULL.
abbrev pub new_watch : ℕ → Bytes → ℕ → ℕ → Watch
new_watch now url user interval = record {
  owner = user;
  site = url;
  interval_days = interval;
  last_hash = none;
  last_status = none;
  last_reachable = none;
  last_checked_at = none;
  created_at = now;
}

-- `ON CONFLICT (user_id, node_id) DO UPDATE SET interval_days = EXCLUDED.interval_days`.
unfoldable pub put_watch : ℕ → Bytes → ℕ → ℕ → List Watch → List Watch
put_watch now url user interval ws = elim (first_row (watch_on url user) ws) [
  | none ↦ ws ++ new_watch now url user interval ∷ []
  | some _ ↦ update_rows (watch_on url user) (λ w. record w { interval_days = interval }) ws
]

-- `COALESCE(last_crawled_at, CURRENT_TIMESTAMP)`.
abbrev pub crawled_or : ℕ → Node → ℕ
crawled_or now n = elim n.last_crawled_at [ none ↦ now | some t ↦ t ]

-- The SET on the site's row.
unfoldable pub bring_forward : ℕ → ℕ → Node → Node
bring_forward now interval n = record n {
  re_crawl_interval_days = interval;
  next_crawl_at = min n.next_crawl_at (crawled_or now n + interval * day);
}

-- The two statements of `StartWatch`.
unfoldable pub begin_watch : Book → ℕ → Bytes → ℕ → ℕ → Book
begin_watch b now url user interval = record b {
  watches = put_watch now url user interval b.watches;
  nodes = update_where (has_key url user) (bring_forward now interval) b.nodes;
}

-- `StartWatch`.
unfoldable pub start_watch :
    Platform → Book → ℕ → Bytes → ℕ → ℕ → Book × Answer (Option (Watch × Bytes))
start_watch p b now raw user interval =
    if ltb interval min_watch_interval_days || ltb max_watch_interval_days interval
    then (b, failure interval_out_of_range)
    else elim (node_id_for p b.nodes raw user) [
      | failure e ↦ (b, failure e)
      | done url ↦
          let after = begin_watch b now url user interval in
          (after, done (watch_for after url user))
    ]

abbrev pub event_on : Bytes → ℕ → WatchEvent → Bool
event_on url user e = e.owner == user && bytes_eq e.site url

-- `DELETE FROM watches`, which cascades to the events of the watch.
unfoldable pub end_watch : Book → Bytes → ℕ → Book
end_watch b url user = record b {
  watches = delete_rows (watch_on url user) b.watches;
  events = delete_rows (event_on url user) b.events;
}

-- `StopWatch`.
unfoldable pub stop_watch : Platform → Book → Bytes → ℕ → Book × Answer (Unit {0})
stop_watch p b raw user = elim (node_id_for p b.nodes raw user) [
  | failure e ↦ (b, failure e)
  | done url ↦ (end_watch b url user, done tt)
]

-- The join with the site's row keeps the watches whose site is there, each with its title.
unfoldable pub with_titles : List Node → List Watch → List (Watch × Bytes)
with_titles nodes [] = []
with_titles nodes (w ∷ ws) =
    let rest = with_titles nodes ws in
    elim (find_row w.site w.owner nodes) [ none ↦ rest | some n ↦ (w, n.title) ∷ rest ]

-- `ListWatches`.
unfoldable pub list_watches : Book → ℕ → List (Watch × Bytes)
list_watches b user =
    order_by (λ v w. leb w.0.created_at v.0.created_at)
      (with_titles b.nodes (keep (λ w. w.owner == user) b.watches))

-- `reachable && (statusCode == 0 || statusCode < 400)`.
unfoldable pub answers : Bool → ℕ → Bool
answers reachable code = reachable && (code == 0 || ltb code 400)

unfoldable pub flip_event : Bool → Bool → List EventKind
flip_event was now_reachable =
    if was && not now_reachable
    then unreachable ∷ []
    else (if not was && now_reachable then recovered ∷ [] else [])

unfoldable pub content_event : Bool → Option Bytes → Option Bytes → List EventKind
content_event now_reachable (some old) (some new) =
    if now_reachable && not (bytes_eq old new) then content_changed ∷ [] else []
content_event now_reachable _ _ = []

-- The events that one observation is worth.
unfoldable pub kinds_of : Option Bool → Option Bytes → Option Bytes → Bool → List EventKind
kinds_of none last current now_reachable = []
kinds_of (some was) last current now_reachable =
    flip_event was now_reachable ++ content_event now_reachable last current

abbrev pub event_row : ℕ → Bytes → ℕ → ℕ → EventKind → WatchEvent
event_row now url user code kind = record {
  owner = user;
  site = url;
  kind = kind;
  status_code = code;
  detected_at = now;
  seen_at = none;
}

-- The two updates of the watch.
unfoldable pub advance : ℕ → Option Bytes → Bool → ℕ → Watch → Watch
advance now current now_reachable code w = record w {
  last_hash = if now_reachable then current else w.last_hash;
  last_status = some code;
  last_reachable = some now_reachable;
  last_checked_at = some now;
}

-- The transaction of `RecordWatchObservation`, for a canonical URL.
unfoldable pub observe : Book → ℕ → Bytes → ℕ → Bool → ℕ → Book
observe b now url user reachable code = elim (first_row (watch_on url user) b.watches) [
  | none ↦ b
  | some w ↦ elim (find_row url user b.nodes) [
    | none ↦ b
    | some n ↦
        let now_reachable = answers reachable code in
        let kinds = kinds_of w.last_reachable w.last_hash n.content_hash now_reachable in
        record b {
          events = b.events ++ map (event_row now url user code) kinds;
          watches =
              update_rows (watch_on url user) (advance now n.content_hash now_reachable code)
                b.watches;
        }
  ]
]

-- `RecordWatchObservation`.
unfoldable pub record_watch_observation :
    Platform → Book → ℕ → Bytes → ℕ → Bool → ℕ → Book × Answer (Unit {0})
record_watch_observation p b now raw user reachable code = elim (canonical_crawl_url p raw) [
  | err _ ↦ (b, failure invalid_url)
  | ok (url, _) ↦ (observe b now url user reachable code, done tt)
]

-- The limit that `ListWatchEvents` puts in place of one out of range.
unfoldable pub feed_limit : ℕ → ℕ
feed_limit limit = if limit == 0 || ltb 200 limit then 50 else limit

-- The join with the watch and the site's row, which the cascades keep.
unfoldable pub has_watch : Book → WatchEvent → Bool
has_watch b e = elim (first_row (watch_on e.site e.owner) b.watches) [
  | none ↦ false
  | some _ ↦ elim (find_row e.site e.owner b.nodes) [ none ↦ false | some _ ↦ true ]
]

-- `ListWatchEvents`: newest first. Rows of the same time change places, so the later one stands first.
unfoldable pub list_watch_events : Book → ℕ → ℕ → List WatchEvent
list_watch_events b user limit = take (feed_limit limit) (
    order_by (λ e f. ltb f.detected_at e.detected_at)
      (keep (λ e. e.owner == user && has_watch b e) b.events))

abbrev pub is_unseen : ℕ → WatchEvent → Bool
is_unseen user e = e.owner == user && elim e.seen_at [ none ↦ true | some _ ↦ false ]

-- `CountUnseenWatchEvents`.
unfoldable pub count_unseen : Book → ℕ → ℕ
count_unseen b user = count_rows (is_unseen user) b.events

-- `MarkWatchEventsSeen`.
unfoldable pub mark_seen : Book → ℕ → ℕ → Book × ℕ
mark_seen b now user = (
  record b {
    events = update_rows (is_unseen user) (λ e. record e { seen_at = some now }) b.events;
  },
  count_rows (is_unseen user) b.events,
)
