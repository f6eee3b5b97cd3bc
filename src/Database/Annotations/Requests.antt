-- ===== src/Database/Annotations/Requests.antt =====
-- What an account may ask of annotations.go, as one type of requests, and all that an account can read.
use go_dark_web_crawler.Common.{ℕ, Bool, List, [], ◌∷◌}
use go_dark_web_crawler.Common.Text.{Bytes}
use go_dark_web_crawler.Common.Platform.{Platform}
use go_dark_web_crawler.Database.Annotations.{
  Watch, WatchEvent, Book, Answer, Annotation, add_tag, remove_tag, set_note, get_annotation,
  list_tags,
}
use go_dark_web_crawler.Database.Annotations.Watching.{
  start_watch, stop_watch, record_watch_observation, list_watches, list_watch_events, count_unseen,
  mark_seen,
}

-- The operations that change a table, with the arguments beside the account.
pub data Request : Type 0 where
  tagging : Bytes → Bytes → Request
  untagging : Bytes → Bytes → Request
  noting : Bytes → Bytes → Request
  watching : Bytes → ℕ → Request
  unwatching : Bytes → Request
  observing : Bytes → Bool → ℕ → Request
  clearing : Request

module _ (p : Platform) where
  -- A request of an account at a time.
  unfoldable pub serve : Book → ℕ → ℕ → Request → Book
  serve b now user (tagging raw text) = (add_tag p b raw user text).0
  serve b now user (untagging raw text) = (remove_tag p b raw user text).0
  serve b now user (noting raw text) = (set_note p b raw user text).0
  serve b now user (watching raw interval) = (start_watch p b now raw user interval).0
  serve b now user (unwatching raw) = (stop_watch p b raw user).0
  serve b now user (observing raw reachable code) =
      (record_watch_observation p b now raw user reachable code).0
  serve b now user clearing = (mark_seen b now user).0

  unfoldable pub serve_all : Book → List (ℕ × (ℕ × Request)) → Book
  serve_all b [] = b
  serve_all b ((now, (user, r)) ∷ rs) = serve_all (serve b now user r) rs

  -- All that an account can read: of one site, and of the whole.
  pub record Reading : Type 0 where
    pub site : Answer Annotation
    pub labels : List (Bytes × ℕ)
    pub watched : List (Watch × Bytes)
    pub feed : List WatchEvent
    pub unseen : ℕ

  unfoldable pub read_all : Book → ℕ → Bytes → ℕ → Reading
  read_all b user raw limit = record {
    site = get_annotation p b raw user;
    labels = list_tags b user;
    watched = list_watches b user;
    feed = list_watch_events b user limit;
    unseen = count_unseen b user;
  }
