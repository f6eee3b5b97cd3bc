-- ===== src/Crawler/Robots.antt =====
-- robots.txt: backend/internal/crawler/robots.go. The lines that `bufio.Scanner` reads from the first 64 KiB
-- of a body, and the reading of a number of seconds by `strconv.ParseFloat`, are parameters. Times are
-- nanoseconds of one clock.
pub mod Rules
pub mod Cache
use go_dark_web_crawler.Common.{
  ℕ, suc, ◌+◌, ◌-◌, ◌*◌, Bool, true, false, not, ◌&&◌, ◌||◌, Option, none, some, List, [], ◌∷◌,
  ◌++◌, ltb, leb, ◌==◌, length, if◌then◌else◌,
}
use go_dark_web_crawler.Common.Text.{
  Bytes, bytes_eq, codes, has_prefix, Unicode, trim_space, to_lower, equal_fold,
}
use go_dark_web_crawler.Common.Table.{lookup, assign, delete}

abbrev pub second : ℕ
second = 1_000_000_000

abbrev pub robots_ttl : ℕ
robots_ttl = 3600 * second

abbrev pub robots_ua : Bytes
robots_ua = codes "OnionSpider"

-- `robotsEntry`.
pub record Entry : Type 0 where
  pub disallowed : List Bytes
  pub crawl_delay : ℕ
  pub fetched_at : ℕ
  pub ttl : ℕ

-- `robotsCache`.
pub record RobotsCache : Type 0 where
  pub entries : List (Bytes × Entry)
  pub max_size : ℕ

abbrev pub global_robots_cache : RobotsCache
global_robots_cache = record { entries = []; max_size = 500 }

-- The text before the first colon, and the text after it.
unfoldable pub split_colon : Bytes → Option (Bytes × Bytes)
split_colon [] = none
split_colon (c ∷ s) =
    let rest = split_colon s in
    if c == b':'
    then some ([], s)
    else elim rest [ none ↦ none | some (field, value) ↦ some (c ∷ field, value) ]

-- The local variables of `parseRobots`.
pub record Parse : Type 0 where
  pub paths : List Bytes
  pub wildcard_delay : ℕ
  pub ua_delay : ℕ
  pub applies : Bool
  pub ua_specific : Bool

abbrev pub start : Parse
start = record {
  paths = [];
  wildcard_delay = 0;
  ua_delay = 0;
  applies = false;
  ua_specific = false;
}

-- The two library functions: `seconds` is none where `ParseFloat` fails or the number is not above zero,
-- and else the duration.
pub record Reader : Type 0 where
  pub unicode : Unicode
  pub seconds : Bytes → Option ℕ

-- The cases of the switch on the field.
unfoldable pub directive : Reader → Bytes → Parse → Bytes → Bytes → Parse
directive r ua s field value =
    if bytes_eq field (codes "user-agent")
    then record s {
      ua_specific = equal_fold r.unicode value ua;
      applies = bytes_eq value (codes "*") || equal_fold r.unicode value ua;
    }
    else if bytes_eq field (codes "disallow")
    then if s.applies && not (bytes_eq value []) && ltb (length s.paths) 1000
      then record s { paths = s.paths ++ value ∷ [] }
      else s
    else if bytes_eq field (codes "crawl-delay") && s.applies
    then elim (r.seconds value) [
      | none ↦ s
      | some d ↦
          if s.ua_specific then record s { ua_delay = d } else record s { wildcard_delay = d }
    ]
    else s

-- One turn of the loop.
unfoldable pub parse_line : Reader → Bytes → Parse → Bytes → Parse
parse_line r ua s raw =
    let line = trim_space r.unicode raw in
    if has_prefix line (codes "#") || bytes_eq line [] then s else elim (split_colon line) [
      | none ↦ s
      | some (field, value) ↦
          directive r ua s (to_lower r.unicode (trim_space r.unicode field))
            (trim_space r.unicode value)
    ]

unfoldable pub parse_lines : Reader → Bytes → Parse → List Bytes → Parse
parse_lines r ua s [] = s
parse_lines r ua s (line ∷ lines) = parse_lines r ua (parse_line r ua s line) lines

-- `parseRobots`.
unfoldable pub parse_robots : Reader → Bytes → List Bytes → List Bytes × ℕ
parse_robots r ua lines =
    let s = parse_lines r ua start lines in
    (s.paths, if ltb 0 s.ua_delay then s.ua_delay else s.wildcard_delay)

-- `fetchRobots`, for the lines of an answer with status 200, or none.
unfoldable pub fetch_robots : Reader → Option (List Bytes) → ℕ → Entry
fetch_robots r none now = record {
  disallowed = [];
  crawl_delay = 0;
  fetched_at = now;
  ttl = robots_ttl;
}
fetch_robots r (some lines) now =
    let (paths, delay) = parse_robots r robots_ua lines in
    record { disallowed = paths; crawl_delay = delay; fetched_at = now; ttl = robots_ttl }

-- The loop of `evictOldest`: the key and the time that it has kept.
unfoldable pub oldest : Bytes → ℕ → List (Bytes × Entry) → Bytes
oldest key time [] = key
oldest key time ((k, v) ∷ m) =
    if bytes_eq key [] || ltb v.fetched_at time then oldest k v.fetched_at m else oldest key time m

-- `evictOldest`.
unfoldable pub evict_oldest : List (Bytes × Entry) → List (Bytes × Entry)
evict_oldest m = let key = oldest [] 0 m in if bytes_eq key [] then m else delete key m

-- The entry that the cache has for a host and that is not too old.
unfoldable pub cached : RobotsCache → Bytes → ℕ → Option Entry
cached c host now = elim (lookup host c.entries) [
  | none ↦ none
  | some e ↦ if ltb e.ttl (now - e.fetched_at) then none else some e
]

-- What `IsAllowed` and `CrawlDelay` do first: the entry of the host, from the cache at time `now`, or fetched
-- at time `later`.
unfoldable pub obtain :
    Reader → RobotsCache → Bytes → Option (List Bytes) → ℕ → ℕ → RobotsCache × Entry
obtain r c host answer now later = elim (cached c host now) [
  | some e ↦ (c, e)
  | none ↦
      let entry = fetch_robots r answer later in
      let kept : List (Bytes × Entry) = elim (lookup host c.entries) [
        | none ↦ c.entries
        | some e ↦ delete host c.entries
      ] in
      let room = if leb c.max_size (length kept) then evict_oldest kept else kept in
      (record c { entries = assign host entry room }, entry)
]

unfoldable pub path_allowed : List Bytes → Bytes → Bool
path_allowed [] path = true
path_allowed (prefix ∷ prefixes) path =
    if has_prefix path prefix then false else path_allowed prefixes path

-- `IsAllowed`, for the host and the path of a URL that parses. One that does not is allowed.
unfoldable pub is_allowed :
    Reader → RobotsCache → Bytes → Bytes → Option (List Bytes) → ℕ → ℕ → RobotsCache × Bool
is_allowed r c host path answer now later =
    let (after, entry) = obtain r c host answer now later in
    (after, path_allowed entry.disallowed (if bytes_eq path [] then codes "/" else path))

-- `CrawlDelay`, for the host of a URL that parses. One that does not has no delay.
unfoldable pub crawl_delay_of :
    Reader → RobotsCache → Bytes → Option (List Bytes) → ℕ → ℕ → RobotsCache × ℕ
crawl_delay_of r c host answer now later =
    let (after, entry) = obtain r c host answer now later in (after, entry.crawl_delay)
