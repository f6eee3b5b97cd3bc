-- ===== src/Database/Store.antt =====
-- The rows of `nodes`, `edges` and `blacklist` (db.go and migrations/000001_init.up.sql), and the SQL
-- that the statements share. The column `id` is left out: the URL and the account name a row;
-- and so is `search_vector`, which the database computes.
use go_dark_web_crawler.Common.{
  ℕ, ◌+◌, ◌*◌, Bool, true, false, ◌&&◌, Option, none, some, List, [], ◌∷◌, ◌==◌, if◌then◌else◌,
}
use go_dark_web_crawler.Common.Text.{Bytes, bytes_eq}

pub data Status : Type 0 where
  pending crawling completed failed blocked : Status

-- Equality in SQL, `processing_status = '...'`.
unfoldable pub is : Status → Status → Bool
is pending pending = true
is crawling crawling = true
is completed completed = true
is failed failed = true
is blocked blocked = true
is _ _ = false

pub record Node : Type 0 where
  pub url : Bytes
  pub user_id : ℕ
  pub host : Option Bytes
  pub status : Status
  pub depth : ℕ
  pub retry_count : ℕ
  pub next_crawl_at : ℕ
  pub discovered_at : ℕ
  pub crawl_started_at : Option ℕ
  pub re_crawl_interval_days : ℕ
  pub last_crawled_at : Option ℕ
  pub title : Bytes
  pub status_code : ℕ
  pub server_header : Bytes
  pub metadata : Bytes
  pub content : Bytes
  pub content_hash : Option Bytes
  pub category : Bytes

pub record Edge : Type 0 where
  pub source_url : Bytes
  pub target_url : Bytes
  pub owner : ℕ

pub record Store : Type 0 where
  pub nodes : List Node
  pub edges : List Edge
  pub blacklist : List Bytes

abbrev pub second : ℕ
second = 1_000_000

abbrev pub minute : ℕ
minute = 60 * second

abbrev pub hour : ℕ
hour = 60 * minute

abbrev pub day : ℕ
day = 24 * hour

-- The primary key of a row.
abbrev pub has_key : Bytes → ℕ → Node → Bool
has_key url user n = bytes_eq n.url url && n.user_id == user

unfoldable pub find_row : Bytes → ℕ → List Node → Option Node
find_row url user [] = none
find_row url user (n ∷ ns) = if has_key url user n then some n else find_row url user ns

-- `UPDATE nodes SET ... WHERE ...`.
unfoldable pub update_where : (Node → Bool) → (Node → Node) → List Node → List Node
update_where p f [] = []
update_where p f (n ∷ ns) = (if p n then f n else n) ∷ update_where p f ns

-- `SELECT COUNT(*) ... WHERE ...`.
unfoldable pub count_where : (Node → Bool) → List Node → ℕ
count_where p [] = 0
count_where p (n ∷ ns) = (if p n then 1 else 0) + count_where p ns

-- `SELECT EXISTS (SELECT 1 FROM blacklist WHERE domain = $1)`.
unfoldable pub blacklisted : Bytes → List Bytes → Bool
blacklisted domain [] = false
blacklisted domain (d ∷ ds) = if bytes_eq d domain then true else blacklisted domain ds

-- `host = $1`: NULL equals nothing.
unfoldable pub on_host : Bytes → Node → Bool
on_host domain n = elim n.host [ none ↦ false | some h ↦ bytes_eq h domain ]

-- A row as an INSERT that names url, host, depth and user leaves it: the other columns take the
-- defaults of the schema. The time is `CURRENT_TIMESTAMP`.
unfoldable pub new_row : Bytes → Option Bytes → ℕ → ℕ → ℕ → Node
new_row url host depth user now = record {
  url = url;
  user_id = user;
  host = host;
  status = pending;
  depth = depth;
  retry_count = 0;
  next_crawl_at = now;
  discovered_at = now;
  crawl_started_at = none;
  re_crawl_interval_days = 7;
  last_crawled_at = none;
  title = [];
  status_code = 0;
  server_header = [];
  metadata = [];
  content = [];
  content_hash = none;
  category = [];
}
