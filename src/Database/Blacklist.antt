-- ===== src/Database/Blacklist.antt =====
-- The blacklist and the page store of backend/internal/database/db.go: the operations of the
-- administrators on a domain, and `SaveNode`, which records a fetched page.
use go_dark_web_crawler.Common.{
  ℕ, ◌+◌, ◌*◌, Bool, true, false, not, ◌&&◌, Option, none, some, List, [], ◌∷◌, ◌++◌, if◌then◌else◌,
}
use go_dark_web_crawler.Common.Text.{Bytes, bytes_eq, codes}
use go_dark_web_crawler.Common.Hex.{hex}
use go_dark_web_crawler.Common.Platform.{Platform}
use go_dark_web_crawler.Onion.{normalize_hostname}
use go_dark_web_crawler.Database.Store.{
  Status, pending, blocked, is, Node, Store, day, has_key, find_row, update_where, blacklisted,
  on_host, new_row,
}
use go_dark_web_crawler.Database.Queue.{
  foreign_key, Result, ok, err, invalid_onion_url, canonical_crawl_url,
}

-- The transaction of `AddBlacklist`, for a normalized domain.
unfoldable pub block_domain : Store → Bytes → Store
block_domain s domain = record s {
  blacklist = if blacklisted domain s.blacklist then s.blacklist else s.blacklist ++ domain ∷ [];
  nodes =
      update_where (λ n. on_host domain n && not (is n.status blocked))
        (λ n. record n { status = blocked }) s.nodes;
}

-- `AddBlacklist`.
unfoldable pub add_blacklist : Platform → Store → Bytes → Store × Result (Unit {0})
add_blacklist p s raw =
    let domain = normalize_hostname p raw in
    if bytes_eq domain [] then (s, err invalid_onion_url) else (block_domain s domain, ok tt)

-- `IsDomainBlacklisted`.
unfoldable pub is_domain_blacklisted : Platform → Store → Bytes → Result Bool
is_domain_blacklisted p s raw =
    let domain = normalize_hostname p raw in
    if bytes_eq domain [] then err invalid_onion_url else ok (blacklisted domain s.blacklist)

-- `DELETE FROM blacklist WHERE domain = $1`.
unfoldable pub strike : Bytes → List Bytes → List Bytes
strike domain [] = []
strike domain (d ∷ ds) = if bytes_eq d domain then strike domain ds else d ∷ strike domain ds

-- The transaction of `DeleteBlacklist`, for a normalized domain.
unfoldable pub unblock_domain : Store → ℕ → Bytes → Store × Bool
unblock_domain s now domain =
    if blacklisted domain s.blacklist
    then (
      record s {
        blacklist = strike domain s.blacklist;
        nodes =
            update_where (λ n. on_host domain n && is n.status blocked)
              (λ n. record n { status = pending; retry_count = 0; next_crawl_at = now }) s.nodes;
      },
      true,
    )
    else (s, false)

-- `DeleteBlacklist`.
unfoldable pub delete_blacklist : Platform → Store → ℕ → Bytes → Store × Result Bool
delete_blacklist p s now raw =
    let domain = normalize_hostname p raw in
    if bytes_eq domain []
    then (s, err invalid_onion_url)
    else let (after, found) = unblock_domain s now domain in (after, ok found)

-- What the worker hands to `SaveNode`.
pub record Page : Type 0 where
  pub page_title : Bytes
  pub page_server : Bytes
  pub page_code : ℕ
  pub page_status : Status
  pub page_metadata : Bytes
  pub page_content : Bytes
  pub page_category : Bytes

-- `ContentHash`; SHA-256 is a parameter.
unfoldable pub content_hash_of : (Bytes → Bytes) → Bytes → Bytes → Bytes
content_hash_of sha256 title content = hex (sha256 (title ++ codes "|" ++ content))

-- The SET of the full update, for the text that is kept and the digest of the text that was read.
unfoldable pub rewritten : ℕ → Page → Bytes → Bytes → Node → Node
rewritten now page kept digest n = record n {
  title = page.page_title;
  status_code = page.page_code;
  server_header = page.page_server;
  status = page.page_status;
  metadata = if bytes_eq page.page_metadata [] then codes "{}" else page.page_metadata;
  content = kept;
  content_hash = some digest;
  category = page.page_category;
  last_crawled_at = some now;
  next_crawl_at = now + n.re_crawl_interval_days * day;
}

-- The SET of the minimal update.
unfoldable pub revisited : ℕ → Page → Node → Node
revisited now page n = record n {
  status_code = page.page_code;
  server_header = page.page_server;
  status = page.page_status;
  last_crawled_at = some now;
  next_crawl_at = now + n.re_crawl_interval_days * day;
}

abbrev pub open_row : Bytes → ℕ → Node → Bool
open_row url user n = has_key url user n && not (is n.status blocked)

-- The text that is stored under the account's preference; none where the account is gone.
unfoldable pub kept_text : Option Bool → Bytes → Bytes
kept_text none text = []
kept_text (some b) text = if b then text else []

unfoldable pub same_digest : Option Bytes → Bytes → Bool
same_digest none digest = false
same_digest (some h) digest = bytes_eq h digest

-- The statements of `SaveNode` for a canonical URL; `keep_content` is the preference that its query reads.
-- Where the account is gone there is none, and the key of `nodes` on the account refuses a new row.
unfoldable pub save_page :
    (Bytes → Bytes) → Store → ℕ → Bytes → Page → Option Bool → ℕ → Store × Result Bool
save_page sha256 s now url page keep_content user =
    let digest = content_hash_of sha256 page.page_title page.page_content in
    let kept = kept_text keep_content page.page_content in
    elim (find_row url user s.nodes) [
      | none ↦ elim keep_content [
        | none ↦ (s, err foreign_key)
        | some _ ↦ (
          record s {
            nodes = s.nodes ++ rewritten now page kept digest (new_row url none 0 user now) ∷ [];
          },
          ok true,
        )
      ]
      | some old ↦
          if same_digest old.content_hash digest
          then (
            record s { nodes = update_where (open_row url user) (revisited now page) s.nodes },
            ok false,
          )
          else (
            record s {
              nodes = update_where (open_row url user) (rewritten now page kept digest) s.nodes;
            },
            ok true,
          )
    ]

-- `SaveNode`.
unfoldable pub save_node :
    Platform → (Bytes → Bytes) → Store → ℕ → Bytes → Page → Option Bool → ℕ → Store × Result Bool
save_node p sha256 s now raw page keep_content user = elim (canonical_crawl_url p raw) [
  | err e ↦ (s, err e)
  | ok (url, _) ↦ save_page sha256 s now url page keep_content user
]
