-- ===== src/Api/RateLimit.antt =====
-- backend/internal/api/ratelimit.go: the fixed-window limiter and its two-front-door wrapper.
-- Times are nanoseconds of one clock; a call takes the clock reading that the code takes under the
-- mutex, so a history is a list of calls in the order in which they held it.
pub mod Bounds
pub mod Window
use go_dark_web_crawler.Common.{
  ℕ, ◌+◌, Bool, true, false, not, Option, none, some, List, [], ◌∷◌, ltb, leb, ◌==◌, length,
  if◌then◌else◌,
}
use go_dark_web_crawler.Common.Text.{Bytes, codes, bytes_eq}
use go_dark_web_crawler.Common.Table.{lookup, assign, keep_values}

pub record LimitBucket : Type 0 where
  pub count : ℕ
  pub reset_at : ℕ

abbrev pub Buckets : Type 0
Buckets = List (Bytes × LimitBucket)

pub record CrawlLimiter : Type 0 where
  pub buckets : Buckets
  pub limit : ℕ
  pub window : ℕ
  pub max_buckets : ℕ

unfoldable pub new_crawl_limiter : ℕ → ℕ → CrawlLimiter
new_crawl_limiter limit window = record {
  buckets = [];
  limit = limit;
  window = window;
  max_buckets = 100_000;
}

-- `for k, v := range buckets { if now.After(v.resetAt) { delete(buckets, k) } }`
unfoldable pub sweep : ℕ → Buckets → Buckets
unfolding keep_values
sweep now = keep_values (λ b. not (ltb b.reset_at now))

-- One tick of the goroutine that the constructor starts.
unfoldable pub gc : ℕ → CrawlLimiter → CrawlLimiter
unfolding sweep
gc now l = record l { buckets = sweep now l.buckets }

-- `l.buckets[key] = &limitBucket{...}`, and the call passes.
abbrev open_bucket : CrawlLimiter → ℕ → Bytes → ℕ → CrawlLimiter × Bool
open_bucket l now key n = (
  record l { buckets = assign key (record { count = n; reset_at = now + l.window }) l.buckets },
  true,
)

-- No bucket for the key: a full map is swept first, and refuses the call if it stays full.
first_request : CrawlLimiter → ℕ → Bytes → ℕ → CrawlLimiter × Bool
unfolding gc
first_request l now key n =
    if leb l.max_buckets (length l.buckets)
    then (let swept = gc now l in
        if leb l.max_buckets (length swept.buckets)
        then (swept, false)
        else open_bucket swept now key n)
    else open_bucket l now key n

-- The three ways of a call, by what the map holds for its key.
charge : Option LimitBucket → CrawlLimiter → ℕ → Bytes → ℕ → CrawlLimiter × Bool
unfolding first_request
charge none l now key n = if ltb l.limit n then (l, false) else first_request l now key n
charge (some b) l now key n =
    if ltb b.reset_at now
    then (if ltb l.limit n then (l, false) else open_bucket l now key n)
    else if ltb l.limit (b.count + n)
    then (l, false)
    else (record l { buckets = assign key (record b { count = b.count + n }) l.buckets }, true)

-- `AllowN`. A negative `n` is read as 0: both return true and change nothing.
unfoldable pub allow_n : CrawlLimiter → ℕ → Bytes → ℕ → CrawlLimiter × Bool
unfolding charge
allow_n l now key n = if n == 0 then (l, true) else charge (lookup key l.buckets) l now key n

-- `Allow`.
unfoldable pub allow : CrawlLimiter → ℕ → Bytes → CrawlLimiter × Bool
unfolding allow_n
allow l now key = allow_n l now key 1

pub record AnonLimiter : Type 0 where
  pub clearnet : CrawlLimiter
  pub onion : CrawlLimiter

unfoldable pub new_anon_limiter : ℕ → ℕ → ℕ → AnonLimiter
unfolding new_crawl_limiter
new_anon_limiter clearnet_limit onion_limit window = record {
  clearnet = new_crawl_limiter clearnet_limit window;
  onion = new_crawl_limiter onion_limit window;
}

-- `AnonLimiter.Allow`: the request is its network and its client address.
unfoldable pub anon_allow : AnonLimiter → ℕ → Bytes → Bytes → AnonLimiter × Bool
unfolding allow
anon_allow a now network ip =
    if bytes_eq network (codes "onion")
    then (let (l, passed) = allow a.onion now (codes "onion") in (record a { onion = l }, passed))
    else (let (l, passed) = allow a.clearnet now ip in (record a { clearnet = l }, passed))
