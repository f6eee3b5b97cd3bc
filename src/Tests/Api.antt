-- ===== src/Tests/Api.antt =====
-- The rate limiter.
use go_dark_web_crawler.Common.{
  ℕ, ◌+◌, ◌≤◌, ◌≡◌, ◌↔◌, refl, Bool, true, false, Option, none, some, List, [], ◌∷◌, arith, length,
  All,
}
use go_dark_web_crawler.Common.Text.{Bytes, codes}
use go_dark_web_crawler.Common.Table.{lookup}
use go_dark_web_crawler.Api.RateLimit.{LimitBucket, CrawlLimiter}
use go_dark_web_crawler.Api.RateLimit.Window.{Event, asks, ticks, run, granted, window_budget}

abbrev bucket : LimitBucket
bucket = record { count = 3; reset_at = 100 }

abbrev limiter : CrawlLimiter
limiter = record { buckets = (codes "a", bucket) ∷ []; limit = 5; window = 60; max_buckets = 10 }

abbrev events : List (ℕ × Event)
events =
    (1, asks (codes "a") 1) ∷ (2, ticks) ∷ (3, asks (codes "b") 5) ∷ (4, asks (codes "a") 2) ∷ []

found : lookup (codes "a") limiter.buckets ≡ some bucket
unfolding lookup go_dark_web_crawler.Common.Text.bytes_eq
found = refl

window_budget_example :
    (bucket.count + granted (codes "a") limiter events ≤ limiter.limit)
    × (lookup (codes "a") (run limiter events).buckets
        ≡ some (record bucket { count = bucket.count + granted (codes "a") limiter events }))
unfolding lookup
window_budget_example =
    window_budget events limiter (codes "a") bucket (refl, tt) found (omega arith)
      (omega arith, (omega arith, (omega arith, (omega arith, tt))))
