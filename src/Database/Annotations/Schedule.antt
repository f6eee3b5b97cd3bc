-- ===== src/Database/Annotations/Schedule.antt =====
-- What a started watch does to the schedule of its site.
use go_dark_web_crawler.Common.{ℕ, ◌+◌, ◌*◌, ◌≤◌, ◌≡◌, some}
use go_dark_web_crawler.Common.Text.{Bytes}
use go_dark_web_crawler.Common.Platform.{Platform}
use go_dark_web_crawler.Common.Select.{first_row}
use go_dark_web_crawler.Database.Store.{Node, day, find_row}
use go_dark_web_crawler.Database.Annotations.{Watch, Book, watch_on}
use go_dark_web_crawler.Database.Annotations.Watching.{crawled_or}

-- The site's row after the watch was started, for the row `n` that stood there.
abbrev pub IsScheduled : Book → ℕ → Bytes → ℕ → ℕ → Node → Type 0
IsScheduled after now url user interval n =
    (w : Watch) × ((m : Node) × ((first_row (watch_on url user) after.watches ≡ some w)
        × ((w.interval_days ≡ interval)
            × ((find_row url user after.nodes ≡ some m)
                × ((m.re_crawl_interval_days ≡ interval)
                    × ((m.next_crawl_at ≤ n.next_crawl_at)
                        × (m.next_crawl_at ≤ crawled_or now n + interval * day)))))))
