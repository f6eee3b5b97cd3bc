-- ===== src/Tests/Crawler.antt =====
-- The engine and robots.txt.
use go_dark_web_crawler.Common.{
  ℕ, ◌+◌, ◌≤◌, ◌≡◌, refl, min, max, Bool, true, false, Option, none, some, List, [], ◌∷◌, arith,
  length, All,
}
use go_dark_web_crawler.Common.Text.{Bytes, bytes_eq, codes, no_tables}
use go_dark_web_crawler.Crawler.Engine.{Engine, Visit}
use go_dark_web_crawler.Crawler.Engine.Politeness.{
  Event, visits, cleans, slots, gap, Spaced, slots-Spaced,
}
use go_dark_web_crawler.Crawler.Robots.{
  Entry, RobotsCache, Reader, global_robots_cache, robots_ua, parse_robots, path_allowed, obtain,
}
use go_dark_web_crawler.Crawler.Robots.Rules.{addresses, foreign_rules_ignored}

abbrev engine : Engine
engine = record {
  workers = 4;
  max_depth = 3;
  max_pending_per_user = 0;
  tor_ctrl =
      some (record { addr = []; password = []; cookie_path = []; last_renewal = 0; cooldown = 10 });
  domain_last_access = [];
  global_error_count = 4;
  domain_delay = 5;
}

abbrev visit : ℕ → Visit
visit t = record { now = t; later = t; min_delay = 0; cancelled = false }

abbrev events : List Event
events =
    visits (codes "a") (visit 10)
    ∷ visits (codes "a") (visit 11)
    ∷ cleans 9
    ∷ visits (codes "b") (visit 13)
    ∷ []

slots-Spaced_example : Spaced (gap engine) (slots (codes "a") engine events)
slots-Spaced_example =
    slots-Spaced events engine (codes "a") 0 tt
      (omega arith, omega arith, (omega arith, omega arith, (omega arith, omega arith, tt)))

abbrev reader : Reader
reader = record { unicode = no_tables; seconds = λ s. some 7 }

abbrev foreign : List Bytes
foreign = codes "User-agent: Other" ∷ codes "Disallow: /" ∷ []

not_addressed : All (λ l. addresses reader robots_ua l ≡ false) foreign
unfolding addresses go_dark_web_crawler.Crawler.Robots.split_colon
    go_dark_web_crawler.Common.Text.trim_space bytes_eq go_dark_web_crawler.Common.Text.to_lower
    go_dark_web_crawler.Common.Text.equal_fold
not_addressed = (refl, (refl, tt))

foreign_rules_ignored_example :
    (path_allowed (parse_robots reader robots_ua foreign).0 (codes "/x") ≡ true)
    × ((parse_robots reader robots_ua foreign).1 ≡ 0)
foreign_rules_ignored_example =
    foreign_rules_ignored reader robots_ua foreign (codes "/x") not_addressed
