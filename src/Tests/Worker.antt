-- ===== src/Tests/Worker.antt =====
-- One turn of a worker.
use go_dark_web_crawler.Common.{arith, ◌≤◌, ℕ, ◌≡◌, true, false, none, some, [], ◌∷◌}
use go_dark_web_crawler.Common.Text.{Bytes, no_tables}
use go_dark_web_crawler.Crawler.Engine.{new_engine}
use go_dark_web_crawler.Crawler.Robots.{Reader, global_robots_cache}
use go_dark_web_crawler.Crawler.Worker.{Crawler, Turn, turn}
use go_dark_web_crawler.Crawler.Worker.Depth.{IsShallow, turn-IsShallow}
use go_dark_web_crawler.Database.Store.{completed, new_row}
use go_dark_web_crawler.Database.Queue.{get_next_pending_node}
use go_dark_web_crawler.Tests.World.{demo, page_url, site}

abbrev reader : Reader
reader = record { unicode = no_tables; seconds = λ s. none }

abbrev digest : Bytes → Bytes
digest s = s

abbrev crawler : Crawler
crawler = record {
  engine = new_engine 4 3;
  robots = global_robots_cache;
  store = record { nodes = new_row page_url (some site) 0 1 0 ∷ []; edges = []; blacklist = [] };
}

-- The site allows everything, and its page links to itself.
abbrev talking : Turn
talking = record {
  claimed_at = 5;
  robots_now = 5;
  robots_later = 6;
  robots_answer = none;
  visit = record { now = 7; later = 7; min_delay = 0; cancelled = false };
  scrape = some (record {
    page = record {
      page_title = [];
      page_server = [];
      page_code = 200;
      page_status = completed;
      page_metadata = [];
      page_content = [];
      page_category = [];
    };
    found_onions = page_url ∷ [];
    sitemap_urls = [];
  });
  saved_at = 8;
  keep_content = some true;
  renewed_at = 9;
  dialog = record {
    dials = false;
    cookie = none;
    sends_auth = false;
    auth_answer = none;
    sends_newnym = false;
    newnym_answer = none;
    ended_at = 9;
  };
}

shallow : IsShallow crawler.engine.max_depth crawler.store.nodes
unfolding new_engine new_row
shallow = (omega arith, tt)

turn-IsShallow_example :
    IsShallow crawler.engine.max_depth (turn demo reader digest crawler talking).0.store.nodes
    × ((url : Bytes) (depth user : ℕ)
        → (get_next_pending_node crawler.store 5).1 ≡ some (url, depth, user)
        → depth ≤ crawler.engine.max_depth)
turn-IsShallow_example = turn-IsShallow demo reader digest crawler talking shallow
