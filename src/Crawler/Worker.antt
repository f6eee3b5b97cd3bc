-- ===== src/Crawler/Worker.antt =====
-- One turn of `worker` in backend/internal/crawler/engine.go: claim a row, ask robots.txt, wait, fetch, and
-- record. What the network gives is an argument. The watch of an account and the metrics are left out.
pub mod Depth
use go_dark_web_crawler.Common.{
  ℕ, ◌+◌, Bool, true, false, not, Option, none, some, List, [], ◌∷◌, ltb, ◌==◌, if◌then◌else◌,
}
use go_dark_web_crawler.Common.Text.{Bytes, codes}
use go_dark_web_crawler.Common.Platform.{Platform}
use go_dark_web_crawler.Onion.{is_v3_url}
use go_dark_web_crawler.Proxy.TorController.{Dialog}
use go_dark_web_crawler.Crawler.Engine.{
  Engine, Visit, wait_for_domain, on_network_error, on_success,
}
use go_dark_web_crawler.Crawler.Robots.{Reader, RobotsCache, is_allowed, crawl_delay_of}
use go_dark_web_crawler.Database.Store.{Store, completed}
use go_dark_web_crawler.Database.Queue.{
  ok, err, enqueue_url, save_edge, get_next_pending_node, Result,
}
use go_dark_web_crawler.Database.Retry.{fail_node_with_retry, mark_robots_blocked}
use go_dark_web_crawler.Database.Blacklist.{Page, save_node}

-- What the workers share.
pub record Crawler : Type 0 where
  pub engine : Engine
  pub robots : RobotsCache
  pub store : Store

-- What `ScrapePage` and `FetchSitemapURLs` find.
pub record Scrape : Type 0 where
  pub page : Page
  pub found_onions : List Bytes
  pub sitemap_urls : List Bytes

-- What one turn meets: its clock readings, the answer for robots.txt, whether the wait is cut short, the
-- page or an error, the account's preference, and the control port. Each time is one of the clock of its
-- part.
pub record Turn : Type 0 where
  pub claimed_at : ℕ
  pub robots_now : ℕ
  pub robots_later : ℕ
  pub robots_answer : Option (List Bytes)
  pub visit : Visit
  pub scrape : Option Scrape
  pub saved_at : ℕ
  pub keep_content : Option Bool
  pub renewed_at : ℕ
  pub dialog : Dialog

-- How a turn ends.
pub data End : Type 0 where
  idle not_onion disallowed cancelled unfetched fetched : End

module _ (p : Platform) (r : Reader) (sha256 : Bytes → Bytes) where
  -- `IsAllowed` and then `CrawlDelay`: a URL that does not parse is allowed, without delay.
  unfoldable pub ask_robots : RobotsCache → Bytes → Turn → RobotsCache × Bool × ℕ
  ask_robots c url t = elim (p.url_parse url) [
    | none ↦ (c, true, 0)
    | some u ↦
        let (asked, allowed) =
          is_allowed r c u.host u.path t.robots_answer t.robots_now t.robots_later in
        if allowed
        then (let (after, delay) =
              crawl_delay_of r asked u.host t.robots_answer t.robots_later t.robots_later in
            (after, true, delay))
        else (asked, false, 0)
  ]

  -- `for _, foundUrl := range ... { e.DB.SaveEdge(...) }`: a link that fails is logged and skipped.
  unfoldable pub save_edges : Store → ℕ → Bytes → List Bytes → ℕ → ℕ → Store
  save_edges s now source [] depth user = s
  save_edges s now source (target ∷ targets) depth user =
      save_edges (save_edge p s now source target depth user).0 now source targets depth user

  -- `SaveNode`, and the retry if it fails.
  unfoldable pub record_page : Store → Turn → Bytes → Scrape → ℕ → Store
  record_page s t url found user =
      let page = record found.page { page_status = completed } in
      let (saved, answer) = save_node p sha256 s t.saved_at url page t.keep_content user in
      elim answer [ ok _ ↦ saved | err _ ↦ fail_node_with_retry saved t.saved_at url user ]

  -- The links of a page, and at depth 0 those of the sitemap.
  unfoldable pub record_links : Engine → Store → Turn → Bytes → Scrape → ℕ → ℕ → Store
  record_links e s t url found depth user =
      if ltb depth e.max_depth
      then (let linked = save_edges s t.saved_at url found.found_onions (depth + 1) user in
          if depth == 0 then save_edges linked t.saved_at url found.sitemap_urls 1 user else linked)
      else s

  -- From the fetch on.
  unfoldable pub fetch : Crawler → Turn → Bytes → ℕ → ℕ → Crawler × End
  fetch w t url depth user = elim t.scrape [
    | none ↦ (
      record w {
        engine = (on_network_error w.engine t.renewed_at t.dialog).0;
        store = fail_node_with_retry w.store t.saved_at url user;
      },
      unfetched,
    )
    | some found ↦ (
      record w {
        engine = on_success w.engine;
        store = record_links w.engine (record_page w.store t url found user) t url found depth user;
      },
      fetched,
    )
  ]

  -- From the claim on, for a URL that is an onion's.
  unfoldable pub visit_site : Crawler → Turn → Bytes → ℕ → ℕ → Crawler × End
  visit_site w t url depth user =
      let (asked, allowed, delay) = ask_robots w.robots url t in
      if allowed
      then (let (waited, go) =
            wait_for_domain p w.engine url (record t.visit { min_delay = delay }) in
          let ready : Crawler = record w { engine = waited; robots = asked } in
          if go then fetch ready t url depth user else (ready, cancelled))
      else (
        record w { robots = asked; store = mark_robots_blocked w.store t.saved_at url user },
        disallowed,
      )

  -- `worker`, one turn of its loop.
  unfoldable pub turn : Crawler → Turn → Crawler × End
  turn w t =
      let (claimed, job) = get_next_pending_node w.store t.claimed_at in
      let taken : Crawler = record w { store = claimed } in
      elim job [
        | none ↦ (taken, idle)
        | some (url, depth, user) ↦ if is_v3_url p url then visit_site taken t url depth user else (
          record taken { store = mark_robots_blocked claimed t.saved_at url user },
          not_onion,
        )
      ]

  -- `AddToQueue`.
  unfoldable pub add_to_queue : Crawler → ℕ → Bytes → ℕ → Crawler × Result (Unit {0})
  add_to_queue w now raw user =
      let (after, answer) = enqueue_url p w.store now raw 0 user w.engine.max_pending_per_user in
      (record w { store = after }, answer)
