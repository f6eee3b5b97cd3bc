-- ===== src/Crawler/Worker/Depth.antt =====
-- How deep a crawl goes.
use go_dark_web_crawler.Common.{
  ℕ, ◌+◌, ◌≤◌, ◌≡◌, refl, sym, Bool, Option, some, List, [], ◌∷◌, arith, ltb, ◌==◌, All, Bool-cases,
  Option-cases, inl, inr, if◌then◌else◌,
}
use go_dark_web_crawler.Common.Table.{lookup}
use go_dark_web_crawler.Common.Text.{Bytes}
use go_dark_web_crawler.Common.Platform.{Platform}
use go_dark_web_crawler.Onion.{is_v3_url}
use go_dark_web_crawler.Crawler.Engine.{
  polite_delay, Engine, Visit, wait_for_domain, wait_for_host, reserve,
}
use go_dark_web_crawler.Crawler.Robots.{Reader}
use go_dark_web_crawler.Crawler.Worker.{
  Crawler, Scrape, Turn, ask_robots, save_edges, record_page, record_links, fetch, visit_site, turn,
}
use go_dark_web_crawler.Database.Store.{completed, Node, Store, find_row, blacklisted, new_row}
use go_dark_web_crawler.Database.Rows.{All-update_where, All-append_one}
use go_dark_web_crawler.Database.Queue.{
  Result-cases, canonical_crawl_url, first_due, insert_target, link, save_edge,
  get_next_pending_node,
}
use go_dark_web_crawler.Database.Retry.{retried, fail_node_with_retry, mark_robots_blocked}
use go_dark_web_crawler.Database.Blacklist.{
  Page, rewritten, revisited, same_digest, content_hash_of, save_page, save_node,
}
use go_dark_web_crawler.Database.Refusal.Steps.{first_due-picked}

-- No row is deeper than a bound.
abbrev pub IsShallow : ℕ → List Node → Type 0
IsShallow most ns = All (λ n. n.depth ≤ most) ns

module _ (most : ℕ) where
  save_page-IsShallow :
      (sha256 : Bytes → Bytes) (s : Store) (now : ℕ) (url : Bytes) (page : Page)
      (keep_content : Option Bool) (user : ℕ)
      → IsShallow most s.nodes
      → IsShallow most (save_page sha256 s now url page keep_content user).0.nodes
  unfolding save_page rewritten revisited new_row
  save_page-IsShallow sha256 s now url page keep_content user h =
      elim (Option-cases (find_row url user s.nodes)) [
        | inl e ↦ elim (Option-cases keep_content) [
          | inl gone ↦ rw (e, gone, save_page) h
          | inr (b, there) ↦
              rw (e, there, save_page)
                (All-append_one (λ n. n.depth ≤ most) s.nodes _ h (omega arith))
        ]
        | inr (old, e) ↦
            elim (Bool-cases (
              same_digest old.content_hash
                (content_hash_of sha256 page.page_title page.page_content))) [
                  | inl same ↦
                      rw (e, same, save_page)
                        (All-update_where (λ n. n.depth ≤ most) _ _ s.nodes (λ n t d. d) h)
                  | inr other ↦
                      rw (e, other, save_page)
                        (All-update_where (λ n. n.depth ≤ most) _ _ s.nodes (λ n t d. d) h)
                ]
      ]

  insert_target-IsShallow :
      (n : Node) (ns : List Node)
      → n.depth ≤ most
      → IsShallow most ns
      → IsShallow most (insert_target n ns)
  unfolding insert_target
  insert_target-IsShallow n ns low h = elim (Option-cases (find_row n.url n.user_id ns)) [
    | inl e ↦ rw (e, insert_target) (All-append_one (λ m. m.depth ≤ most) ns n h low)
    | inr (m, e) ↦
        rw (e, insert_target) (All-update_where (λ m. m.depth ≤ most) _ _ ns (λ m t d. low) h)
  ]

  link-IsShallow :
      (s : Store) (now : ℕ) (source target host : Bytes) (depth user : ℕ)
      → depth ≤ most
      → IsShallow most s.nodes
      → IsShallow most (link s now source target host depth user).0.nodes
  unfolding link
  link-IsShallow s now source target host depth user low h =
      let row : Node = new_row target (some host) depth user now in
      let after = if blacklisted host s.blacklist then s.nodes else insert_target row s.nodes in
      let low_row : row.depth ≤ most = unfold new_row in low in
      let kept : IsShallow most after = elim (Bool-cases (blacklisted host s.blacklist)) [
        | inl e ↦ rw e h
        | inr e ↦ rw e (insert_target-IsShallow row s.nodes low_row h)
      ] in
      elim (Option-cases (find_row source user after)) [
        | inl e ↦ rw (e, link) h
        | inr (m, e) ↦ rw (e, link) kept
      ]

  updated-IsShallow :
      (s : Store) (now : ℕ) (url : Bytes) (user : ℕ)
      → IsShallow most s.nodes
      → IsShallow most (fail_node_with_retry s now url user).nodes
        × IsShallow most (mark_robots_blocked s now url user).nodes
  unfolding fail_node_with_retry mark_robots_blocked retried
  updated-IsShallow s now url user h = (
    All-update_where (λ m. m.depth ≤ most) _ _ s.nodes (λ m t d. d) h,
    All-update_where (λ m. m.depth ≤ most) _ _ s.nodes (λ m t d. d) h,
  )

  -- The claim, and the depth of the claimed row.
  claim-IsShallow :
      (s : Store) (now : ℕ)
      → IsShallow most s.nodes
      → IsShallow most (get_next_pending_node s now).0.nodes
        × ((url : Bytes) (depth user : ℕ)
            → (get_next_pending_node s now).1 ≡ some (url, depth, user)
            → depth ≤ most)
  unfolding get_next_pending_node
  claim-IsShallow s now h = elim (Option-cases (first_due s.nodes now s.nodes)) [
    | inl e ↦ rw (e, get_next_pending_node) (h, λ url depth user f. absurd (cc f))
    | inr (n, e) ↦
        let low : n.depth ≤ most =
          (first_due-picked (λ m. m.depth ≤ most) s.nodes now s.nodes n h e).0 in
        rw (e, get_next_pending_node)
          (
            All-update_where (λ m. m.depth ≤ most) _ _ s.nodes (λ m t d. d) h,
            λ url depth user f. let same : n.depth ≡ depth = cc f in rw (sym same) low,
          )
  ]

-- Waiting changes no bound.
wait-max_depth :
    (p : Platform) (e : Engine) (url : Bytes) (v : Visit)
    → (wait_for_domain p e url v).0.max_depth ≡ e.max_depth
unfolding wait_for_domain wait_for_host reserve
wait-max_depth p e url v = elim (Option-cases (p.url_parse url)) [
  | inl f ↦ rw (f, wait_for_domain) refl
  | inr (u, f) ↦ elim (Option-cases (lookup u.host e.domain_last_access)) [
    | inl g ↦ rw (f, g, wait_for_domain, reserve) refl
    | inr (last, g) ↦ elim (Bool-cases (ltb v.now (last + polite_delay e v.min_delay))) [
      | inl k ↦ rw (f, g, wait_for_domain, reserve) (rw k refl)
      | inr k ↦ rw (f, g, wait_for_domain, reserve) (rw k refl)
    ]
  ]
]

module _ (p : Platform) (r : Reader) (sha256 : Bytes → Bytes) (most : ℕ) where
  save_edges-IsShallow :
      (s : Store) (now : ℕ) (source : Bytes) (targets : List Bytes) (depth user : ℕ)
      → depth ≤ most
      → IsShallow most s.nodes
      → IsShallow most (save_edges p r sha256 s now source targets depth user).nodes
  unfolding save_edges save_edge
  save_edges-IsShallow s now source [] depth user low h = h
  save_edges-IsShallow s now source (target ∷ targets) depth user low h =
      save_edges-IsShallow (save_edge p s now source target depth user).0 now source targets depth
        user low
        (elim (Result-cases (canonical_crawl_url p source)) [
          | inl (x, e) ↦ rw (e, save_edge) h
          | inr (from, e) ↦ elim (Result-cases (canonical_crawl_url p target)) [
            | inl (x, f) ↦ rw (e, f, save_edge) h
            | inr (to, f) ↦
                rw (e, f, save_edge) (link-IsShallow most s now from.0 to.0 to.1 depth user low h)
          ]
        ])

  record_links-IsShallow :
      (e : Engine) (s : Store) (t : Turn) (url : Bytes) (found : Scrape) (depth user : ℕ)
      → e.max_depth ≤ most
      → IsShallow most s.nodes
      → IsShallow most (record_links p r sha256 e s t url found depth user).nodes
  unfolding record_links
  record_links-IsShallow e s t url found depth user bound h =
      elim (Bool-cases (ltb depth e.max_depth)) [
        | inr deep ↦ rw (deep, record_links) h
        | inl near ↦
            let linked =
              save_edges-IsShallow s t.saved_at url found.found_onions (depth + 1) user
                (ground arith) h in
            elim (Bool-cases (depth == 0)) [
              | inl root ↦
                  rw (near, root, record_links)
                    (save_edges-IsShallow _ t.saved_at url found.sitemap_urls 1 user (ground arith)
                      linked)
              | inr below ↦ rw (near, below, record_links) linked
            ]
      ]

  save_node-IsShallow :
      (s : Store) (now : ℕ) (url : Bytes) (page : Page) (keep_content : Option Bool) (user : ℕ)
      → IsShallow most s.nodes
      → IsShallow most (save_node p sha256 s now url page keep_content user).0.nodes
  unfolding save_node
  save_node-IsShallow s now url page keep_content user h =
      elim (Result-cases (canonical_crawl_url p url)) [
        | inl (x, e) ↦ rw (e, save_node) h
        | inr (at, e) ↦
            rw (e, save_node) (save_page-IsShallow most sha256 s now at.0 page keep_content user h)
      ]

  record_page-IsShallow :
      (s : Store) (t : Turn) (url : Bytes) (found : Scrape) (user : ℕ)
      → IsShallow most s.nodes
      → IsShallow most (record_page p r sha256 s t url found user).nodes
  unfolding record_page
  record_page-IsShallow s t url found user h =
      let page = record found.page { page_status = completed } in
      let saved = save_node-IsShallow s t.saved_at url page t.keep_content user h in
      elim (Result-cases (save_node p sha256 s t.saved_at url page t.keep_content user).1) [
        | inl (x, bad) ↦
            rw (bad, record_page)
              (updated-IsShallow most
                (save_node p sha256 s t.saved_at url page t.keep_content user).0 t.saved_at url user
                saved).0
        | inr (x, good) ↦ rw (good, record_page) saved
      ]

  fetch-IsShallow :
      (w : Crawler) (t : Turn) (url : Bytes) (depth user : ℕ)
      → w.engine.max_depth ≤ most
      → IsShallow most w.store.nodes
      → IsShallow most (fetch p r sha256 w t url depth user).0.store.nodes
  unfolding fetch
  fetch-IsShallow w t url depth user bound h = elim (Option-cases t.scrape) [
    | inl gone ↦ rw (gone, fetch) (updated-IsShallow most w.store t.saved_at url user h).0
    | inr (found, e) ↦
        rw (e, fetch)
          (record_links-IsShallow w.engine _ t url found depth user bound
            (record_page-IsShallow w.store t url found user h))
  ]

  visit_site-IsShallow :
      (w : Crawler) (t : Turn) (url : Bytes) (depth user : ℕ)
      → w.engine.max_depth ≤ most
      → IsShallow most w.store.nodes
      → IsShallow most (visit_site p r sha256 w t url depth user).0.store.nodes
  unfolding visit_site
  visit_site-IsShallow w t url depth user bound h =
      let (asked, allowed, delay) = ask_robots p r sha256 w.robots url t in
      let (waited, go) = wait_for_domain p w.engine url (record t.visit { min_delay = delay }) in
      elim (Bool-cases allowed) [
        | inr refused ↦
            rw (refused, visit_site) (updated-IsShallow most w.store t.saved_at url user h).1
        | inl granted ↦ elim (Bool-cases go) [
          | inr stops ↦ rw (granted, stops, visit_site) h
          | inl goes ↦
              let same = wait-max_depth p w.engine url (record t.visit { min_delay = delay }) in
              rw (granted, goes, visit_site)
                (fetch-IsShallow (record w { engine = waited; robots = asked }) t url depth user
                  (omega (arith, same)) h)
        ]
      ]

-- A crawl goes no deeper than the bound of the engine: where no row is deeper, a turn of a worker, whatever
-- page, links and sitemap it meets and however it ends, leaves none that is, and claims none.
pub turn-IsShallow :
    (p : Platform) (r : Reader) (sha256 : Bytes → Bytes) (w : Crawler) (t : Turn)
    → IsShallow w.engine.max_depth w.store.nodes
    → IsShallow w.engine.max_depth (turn p r sha256 w t).0.store.nodes
      × ((url : Bytes) (depth user : ℕ)
          → (get_next_pending_node w.store t.claimed_at).1 ≡ some (url, depth, user)
          → depth ≤ w.engine.max_depth)
unfolding turn
turn-IsShallow p r sha256 w t h =
    let most = w.engine.max_depth in
    let claim = claim-IsShallow most w.store t.claimed_at h in
    (
      elim (Option-cases (get_next_pending_node w.store t.claimed_at).1) [
        | inl gone ↦ rw (gone, turn) claim.0
        | inr (job, found) ↦
            let (url, depth, user) = job in
            elim (Bool-cases (is_v3_url p url)) [
              | inr clear ↦
                  rw (found, clear, turn)
                    (updated-IsShallow most (get_next_pending_node w.store t.claimed_at).0
                      t.saved_at url user claim.0).1
              | inl onion ↦
                  rw (found, onion, turn)
                    (visit_site-IsShallow p r sha256 most _ t url depth user (omega arith) claim.0)
            ]
      ],
      claim.1,
    )
