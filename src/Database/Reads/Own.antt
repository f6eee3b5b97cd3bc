-- ===== src/Database/Reads/Own.antt =====
-- What an account that is no administrator can query.
use mathlib.Core.Path.{ap₂, fun_ext}
use go_dark_web_crawler.Common.{
  ℕ, ◌≡◌, refl, ap, Bool, true, false, ◌&&◌, ◌||◌, none, some, List, [], ◌∷◌, take, keep, leb,
  arith, Bool-cases, Option-cases, inl, inr, ◌==◌, if◌then◌else◌,
}
use go_dark_web_crawler.Common.Text.{Bytes, bytes_eq}
use go_dark_web_crawler.Common.Select.{
  count_rows, order_by, keep-keep_out, count_rows-keep, first_row-keep,
}
use go_dark_web_crawler.Database.Store.{
  Status, pending, crawling, completed, failed, blocked, is, Node, Edge, Store, find_row,
}
use go_dark_web_crawler.Database.Reads.{
  TextIndex, visible, visible_edge, search_nodes, get_stats, get_node_by_url, get_nodes, get_edges,
  get_queue_summary, export_nodes, completed_row, joined, export_graphml_edges, export_edges,
  query_all,
}

-- The rows of one account.
abbrev pub own_store : Store → ℕ → Store
own_store s user = record s {
  nodes = keep (λ n. n.user_id == user) s.nodes;
  edges = keep (λ e. e.owner == user) s.edges;
}

find_row-owned :
    (url : Bytes) (owner user : ℕ) (ns : List Node)
    → (owner == user) ≡ true
    → find_row url owner (keep (λ n. n.user_id == user) ns) ≡ find_row url owner ns
unfolding find_row keep
find_row-owned url owner user [] e = refl
find_row-owned url owner user (n ∷ ns) e = ground (arith, find_row-owned url owner user ns e)

module _ (s : Store) (user : ℕ) where
  own_nodes :
      (p : Node → Bool)
      → keep (λ n. visible user false n && p n) (own_store s user).nodes
        ≡ keep (λ n. visible user false n && p n) s.nodes
  own_nodes p =
      keep-keep_out (λ n. visible user false n && p n) (λ n. n.user_id == user) s.nodes
        (λ r h. ground arith)

  own_count :
      (p : Node → Bool)
      → count_rows (λ n. visible user false n && p n) (own_store s user).nodes
        ≡ count_rows (λ n. visible user false n && p n) s.nodes
  own_count p =
      count_rows-keep (λ n. visible user false n && p n) (λ n. n.user_id == user) s.nodes
        (λ r h. ground arith)

  own_visible :
      keep (visible user false) (own_store s user).nodes ≡ keep (visible user false) s.nodes
  own_visible =
      keep-keep_out (visible user false) (λ n. n.user_id == user) s.nodes (λ r h. ground arith)

  own_edges :
      keep (visible_edge user false) (own_store s user).edges
      ≡ keep (visible_edge user false) s.edges
  own_edges =
      keep-keep_out (visible_edge user false) (λ e. e.owner == user) s.edges (λ r h. ground arith)

  completed_row-own :
      (url : Bytes) (owner : ℕ)
      → (owner == user) ≡ true
      → completed_row url owner (own_store s user).nodes ≡ completed_row url owner s.nodes
  unfolding completed_row
  completed_row-own url owner e =
      ap (λ o. elim o [ none ↦ none | some n ↦ if is n.status completed then some n else none ])
        (find_row-owned url owner user s.nodes e)

  joined-own :
      (es : List Edge)
      → joined (own_store s user).nodes (keep (visible_edge user false) es)
        ≡ joined s.nodes (keep (visible_edge user false) es)
  unfolding joined keep
  joined-own [] = refl
  joined-own (e ∷ es) = elim (Bool-cases (visible_edge user false e)) [
    | inr f ↦ rw f (joined-own es)
    | inl f ↦
        let mine : (e.owner == user) ≡ true = ground arith in
        let from = completed_row-own e.source_url e.owner mine in
        let to = completed_row-own e.target_url e.owner mine in
        elim (Option-cases (completed_row e.source_url e.owner s.nodes)) [
          | inl g ↦ rw (f, joined) (rw (from, g) (joined-own es))
          | inr (n, g) ↦ elim (Option-cases (completed_row e.target_url e.owner s.nodes)) [
            | inl h ↦ rw (f, joined) (rw (from, g) (rw (to, h) (joined-own es)))
            | inr (m, h) ↦
                rw (f, joined) (rw (from, g) (rw (to, h) (ap (◌∷◌ (n, m)) (joined-own es))))
          ]
        ]
  ]

  own_stats : get_stats (own_store s user) user false ≡ get_stats s user false
  unfolding get_stats
  own_stats =
      let count : (status : Status) → _ = λ status. own_count (λ n. is n.status status) in
      rw
        (
          get_stats,
          count completed,
          count pending,
          count failed,
          count crawling,
          count blocked,
          count_rows-keep (visible_edge user false) (λ e. e.owner == user) s.edges
              (λ r h. ground arith),
        )
        refl

  own_queue : get_queue_summary (own_store s user) user false ≡ get_queue_summary s user false
  unfolding get_queue_summary
  own_queue =
      ap₂
        (λ counts next.
          (counts, take 10 (order_by (λ n m. leb n.next_crawl_at m.next_crawl_at) next)))
        (fun_ext λ status. own_count (λ n. is n.status status))
        (own_nodes (λ n. is n.status pending))

  own_search :
      (x : TextIndex) (text category : Bytes)
      → search_nodes x (own_store s user) text category user false
        ≡ search_nodes x s text category user false
  unfolding search_nodes
  own_search x text category =
      ap (λ ns. take 50 (order_by (λ n m. leb (x.rank text m) (x.rank text n)) ns))
        (own_nodes
          (λ n. x.matches text n && (bytes_eq category [] || bytes_eq n.category category)))

  own_detail :
      (url : Bytes)
      → get_node_by_url (own_store s user) url user false ≡ get_node_by_url s url user false
  unfolding get_node_by_url
  own_detail url =
      first_row-keep (λ n. visible user false n && bytes_eq n.url url) (λ n. n.user_id == user)
        s.nodes (λ r h. ground arith)

-- Every query of an account that is no administrator answers from the rows of that account alone: were all
-- other rows and links gone, the search, the counts, the page of a site, the lists, the queue and the
-- exports would be the same.
pub queries_own :
    (x : TextIndex) (s : Store) (text category url : Bytes) (limit offset user : ℕ)
    → query_all x (own_store s user) text category url limit offset user false
      ≡ query_all x s text category url limit offset user false
unfolding query_all get_nodes get_edges export_nodes export_graphml_edges export_edges
queries_own x s text category url limit offset user =
    rw
      (
        own_search s user x text category,
        own_stats s user,
        own_detail s user url,
        own_queue s user,
        own_visible s user,
        own_edges s user,
        own_nodes s user (λ n. is n.status completed),
        joined-own s user s.edges,
        keep-keep_out (λ e. e.owner == user) (λ e. e.owner == user) s.edges (λ r h. h),
      )
      refl
