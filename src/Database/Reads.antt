-- ===== src/Database/Reads.antt =====
-- The queries of backend/internal/database/db.go and privacy.go on the crawl tables. A query gives whole rows;
-- the columns that it selects, and how it prints them, are left out. Full-text search is a parameter.
pub mod Own
use go_dark_web_crawler.Common.{
  ℕ, Bool, true, false, ◌&&◌, ◌||◌, Option, none, some, List, [], ◌∷◌, ltb, leb, take, drop, keep,
  ◌==◌, if◌then◌else◌,
}
use go_dark_web_crawler.Common.Text.{Bytes, bytes_eq}
use go_dark_web_crawler.Common.Select.{count_rows, first_row, order_by}
use go_dark_web_crawler.Database.Store.{
  Status, pending, crawling, completed, failed, blocked, is, Node, Edge, Store, find_row,
}

-- What the text index answers: whether a row matches a query, and how well.
pub record TextIndex : Type 0 where
  pub matches : Bytes → Node → Bool
  pub rank : Bytes → Node → ℕ

-- `(user_id = $1 OR $2)`.
abbrev pub visible : ℕ → Bool → Node → Bool
visible user admin n = n.user_id == user || admin

abbrev pub visible_edge : ℕ → Bool → Edge → Bool
visible_edge user admin e = e.owner == user || admin

-- `SearchNodes`.
unfoldable pub search_nodes : TextIndex → Store → Bytes → Bytes → ℕ → Bool → List Node
search_nodes x s query category user admin = take 50 (
    order_by (λ n m. leb (x.rank query m) (x.rank query n))
      (keep
        (λ n.
          visible user admin n
          && (x.matches query n && (bytes_eq category [] || bytes_eq n.category category)))
        s.nodes))

pub record Stats : Type 0 where
  pub nodes_crawled : ℕ
  pub pending_nodes : ℕ
  pub failed_nodes : ℕ
  pub crawling_nodes : ℕ
  pub blocked_nodes : ℕ
  pub total_edges : ℕ

abbrev pub in_state : Status → ℕ → Bool → Node → Bool
in_state status user admin n = visible user admin n && is n.status status

-- `GetStats`.
unfoldable pub get_stats : Store → ℕ → Bool → Stats
get_stats s user admin = record {
  nodes_crawled = count_rows (in_state completed user admin) s.nodes;
  pending_nodes = count_rows (in_state pending user admin) s.nodes;
  failed_nodes = count_rows (in_state failed user admin) s.nodes;
  crawling_nodes = count_rows (in_state crawling user admin) s.nodes;
  blocked_nodes = count_rows (in_state blocked user admin) s.nodes;
  total_edges = count_rows (visible_edge user admin) s.edges;
}

-- `GetNodeByURL`.
unfoldable pub get_node_by_url : Store → Bytes → ℕ → Bool → Option Node
get_node_by_url s url user admin =
    first_row (λ n. visible user admin n && bytes_eq n.url url) s.nodes

abbrev pub newest : Node → Node → Bool
newest n m = leb m.discovered_at n.discovered_at

-- `GetNodes`; a limit out of range stands for 50.
unfoldable pub get_nodes : Store → ℕ → ℕ → ℕ → Bool → List Node
get_nodes s limit offset user admin =
    take (if limit == 0 || ltb 200 limit then 50 else limit)
      (drop offset (order_by newest (keep (visible user admin) s.nodes)))

-- `GetEdges`; a limit out of range stands for 200.
unfoldable pub get_edges : Store → ℕ → ℕ → ℕ → Bool → List Edge
get_edges s limit offset user admin =
    take (if limit == 0 || ltb 1000 limit then 200 else limit)
      (drop offset (keep (visible_edge user admin) s.edges))

-- `GetQueueSummary`: the count of each status, and the next ten rows.
unfoldable pub get_queue_summary : Store → ℕ → Bool → (Status → ℕ) × List Node
get_queue_summary s user admin = (
  λ status. count_rows (in_state status user admin) s.nodes,
  take 10 (
      order_by (λ n m. leb n.next_crawl_at m.next_crawl_at)
        (keep (in_state pending user admin) s.nodes)),
)

-- `ExportNodes`.
unfoldable pub export_nodes : Store → ℕ → Bool → List Node
export_nodes s user admin =
    order_by (λ n m. leb n.discovered_at m.discovered_at)
      (keep (in_state completed user admin) s.nodes)

-- A completed row of an owner.
unfoldable pub completed_row : Bytes → ℕ → List Node → Option Node
completed_row url user ns = elim (find_row url user ns) [
  | none ↦ none
  | some n ↦ if is n.status completed then some n else none
]

-- The joins of `ExportGraphMLEdges`.
unfoldable pub joined : List Node → List Edge → List (Node × Node)
joined ns [] = []
joined ns (e ∷ es) =
    let rest = joined ns es in
    elim (completed_row e.source_url e.owner ns) [
      | none ↦ rest
      | some n ↦ elim (completed_row e.target_url e.owner ns) [
        | none ↦ rest
        | some m ↦ (n, m) ∷ rest
      ]
    ]

-- `ExportGraphMLEdges`.
unfoldable pub export_graphml_edges : Store → ℕ → Bool → List (Node × Node)
export_graphml_edges s user admin = joined s.nodes (keep (visible_edge user admin) s.edges)

-- `ExportEdges`.
unfoldable pub export_edges : Store → ℕ → List Edge
export_edges s user = keep (λ e. e.owner == user) s.edges

-- `GlobalStatusCounts`.
unfoldable pub global_status_counts : Store → Status → ℕ
global_status_counts s status = count_rows (λ n. is n.status status) s.nodes

-- All the queries of an account at once.
pub record Answers : Type 0 where
  pub found : List Node
  pub stats : Stats
  pub detail : Option Node
  pub page : List Node
  pub links : List Edge
  pub queue : (Status → ℕ) × List Node
  pub exported : List Node
  pub graph : List (Node × Node)
  pub own_links : List Edge

-- The arguments: the search with its category, the URL, the limit and the offset.
unfoldable pub query_all : TextIndex → Store → Bytes → Bytes → Bytes → ℕ → ℕ → ℕ → Bool → Answers
query_all x s text category url limit offset user admin = record {
  found = search_nodes x s text category user admin;
  stats = get_stats s user admin;
  detail = get_node_by_url s url user admin;
  page = get_nodes s limit offset user admin;
  links = get_edges s limit offset user admin;
  queue = get_queue_summary s user admin;
  exported = export_nodes s user admin;
  graph = export_graphml_edges s user admin;
  own_links = export_edges s user;
}
