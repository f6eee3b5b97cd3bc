-- ===== src/Database/Annotations/Isolation/Readings.antt =====
-- All that an account reads comes from its own rows.
use go_dark_web_crawler.Common.{
  ℕ, ◌≡◌, ◌≢◌, ◌∙◌, refl, sym, ap, true, ◌&&◌, List, [], ◌∷◌, arith, keep, inl, inr, Bool-cases,
  Option-cases, ◌==◌,
}
use go_dark_web_crawler.Common.Text.{Bytes}
use go_dark_web_crawler.Common.Platform.{Platform}
use go_dark_web_crawler.Common.Select.{
  first_row, keep-keep_out, first_row-keep, count_rows-keep, keep_ext,
}
use go_dark_web_crawler.Database.Store.{Node, find_row}
use go_dark_web_crawler.Database.Queue.{Result-cases, canonical_crawl_url}
use go_dark_web_crawler.Database.Annotations.{
  Watch, WatchEvent, Book, node_id_for, annotation_of, get_annotation, watch_for, list_tags, tag_on,
  note_on, watch_on, Answer-cases, done,
}
use go_dark_web_crawler.Database.Annotations.Watching.{
  list_watches, with_titles, has_watch, list_watch_events, count_unseen, is_unseen,
}
use go_dark_web_crawler.Database.Annotations.Requests.{Request, serve, read_all}
use go_dark_web_crawler.Database.Annotations.Isolation.{own_rows, own-serve}

find_row-own :
    (url : Bytes) (v : ℕ) (ns : List Node)
    → find_row url v (keep (λ n. n.user_id == v) ns) ≡ find_row url v ns
unfolding find_row keep
find_row-own url v [] = refl
find_row-own url v (n ∷ ns) = ground (arith, find_row-own url v ns)

find_row-owned :
    (url : Bytes) (user v : ℕ) (ns : List Node)
    → (user == v) ≡ true
    → find_row url user (keep (λ n. n.user_id == v) ns) ≡ find_row url user ns
find_row-owned url user v ns e =
    let same : user ≡ v = ground arith in rw same (find_row-own url v ns)

first_row-owned :
    (url : Bytes) (user v : ℕ) (ws : List Watch)
    → (user == v) ≡ true
    → first_row (watch_on url user) (keep (λ w. w.owner == v) ws) ≡ first_row (watch_on url user) ws
first_row-owned url user v ws e =
    first_row-keep (watch_on url user) (λ w. w.owner == v) ws (λ r h. ground arith)

module _ (b : Book) (v : ℕ) where
  watch_for-own : (url : Bytes) → watch_for (own_rows b v) url v ≡ watch_for b url v
  unfolding watch_for
  watch_for-own url =
      let same = first_row-owned url v v b.watches (ground arith) in
      elim (Option-cases (first_row (watch_on url v) b.watches)) [
        | inl e ↦ rw (same, e, watch_for) refl
        | inr (w, e) ↦ rw (same, e, watch_for) (rw (find_row-own url v b.nodes) refl)
      ]

  annotation_of-own : (url : Bytes) → annotation_of (own_rows b v) url v ≡ annotation_of b url v
  unfolding annotation_of
  annotation_of-own url =
      rw
        (
          annotation_of,
          keep-keep_out (tag_on url v) (λ t. t.owner == v) b.tags (λ r h. ground arith),
          first_row-keep (note_on url v) (λ t. t.owner == v) b.notes (λ r h. ground arith),
          watch_for-own url,
        )
        refl

  node_id_for-own :
      (p : Platform) (raw : Bytes)
      → node_id_for p (own_rows b v).nodes raw v ≡ node_id_for p b.nodes raw v
  unfolding node_id_for
  node_id_for-own p raw = elim (Result-cases (canonical_crawl_url p raw)) [
    | inl (e, f) ↦ rw (f, node_id_for) refl
    | inr ((url, host), f) ↦ rw (f, node_id_for) (rw (find_row-own url v b.nodes) refl)
  ]

  get_annotation-own :
      (p : Platform) (raw : Bytes)
      → get_annotation p (own_rows b v) raw v ≡ get_annotation p b raw v
  unfolding get_annotation
  get_annotation-own p raw = elim (Answer-cases (node_id_for p b.nodes raw v)) [
    | inl (e, f) ↦ rw (node_id_for-own p raw, f, get_annotation) refl
    | inr (url, f) ↦ rw (node_id_for-own p raw, f, get_annotation) (ap done (annotation_of-own url))
  ]

  list_tags-own : list_tags (own_rows b v) v ≡ list_tags b v
  unfolding list_tags
  list_tags-own = rw (keep-keep_out (λ t. t.owner == v) (λ t. t.owner == v) b.tags (λ r h. h)) refl

  with_titles-own :
      (ws : List Watch)
      → with_titles (own_rows b v).nodes (keep (λ w. w.owner == v) ws)
        ≡ with_titles b.nodes (keep (λ w. w.owner == v) ws)
  unfolding with_titles keep
  with_titles-own [] = refl
  with_titles-own (w ∷ ws) = elim (Bool-cases (w.owner == v)) [
    | inl e ↦
        let same = find_row-owned w.site w.owner v b.nodes e in
        elim (Option-cases (find_row w.site w.owner b.nodes)) [
          | inl f ↦ rw (e, with_titles) (rw (same, f) (with_titles-own ws))
          | inr (n, f) ↦
              rw (e, with_titles) (rw (same, f) (ap (◌∷◌ (w, n.title)) (with_titles-own ws)))
        ]
    | inr e ↦ rw e (with_titles-own ws)
  ]

  list_watches-own : list_watches (own_rows b v) v ≡ list_watches b v
  unfolding list_watches
  list_watches-own =
      rw
        (
          keep-keep_out (λ w. w.owner == v) (λ w. w.owner == v) b.watches (λ r h. h),
          with_titles-own b.watches,
        )
        refl

  has_watch-own :
      (e : WatchEvent)
      → (e.owner == v && has_watch (own_rows b v) e) ≡ (e.owner == v && has_watch b e)
  unfolding has_watch
  has_watch-own e = elim (Bool-cases (e.owner == v)) [
    | inl f ↦
        let same = first_row-owned e.site e.owner v b.watches f in
        elim (Option-cases (first_row (watch_on e.site e.owner) b.watches)) [
          | inl g ↦ rw (same, g, has_watch) refl
          | inr (w, g) ↦
              rw (same, g, has_watch) (rw (find_row-owned e.site e.owner v b.nodes f) refl)
        ]
    | inr f ↦ rw f refl
  ]

  list_watch_events-own :
      (limit : ℕ) → list_watch_events (own_rows b v) v limit ≡ list_watch_events b v limit
  unfolding list_watch_events
  list_watch_events-own limit =
      rw
        (
          keep_ext (λ e. e.owner == v && has_watch (own_rows b v) e)
              (λ e. e.owner == v && has_watch b e) (own_rows b v).events has_watch-own,
          keep-keep_out (λ e. e.owner == v && has_watch b e) (λ e. e.owner == v) b.events
              (λ r h. ground arith),
        )
        refl

  count_unseen-own : count_unseen (own_rows b v) v ≡ count_unseen b v
  unfolding count_unseen
  count_unseen-own =
      count_rows-keep (is_unseen v) (λ e. e.owner == v) b.events (λ r h. ground arith)

  read_all-own :
      (p : Platform) (raw : Bytes) (limit : ℕ)
      → read_all p (own_rows b v) v raw limit ≡ read_all p b v raw limit
  unfolding read_all
  read_all-own p raw limit =
      rw
        (
          get_annotation-own p raw,
          list_tags-own,
          list_watches-own,
          list_watch_events-own limit,
          count_unseen-own,
        )
        refl

-- No request of one account, whatever it is and whether it succeeds, changes any answer that another
-- account reads: the tags, note and watch of any site, the list of tags, the watches, the feed of events
-- and the number of unseen ones.
pub others_unseen :
    (p : Platform) (b : Book) (now user v : ℕ) (r : Request) (raw : Bytes) (limit : ℕ)
    → user ≢ v
    → read_all p (serve p b now user r) v raw limit ≡ read_all p b v raw limit
others_unseen p b now user v r raw limit ne =
    sym (read_all-own (serve p b now user r) v p raw limit)
    ∙ (ap (λ c. read_all p c v raw limit) (own-serve user v ne p b now r)
        ∙ read_all-own b v p raw limit)
