-- ===== src/Database/Annotations/Feed.antt =====
-- What the feed of a watch holds after any sequence of crawls, against a description that looks at the
-- crawls alone.
use go_dark_web_crawler.Common.{
  ℕ, ◌+◌, ◌⊎◌, ap, ◌≡◌, ◌∙◌, refl, Bool, true, false, not, ◌&&◌, Option, none, some, List, [], ◌∷◌,
  ◌++◌, map, arith, All, Bool-cases, if◌then◌else◌, inl, inr,
}
use go_dark_web_crawler.Common.Text.{Bytes, bytes_eq, bytes_eq_refl}
use go_dark_web_crawler.Common.Select.{
  count_rows, first_row, count_rows-append, first_row-update_rows, first_row-holds,
}
use go_dark_web_crawler.Database.Store.{Node, find_row}
use go_dark_web_crawler.Database.Annotations.{
  Watch, EventKind, content_changed, unreachable, recovered, Book, watch_on,
}
use go_dark_web_crawler.Database.Annotations.Watching.{
  event_on, answers, flip_event, content_event, kinds_of, event_row, advance, observe,
}

-- A crawl as the watch meets it: the rows of `nodes` after it, its time, and what the worker reports.
pub record Crawl : Type 0 where
  pub nodes_after : List Node
  pub at : ℕ
  pub reachable : Bool
  pub code : ℕ

abbrev pub is_kind : EventKind → EventKind → Bool
is_kind content_changed content_changed = true
is_kind unreachable unreachable = true
is_kind recovered recovered = true
is_kind _ _ = false

abbrev pub answering : Crawl → Bool
answering c = answers c.reachable c.code

module _ (url : Bytes) (user : ℕ) where
  -- The crawls one after the other, each with the rows that it leaves.
  unfoldable pub observe_all : Book → List Crawl → Book
  observe_all b [] = b
  observe_all b (c ∷ cs) =
      observe_all (observe (record b { nodes = c.nodes_after }) c.at url user c.reachable c.code) cs

  -- How many events of a kind the feed holds for the site.
  unfoldable pub reported : EventKind → Book → ℕ
  reported k b = count_rows (λ e. event_on url user e && is_kind k e.kind) b.events

  -- The digest that the site's row holds after a crawl.
  unfoldable pub digest_after : Crawl → Option Bytes
  digest_after c = elim (find_row url user c.nodes_after) [ none ↦ none | some n ↦ n.content_hash ]

  -- The site has a row, and a digest wherever the crawl got an answer.
  abbrev pub IsRecorded : Crawl → Type 0
  IsRecorded c =
      (n : Node) × ((find_row url user c.nodes_after ≡ some n)
        × (answering c ≡ true → (d : Bytes) × (n.content_hash ≡ some d)))

  -- The digests of the answers, in the order of the crawls.
  unfoldable pub digests : List Crawl → List Bytes
  digests [] = []
  digests (c ∷ cs) =
      let rest = digests cs in
      if answering c then elim (digest_after c) [ none ↦ rest | some d ↦ d ∷ rest ] else rest

-- How often a digest differs from the one before it.
abbrev pub changes_from : Bytes → List Bytes → ℕ
changes_from d [] = 0
changes_from d (e ∷ es) = (if bytes_eq d e then 0 else 1) + changes_from e es

abbrev pub changes : List Bytes → ℕ
changes [] = 0
changes (d ∷ ds) = changes_from d ds

-- How often an answer (`was` is true) or a silence is followed by the other.
abbrev pub turns_from : Bool → Bool → List Crawl → ℕ
turns_from was last [] = 0
turns_from was last (c ∷ cs) =
    (if was
      then (if last && not (answering c) then 1 else 0)
      else (if not last && answering c then 1 else 0))
    + turns_from was (answering c) cs

abbrev pub turns : Bool → List Crawl → ℕ
turns was [] = 0
turns was (c ∷ cs) = turns_from was (answering c) cs

-- What the feed should hold of each kind.
abbrev pub expected : Bytes → ℕ → EventKind → List Crawl → ℕ
expected url user content_changed cs = changes (digests url user cs)
expected url user unreachable cs = turns true cs
expected url user recovered cs = turns false cs

zero_add : (n : ℕ) → 0 + n ≡ n
zero_add n = omega arith

module _ (url : Bytes) (user : ℕ) where
  -- The events of the crawls that follow, from what the watch remembers.
  upcoming : EventKind → Option Bool → Option Bytes → List Crawl → ℕ
  upcoming k was last [] = 0
  upcoming k was last (c ∷ cs) =
      count_rows (is_kind k) (kinds_of was last (digest_after url user c) (answering c))
      + upcoming k (some (answering c)) (if answering c then digest_after url user c else last) cs

  count-event_row :
      (k : EventKind) (now code : ℕ) (ks : List EventKind)
      → count_rows
          (λ e. event_on url user e && is_kind k e.kind)
          (map (event_row now url user code) ks)
        ≡ count_rows (is_kind k) ks
  unfolding count_rows
  count-event_row k now code [] = refl
  count-event_row k now code (j ∷ ks) =
      rw bytes_eq_refl (ground (arith, count-event_row k now code ks))

  observe_step :
      (b : Book) (c : Crawl) (w : Watch) (n : Node)
      → first_row (watch_on url user) b.watches ≡ some w
      → find_row url user c.nodes_after ≡ some n
      → let b' = observe (record b { nodes = c.nodes_after }) c.at url user c.reachable c.code in
        (first_row (watch_on url user) b'.watches
          ≡ some (advance c.at n.content_hash (answering c) c.code w))
        × (b'.events
            ≡ b.events
              ++ map
                  (event_row c.at url user c.code)
                  (kinds_of w.last_reachable w.last_hash n.content_hash (answering c)))
  unfolding observe advance
  observe_step b c w n hw hn =
      rw (hw, hn, observe)
        (
          rw
              (first_row-update_rows (watch_on url user) (watch_on url user)
                (advance c.at n.content_hash (answering c) c.code) b.watches (λ r. refl))
              (rw (hw, first_row-holds (watch_on url user) b.watches w hw) refl),
          refl,
        )

  reported_step :
      (k : EventKind) (b b' : Book) (now code : ℕ) (ks : List EventKind)
      → b'.events ≡ b.events ++ map (event_row now url user code) ks
      → reported url user k b' ≡ reported url user k b + count_rows (is_kind k) ks
  unfolding reported
  reported_step k b b' now code ks e =
      rw
        (
          e,
          count_rows-append (λ e. event_on url user e && is_kind k e.kind) b.events
              (map (event_row now url user code) ks),
          count-event_row k now code ks,
        )
        refl

  observe_all-upcoming :
      (k : EventKind) (b : Book) (cs : List Crawl) (w : Watch)
      → first_row (watch_on url user) b.watches ≡ some w
      → All (IsRecorded url user) cs
      → reported url user k (observe_all url user b cs)
        ≡ reported url user k b + upcoming k w.last_reachable w.last_hash cs
  unfolding observe_all upcoming advance digest_after
  observe_all-upcoming k b [] w hw hc = omega arith
  observe_all-upcoming k b (c ∷ cs) w hw hc =
      let (n, (hn, _)) = hc.0 in
      let b' : Book =
        observe (record b { nodes = c.nodes_after }) c.at url user c.reachable c.code in
      let step = observe_step b c w n hw hn in
      let now : reported url user k b'
          ≡ reported url user k b
            + count_rows (is_kind k)
                (kinds_of w.last_reachable w.last_hash (digest_after url user c) (answering c)) =
        rw (hn, digest_after)
          (reported_step k b b' c.at c.code
            (kinds_of w.last_reachable w.last_hash n.content_hash (answering c)) step.1) in
      let later : reported url user k (observe_all url user b' cs)
          ≡ reported url user k b'
            + upcoming k (some (answering c))
                (if answering c then digest_after url user c else w.last_hash) cs =
        rw (hn, digest_after)
          (observe_all-upcoming k b' cs (advance c.at n.content_hash (answering c) c.code w) step.0
            hc.1) in
      later ∙ omega (arith, now)

  answer-digest :
      (c : Crawl)
      → IsRecorded url user c
      → answering c ≡ true
      → (d : Bytes) × (digest_after url user c ≡ some d)
  unfolding digest_after
  answer-digest c (n, (hn, k)) e = let (d, hd) = k e in (d, rw (hn, digest_after) hd)

  changes_now :
      (was : Bool) (d x : Bytes)
      → count_rows (is_kind content_changed) (kinds_of (some was) (some d) (some x) true)
        ≡ (if bytes_eq d x then 0 else 1)
  unfolding kinds_of flip_event content_event count_rows
  changes_now true d x = ground arith
  changes_now false d x = ground arith

  changes_none :
      (was : Bool) (last current : Option Bytes) (now : Bool)
      → (now ≡ false) ⊎ (last ≡ none)
      → count_rows (is_kind content_changed) (kinds_of (some was) last current now) ≡ 0
  unfolding kinds_of flip_event content_event count_rows
  changes_none was none current now h = ground arith
  changes_none was (some d) none now h = ground arith
  changes_none was (some d) (some x) now h = ground arith

  turns_now :
      (was : Bool) (last current : Option Bytes) (now : Bool)
      → let ks = kinds_of (some was) last current now in
        (count_rows (is_kind unreachable) ks ≡ (if was && not now then 1 else 0))
        × (count_rows (is_kind recovered) ks ≡ (if not was && now then 1 else 0))
  unfolding kinds_of flip_event content_event count_rows
  turns_now was none current now = ground arith
  turns_now was (some d) none now = ground arith
  turns_now was (some d) (some x) now = ground arith

  -- Once the watch has seen an answer, the changes that it reports are those of the digests.
  upcoming-changes :
      (was : Bool) (d : Bytes) (cs : List Crawl)
      → All (IsRecorded url user) cs
      → upcoming content_changed (some was) (some d) cs ≡ changes_from d (digests url user cs)
  unfolding upcoming digests
  upcoming-changes was d [] hc = refl
  upcoming-changes was d (c ∷ cs) hc = elim (Bool-cases (answering c)) [
    | inl e ↦
        let (x, hx) = answer-digest c hc.0 e in
        rw (e, hx, changes_now was d x) (ap (◌+◌ _) (upcoming-changes true x cs hc.1))
    | inr e ↦
        rw (e, changes_none was (some d) (digest_after url user c) false (inl refl), zero_add)
          (upcoming-changes false d cs hc.1)
  ]

  -- Before that, the first answer is the baseline.
  upcoming-changes_first :
      (was : Bool) (cs : List Crawl)
      → All (IsRecorded url user) cs
      → upcoming content_changed (some was) none cs ≡ changes (digests url user cs)
  unfolding upcoming digests
  upcoming-changes_first was [] hc = refl
  upcoming-changes_first was (c ∷ cs) hc = elim (Bool-cases (answering c)) [
    | inl e ↦
        let (x, hx) = answer-digest c hc.0 e in
        rw (e, hx, changes_none was none (some x) true (inr refl), zero_add)
          (upcoming-changes true x cs hc.1)
    | inr e ↦
        rw (e, changes_none was none (digest_after url user c) false (inl refl), zero_add)
          (upcoming-changes_first false cs hc.1)
  ]

  upcoming-turns :
      (was : Bool) (last : Option Bytes) (cs : List Crawl)
      → (upcoming unreachable (some was) last cs ≡ turns_from true was cs)
        × (upcoming recovered (some was) last cs ≡ turns_from false was cs)
  unfolding upcoming
  upcoming-turns was last [] = (refl, refl)
  upcoming-turns was last (c ∷ cs) =
      let here = turns_now was last (digest_after url user c) (answering c) in
      let rest =
        upcoming-turns (answering c) (if answering c then digest_after url user c else last) cs in
      (rw (here.0, rest.0) refl, rw (here.1, rest.1) refl)

  upcoming-expected :
      (k : EventKind) (cs : List Crawl)
      → All (IsRecorded url user) cs
      → upcoming k none none cs ≡ expected url user k cs
  unfolding upcoming digests kinds_of count_rows
  upcoming-expected content_changed [] hc = refl
  upcoming-expected unreachable [] hc = refl
  upcoming-expected recovered [] hc = refl
  upcoming-expected unreachable (c ∷ cs) hc =
      rw zero_add
        (upcoming-turns (answering c) (if answering c then digest_after url user c else none) cs).0
  upcoming-expected recovered (c ∷ cs) hc =
      rw zero_add
        (upcoming-turns (answering c) (if answering c then digest_after url user c else none) cs).1
  upcoming-expected content_changed (c ∷ cs) hc = elim (Bool-cases (answering c)) [
    | inl e ↦
        let (x, hx) = answer-digest c hc.0 e in
        rw (e, hx, zero_add) (upcoming-changes true x cs hc.1)
    | inr e ↦ rw (e, zero_add) (upcoming-changes_first false cs hc.1)
  ]

-- A new watch, over any sequence of crawls of a site that keeps its row and has a digest after every
-- answer, gains one content_changed event for each two successive answers with different digests, however
-- many silent crawls lie between them, one unreachable event for each answer that silence follows, and one
-- recovered event for each silence that an answer follows.
pub feed_refines :
    (url : Bytes) (user : ℕ) (b : Book) (cs : List Crawl) (w : Watch)
    → first_row (watch_on url user) b.watches ≡ some w
    → w.last_reachable ≡ none
    → w.last_hash ≡ none
    → All (IsRecorded url user) cs
    → (k : EventKind)
    → reported url user k (observe_all url user b cs)
      ≡ reported url user k b + expected url user k cs
feed_refines url user b cs w hw hr hh hc k =
    rw (observe_all-upcoming url user k b cs w hw hc, hr, hh, upcoming-expected url user k cs hc)
      refl
