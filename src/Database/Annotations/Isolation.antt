-- ===== src/Database/Annotations/Isolation.antt =====
-- One account's requests and another account's data.
pub mod Readings
use go_dark_web_crawler.Common.{
  ℕ, ◌≡◌, ◌≢◌, ◌∙◌, refl, sym, ap, Bool, true, false, not, ◌&&◌, Option, none, some, List, [], ◌∷◌,
  ◌++◌, map, Option-cases, leb, ltb, length, ◌||◌, Option-cases, arith, keep, All, take, Bool-cases,
  ==_iff, ◌==◌, if◌then◌else◌, inl, inr,
}
use go_dark_web_crawler.Common.Text.{Bytes, bytes_eq, trim_space}
use go_dark_web_crawler.Common.Platform.{Platform}
use go_dark_web_crawler.Common.Select.{
  update_rows, delete_rows, first_row, keep-append_out, count_rows, keep-update_rows_out,
  keep-keep_out, first_row-keep, count_rows-keep, keep_ext,
}
use go_dark_web_crawler.Database.Store.{Node, has_key, find_row, update_where}
use go_dark_web_crawler.Database.Queue.{ok, err, Result-cases, canonical_crawl_url}
use go_dark_web_crawler.Database.Annotations.{
  Tag, Note, Watch, max_tags_per_node, max_tag_len, max_note_len, Answer-cases, normalize_tag,
  Answer, WatchEvent, EventKind, Book, done, failure, node_id_for, insert_tag, attach_tag, add_tag,
  remove_tag, put_note, write_note, set_note, tag_on, note_on, watch_on, same_tag,
}
use go_dark_web_crawler.Database.Annotations.Watching.{
  put_watch, begin_watch, start_watch, end_watch, stop_watch, observe, record_watch_observation,
  mark_seen, answers, kinds_of, min_watch_interval_days, max_watch_interval_days, event_row,
  bring_forward, advance, event_on, is_unseen,
}
use go_dark_web_crawler.Database.Annotations.Requests.{
  Request, tagging, untagging, noting, watching, unwatching, observing, clearing, serve,
}

-- The rows of one account.
abbrev pub own_rows : Book → ℕ → Book
own_rows b v = record {
  nodes = keep (λ n. n.user_id == v) b.nodes;
  tags = keep (λ t. t.owner == v) b.tags;
  notes = keep (λ t. t.owner == v) b.notes;
  watches = keep (λ w. w.owner == v) b.watches;
  events = keep (λ e. e.owner == v) b.events;
}

own_nodes-update_where :
    (v user : ℕ) (url : Bytes) (f : Node → Node) (ns : List Node)
    → user ≢ v
    → ((n : Node) → (f n).user_id ≡ n.user_id)
    → keep (λ n. n.user_id == v) (update_where (has_key url user) f ns)
      ≡ keep (λ n. n.user_id == v) ns
unfolding keep update_where
own_nodes-update_where v user url f [] ne k = refl
own_nodes-update_where v user url f (n ∷ ns) ne k =
    ground (arith, own_nodes-update_where v user url f ns ne k, k n)

module _ (user v : ℕ) (ne : user ≢ v) where
  others : (user == v) ≡ false
  others = ground arith

  -- A selection by the acting account holds no row of the other.
  module _ {ℓ} {A : Type ℓ} (owner : A → ℕ) (q : A → Bool) where
    own-delete_rows :
        (xs : List A)
        → ((r : A) → q r ≡ true → owner r ≡ user)
        → keep (λ r. owner r == v) (delete_rows q xs) ≡ keep (λ r. owner r == v) xs
    unfolding delete_rows
    own-delete_rows xs k =
        keep-keep_out (λ r. owner r == v) (λ r. not (q r)) xs (λ r h. ground (arith, k r))

    own-update_rows :
        (f : A → A) (xs : List A)
        → ((r : A) → q r ≡ true → owner r ≡ user)
        → ((r : A) → owner (f r) ≡ owner r)
        → keep (λ r. owner r == v) (update_rows q f xs) ≡ keep (λ r. owner r == v) xs
    own-update_rows f xs k same =
        keep-update_rows_out (λ r. owner r == v) q f xs (λ r h. ground (arith, k r, same r))

  own-insert_tag :
      (url tag : Bytes) (ts : List Tag)
      → keep (λ t. t.owner == v) (insert_tag url user tag ts) ≡ keep (λ t. t.owner == v) ts
  unfolding insert_tag
  own-insert_tag url tag ts = elim (Option-cases (first_row (same_tag url user tag) ts)) [
    | inl e ↦ rw (e, insert_tag) (keep-append_out (λ t. t.owner == v) ts _ others)
    | inr (t, e) ↦ rw (e, insert_tag) refl
  ]

  own-put_note :
      (url body : Bytes) (ns : List Note)
      → keep (λ t. t.owner == v) (put_note url user body ns) ≡ keep (λ t. t.owner == v) ns
  unfolding put_note
  own-put_note url body ns = elim (Option-cases (first_row (note_on url user) ns)) [
    | inl e ↦ rw (e, put_note) (keep-append_out (λ t. t.owner == v) ns _ others)
    | inr (t, e) ↦
        rw (e, put_note)
          (own-update_rows (λ t. t.owner) (note_on url user) _ ns (λ r h. ground arith) (λ r. refl))
  ]

  own-put_watch :
      (now interval : ℕ) (url : Bytes) (ws : List Watch)
      → keep (λ w. w.owner == v) (put_watch now url user interval ws) ≡ keep (λ w. w.owner == v) ws
  unfolding put_watch
  own-put_watch now interval url ws = elim (Option-cases (first_row (watch_on url user) ws)) [
    | inl e ↦ rw (e, put_watch) (keep-append_out (λ t. t.owner == v) ws _ others)
    | inr (t, e) ↦
        rw (e, put_watch)
          (own-update_rows (λ t. t.owner) (watch_on url user) _ ws (λ r h. ground arith)
            (λ r. refl))
  ]

  own-events_none :
      (now code : ℕ) (url : Bytes) (ks : List EventKind)
      → keep (λ e. e.owner == v) (map (event_row now url user code) ks) ≡ []
  unfolding keep
  own-events_none now code url [] = refl
  own-events_none now code url (k ∷ ks) = rw others (own-events_none now code url ks)

  own-event_rows :
      (now code : ℕ) (url : Bytes) (ks : List EventKind) (es : List WatchEvent)
      → keep (λ e. e.owner == v) (es ++ map (event_row now url user code) ks)
        ≡ keep (λ e. e.owner == v) es
  unfolding keep
  own-event_rows now code url ks [] = own-events_none now code url ks
  own-event_rows now code url ks (e ∷ es) = ground (arith, own-event_rows now code url ks es)

  own-attach_tag :
      (b : Book) (url tag : Bytes) → own_rows (attach_tag b url user tag).0 v ≡ own_rows b v
  unfolding attach_tag
  own-attach_tag b url tag =
      elim (Bool-cases (leb max_tags_per_node (count_rows (tag_on url user) b.tags))) [
        | inl e ↦ rw e refl
        | inr e ↦
            rw e (ap (λ ts. record (own_rows b v) { tags = ts }) (own-insert_tag url tag b.tags))
      ]

  own-write_note :
      (b : Book) (url body : Bytes) → own_rows (write_note b url user body) v ≡ own_rows b v
  unfolding write_note
  own-write_note b url body =
      ap (λ ts. record (own_rows b v) { notes = ts })
        (elim (Bool-cases (bytes_eq body [])) [
          | inl e ↦
              rw e (own-delete_rows (λ t. t.owner) (note_on url user) b.notes (λ r h. ground arith))
          | inr e ↦ rw e (own-put_note url body b.notes)
        ])

  own-begin_watch :
      (b : Book) (now interval : ℕ) (url : Bytes)
      → own_rows (begin_watch b now url user interval) v ≡ own_rows b v
  unfolding begin_watch bring_forward
  own-begin_watch b now interval url =
      rw
        (
          own-put_watch now interval url b.watches,
          own_nodes-update_where v user url (bring_forward now interval) b.nodes ne (λ n. refl),
        )
        refl

  own-end_watch : (b : Book) (url : Bytes) → own_rows (end_watch b url user) v ≡ own_rows b v
  unfolding end_watch
  own-end_watch b url =
      rw
        (
          own-delete_rows (λ t. t.owner) (watch_on url user) b.watches (λ r h. ground arith),
          own-delete_rows (λ t. t.owner) (event_on url user) b.events (λ r h. ground arith),
        )
        refl

  own-observe :
      (b : Book) (now code : ℕ) (url : Bytes) (reachable : Bool)
      → own_rows (observe b now url user reachable code) v ≡ own_rows b v
  unfolding advance observe
  own-observe b now code url reachable =
      elim (Option-cases (first_row (watch_on url user) b.watches)) [
        | inl e ↦ rw (e, observe) refl
        | inr (w, e) ↦ elim (Option-cases (find_row url user b.nodes)) [
          | inl f ↦ rw (e, f, observe) refl
          | inr (n, f) ↦
              rw (e, f, observe)
                (rw
                  (
                    own-event_rows now code url
                        (kinds_of w.last_reachable w.last_hash n.content_hash
                          (answers reachable code))
                        b.events,
                    own-update_rows (λ t. t.owner) (watch_on url user)
                        (advance now n.content_hash (answers reachable code) code) b.watches
                        (λ r h. ground arith) (λ r. refl),
                  )
                  refl)
        ]
      ]

  own-mark_seen : (b : Book) (now : ℕ) → own_rows (mark_seen b now user).0 v ≡ own_rows b v
  unfolding mark_seen
  own-mark_seen b now =
      ap (λ es. record (own_rows b v) { events = es })
        (own-update_rows (λ e. e.owner) (is_unseen user) _ b.events (λ r h. ground arith)
          (λ r. refl))

  module _ (p : Platform) where
    own-add_tag :
        (b : Book) (raw text : Bytes) → own_rows (add_tag p b raw user text).0 v ≡ own_rows b v
    unfolding add_tag
    own-add_tag b raw text =
        elim (Bool-cases
          (bytes_eq (normalize_tag p text) [] || ltb max_tag_len (length (normalize_tag p text)))) [
            | inl e ↦ rw e refl
            | inr e ↦ rw e (elim (Answer-cases (node_id_for p b.nodes raw user)) [
              | inl (x, f) ↦ rw f refl
              | inr (url, f) ↦ rw f (own-attach_tag b url (normalize_tag p text))
            ])
          ]

    own-remove_tag :
        (b : Book) (raw text : Bytes) → own_rows (remove_tag p b raw user text).0 v ≡ own_rows b v
    unfolding remove_tag
    own-remove_tag b raw text = elim (Answer-cases (node_id_for p b.nodes raw user)) [
      | inl (x, f) ↦ rw (f, remove_tag) refl
      | inr (url, f) ↦
          rw (f, remove_tag)
            (ap (λ ts. record (own_rows b v) { tags = ts })
              (own-delete_rows (λ t. t.owner) (same_tag url user (normalize_tag p text)) b.tags
                (λ r h. ground arith)))
    ]

    own-set_note :
        (b : Book) (raw text : Bytes) → own_rows (set_note p b raw user text).0 v ≡ own_rows b v
    unfolding set_note
    own-set_note b raw text =
        elim (Bool-cases (ltb max_note_len (length (trim_space p.unicode text)))) [
          | inl e ↦ rw e refl
          | inr e ↦ rw e (elim (Answer-cases (node_id_for p b.nodes raw user)) [
            | inl (x, f) ↦ rw f refl
            | inr (url, f) ↦ rw f (own-write_note b url (trim_space p.unicode text))
          ])
        ]

    own-start_watch :
        (b : Book) (now : ℕ) (raw : Bytes) (interval : ℕ)
        → own_rows (start_watch p b now raw user interval).0 v ≡ own_rows b v
    unfolding start_watch
    own-start_watch b now raw interval =
        elim (Bool-cases
          (ltb interval min_watch_interval_days || ltb max_watch_interval_days interval)) [
            | inl e ↦ rw e refl
            | inr e ↦ rw e (elim (Answer-cases (node_id_for p b.nodes raw user)) [
              | inl (x, f) ↦ rw f refl
              | inr (url, f) ↦ rw f (own-begin_watch b now interval url)
            ])
          ]

    own-stop_watch :
        (b : Book) (raw : Bytes) → own_rows (stop_watch p b raw user).0 v ≡ own_rows b v
    unfolding stop_watch
    own-stop_watch b raw = elim (Answer-cases (node_id_for p b.nodes raw user)) [
      | inl (x, f) ↦ rw (f, stop_watch) refl
      | inr (url, f) ↦ rw (f, stop_watch) (own-end_watch b url)
    ]

    own-record_watch_observation :
        (b : Book) (now : ℕ) (raw : Bytes) (reachable : Bool) (code : ℕ)
        → own_rows (record_watch_observation p b now raw user reachable code).0 v ≡ own_rows b v
    unfolding record_watch_observation
    own-record_watch_observation b now raw reachable code =
        elim (Result-cases (canonical_crawl_url p raw)) [
          | inl (x, f) ↦ rw (f, record_watch_observation) refl
          | inr ((url, host), f) ↦
              rw (f, record_watch_observation) (own-observe b now code url reachable)
        ]

    -- A request of one account leaves every row of another account as it is.
    pub own-serve :
        (b : Book) (now : ℕ) (r : Request) → own_rows (serve p b now user r) v ≡ own_rows b v
    unfolding serve
    own-serve b now (tagging raw text) = own-add_tag b raw text
    own-serve b now (untagging raw text) = own-remove_tag b raw text
    own-serve b now (noting raw text) = own-set_note b raw text
    own-serve b now (watching raw interval) = own-start_watch b now raw interval
    own-serve b now (unwatching raw) = own-stop_watch b raw
    own-serve b now (observing raw reachable code) =
        own-record_watch_observation b now raw reachable code
    own-serve b now clearing = own-mark_seen b now
