-- ===== src/Database/Annotations.antt =====
-- Tags, notes and watches that an account puts on the sites of its own graph:
-- backend/internal/database/annotations.go and migrations/000008_annotations_and_watches.up.sql. A row
-- names its site by the account and the canonical URL, which is the unique key of `nodes`; the serial
-- keys of the tables and the columns `created_at` and `updated_at` of tags and notes are left out.
pub mod Watching
pub mod Requests
pub mod Tags
pub mod Isolation
pub mod Feed
pub mod Schedule
use go_dark_web_crawler.Common.{
  ℕ, ◌+◌, ◌≡◌, refl, ◌⊎◌, inl, inr, Bool, true, false, not, ◌&&◌, ◌||◌, Option, none, some, List,
  [], ◌∷◌, ◌++◌, map, ltb, leb, length, keep, ◌==◌, if◌then◌else◌,
}
use go_dark_web_crawler.Common.Text.{Bytes, bytes_eq, to_lower, trim_space, fields, join_words}
use go_dark_web_crawler.Common.Platform.{Platform}
use go_dark_web_crawler.Common.Select.{update_rows, count_rows, first_row, delete_rows, order_by}
use go_dark_web_crawler.Database.Store.{Node, find_row}
use go_dark_web_crawler.Database.Queue.{ok, err, canonical_crawl_url}

pub record Tag : Type 0 where
  pub owner : ℕ
  pub site : Bytes
  pub tag : Bytes

pub record Note : Type 0 where
  pub owner : ℕ
  pub site : Bytes
  pub body : Bytes

pub record Watch : Type 0 where
  pub owner : ℕ
  pub site : Bytes
  pub interval_days : ℕ
  pub last_hash : Option Bytes
  pub last_status : Option ℕ
  pub last_reachable : Option Bool
  pub last_checked_at : Option ℕ
  pub created_at : ℕ

pub data EventKind : Type 0 where
  content_changed unreachable recovered : EventKind

pub record WatchEvent : Type 0 where
  pub owner : ℕ
  pub site : Bytes
  pub kind : EventKind
  pub status_code : ℕ
  pub detected_at : ℕ
  pub seen_at : Option ℕ

pub record Book : Type 0 where
  pub nodes : List Node
  pub tags : List Tag
  pub notes : List Note
  pub watches : List Watch
  pub events : List WatchEvent

pub data Failure : Type 0 where
  invalid_url node_not_found too_many_tags invalid_tag note_too_long interval_out_of_range : Failure

pub data Answer {ℓ} (A : Type ℓ) : Type ℓ where
  done : A → Answer A
  failure : Failure → Answer A

pub Answer-cases {ℓ} :
    {A : Type ℓ} (a : Answer A) → ((e : Failure) × (a ≡ failure e)) ⊎ ((x : A) × (a ≡ done x))
Answer-cases (failure e) = inl (e, refl)
Answer-cases (done x) = inr (x, refl)

abbrev pub max_tag_len : ℕ
max_tag_len = 40

abbrev pub max_tags_per_node : ℕ
max_tags_per_node = 25

abbrev pub max_note_len : ℕ
max_note_len = 4000

-- `NormalizeTag`.
unfoldable pub normalize_tag : Platform → Bytes → Bytes
normalize_tag p tag = join_words (fields p.unicode (to_lower p.unicode (trim_space p.unicode tag)))

-- `nodeIDFor`: the canonical URL, where the account has a row for it.
unfoldable pub node_id_for : Platform → List Node → Bytes → ℕ → Answer Bytes
node_id_for p nodes raw user = elim (canonical_crawl_url p raw) [
  | err _ ↦ failure invalid_url
  | ok (url, _) ↦ elim (find_row url user nodes) [
    | none ↦ failure node_not_found
    | some _ ↦ done url
  ]
]

-- `user_id = $1 AND node_id = $2`, in each of the tables.
abbrev pub tag_on : Bytes → ℕ → Tag → Bool
tag_on url user t = t.owner == user && bytes_eq t.site url

abbrev pub note_on : Bytes → ℕ → Note → Bool
note_on url user t = t.owner == user && bytes_eq t.site url

abbrev pub watch_on : Bytes → ℕ → Watch → Bool
watch_on url user w = w.owner == user && bytes_eq w.site url

abbrev pub same_tag : Bytes → ℕ → Bytes → Tag → Bool
same_tag url user tag t = tag_on url user t && bytes_eq t.tag tag

-- `ON CONFLICT (user_id, node_id, tag) DO NOTHING`.
unfoldable pub insert_tag : Bytes → ℕ → Bytes → List Tag → List Tag
insert_tag url user tag ts = elim (first_row (same_tag url user tag) ts) [
  | none ↦ ts ++ record { owner = user; site = url; tag = tag } ∷ []
  | some _ ↦ ts
]

-- The statements of `AddTag` and of the other operations, for a resolved site.
unfoldable pub attach_tag : Book → Bytes → ℕ → Bytes → Book × Answer (Unit {0})
attach_tag b url user tag =
    if leb max_tags_per_node (count_rows (tag_on url user) b.tags)
    then (b, failure too_many_tags)
    else (record b { tags = insert_tag url user tag b.tags }, done tt)

-- `AddTag`.
unfoldable pub add_tag : Platform → Book → Bytes → ℕ → Bytes → Book × Answer (Unit {0})
add_tag p b raw user text =
    let tag = normalize_tag p text in
    if bytes_eq tag [] || ltb max_tag_len (length tag)
    then (b, failure invalid_tag)
    else elim (node_id_for p b.nodes raw user) [
      | failure e ↦ (b, failure e)
      | done url ↦ attach_tag b url user tag
    ]

-- `AddTag` up to its count: an error, or the site and the tag that it goes on to insert.
unfoldable pub ask_tag : Platform → Book → Bytes → ℕ → Bytes → Answer (Bytes × Bytes)
ask_tag p b raw user text =
    let tag = normalize_tag p text in
    if bytes_eq tag [] || ltb max_tag_len (length tag)
    then failure invalid_tag
    else elim (node_id_for p b.nodes raw user) [
      | failure e ↦ failure e
      | done url ↦
          if leb max_tags_per_node (count_rows (tag_on url user) b.tags)
          then failure too_many_tags
          else done (url, tag)
    ]

-- `RemoveTag`.
unfoldable pub remove_tag : Platform → Book → Bytes → ℕ → Bytes → Book × Answer (Unit {0})
remove_tag p b raw user text = elim (node_id_for p b.nodes raw user) [
  | failure e ↦ (b, failure e)
  | done url ↦
      (record b { tags = delete_rows (same_tag url user (normalize_tag p text)) b.tags }, done tt)
]

-- `ON CONFLICT (user_id, node_id) DO UPDATE SET body = EXCLUDED.body`.
unfoldable pub put_note : Bytes → ℕ → Bytes → List Note → List Note
put_note url user body ns = elim (first_row (note_on url user) ns) [
  | none ↦ ns ++ record { owner = user; site = url; body = body } ∷ []
  | some _ ↦ update_rows (note_on url user) (λ n. record n { body = body }) ns
]

unfoldable pub write_note : Book → Bytes → ℕ → Bytes → Book
write_note b url user body = record b {
  notes =
      if bytes_eq body []
      then delete_rows (note_on url user) b.notes
      else put_note url user body b.notes;
}

-- `SetNote`.
unfoldable pub set_note : Platform → Book → Bytes → ℕ → Bytes → Book × Answer (Unit {0})
set_note p b raw user text =
    let body = trim_space p.unicode text in
    if ltb max_note_len (length body)
    then (b, failure note_too_long)
    else elim (node_id_for p b.nodes raw user) [
      | failure e ↦ (b, failure e)
      | done url ↦ (write_note b url user body, done tt)
    ]

-- `watchFor`, with the title that the join reads from the site's row.
unfoldable pub watch_for : Book → Bytes → ℕ → Option (Watch × Bytes)
watch_for b url user = elim (first_row (watch_on url user) b.watches) [
  | none ↦ none
  | some w ↦ elim (find_row url user b.nodes) [ none ↦ none | some n ↦ some (w, n.title) ]
]

-- `a <= b` on texts, byte by byte, for ORDER BY in the C collation.
unfoldable pub bytes_before : Bytes → Bytes → Bool
bytes_before [] t = true
bytes_before (c ∷ s) [] = false
bytes_before (c ∷ s) (d ∷ t) = let rest = bytes_before s t in ltb c d || (c == d && rest)

pub record Annotation : Type 0 where
  pub tags : List Bytes
  pub note : Bytes
  pub watch : Option (Watch × Bytes)

unfoldable pub note_body : Option Note → Bytes
note_body none = []
note_body (some n) = n.body

unfoldable pub annotation_of : Book → Bytes → ℕ → Annotation
annotation_of b url user = record {
  tags = order_by bytes_before (map (λ t. t.tag) (keep (tag_on url user) b.tags));
  note = note_body (first_row (note_on url user) b.notes);
  watch = watch_for b url user;
}

-- `GetAnnotation`.
unfoldable pub get_annotation : Platform → Book → Bytes → ℕ → Answer Annotation
get_annotation p b raw user = elim (node_id_for p b.nodes raw user) [
  | failure e ↦ failure e
  | done url ↦ done (annotation_of b url user)
]

-- `GROUP BY tag`, with the count of each group.
unfoldable pub tally : Bytes → List (Bytes × ℕ) → List (Bytes × ℕ)
tally tag [] = (tag, 1) ∷ []
tally tag ((t, n) ∷ rest) =
    let more = tally tag rest in if bytes_eq t tag then (t, n + 1) ∷ rest else (t, n) ∷ more

unfoldable pub group_tags : List Tag → List (Bytes × ℕ)
group_tags [] = []
group_tags (t ∷ ts) = tally t.tag (group_tags ts)

-- `ORDER BY COUNT(*) DESC, tag`.
abbrev pub more_used : Bytes × ℕ → Bytes × ℕ → Bool
more_used (t, n) (u, m) = ltb m n || (n == m && bytes_before t u)

-- `ListTags`.
unfoldable pub list_tags : Book → ℕ → List (Bytes × ℕ)
list_tags b user = order_by more_used (group_tags (keep (λ t. t.owner == user) b.tags))
