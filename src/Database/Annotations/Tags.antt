-- ===== src/Database/Annotations/Tags.antt =====
-- How many tags a site holds, over requests of any accounts that run side by side: the transaction of
-- `AddTag` holds no lock between its count and its INSERT.
use go_dark_web_crawler.Common.{
  ℕ, ◌≤◌, ◌≡◌, refl, ◌+◌, ◌==◌, ◌&&◌, some, Bool, ◌||◌, none, List, [], ◌∷◌, leb, ltb, length,
  Bool-cases, inl, inr,
}
use go_dark_web_crawler.Common.Text.{Bytes, bytes_eq}
use go_dark_web_crawler.Common.Platform.{Platform}
use go_dark_web_crawler.Common.Select.{count_rows, take_out}
use go_dark_web_crawler.Database.Annotations.{
  Tag, Book, Answer-cases, max_tags_per_node, max_tag_len, normalize_tag, node_id_for, tag_on,
  same_tag, insert_tag, attach_tag, ask_tag, done, failure, add_tag,
}
use go_dark_web_crawler.Database.Annotations.Requests.{Request, tagging, serve}

-- An `AddTag` that has counted and not yet inserted.
pub record Adding : Type 0 where
  pub owner : ℕ
  pub site : Bytes
  pub tag : Bytes

pub record Traffic : Type 0 where
  pub book : Book
  pub adding : List Adding

-- The two statements of an `AddTag`, which `add_tag-ask` puts together, and the other requests. An `AddTag`
-- that waits is named by its place.
pub data Step : Type 0 where
  asking : ℕ → Bytes → Bytes → Step
  storing : ℕ → Step
  serving : ℕ → ℕ → Request → Step

unfoldable pub take_step : Platform → Traffic → Step → Traffic
take_step p t (asking user raw text) = elim (ask_tag p t.book raw user text) [
  | failure _ ↦ t
  | done (url, tag) ↦ record t {
    adding = record { owner = user; site = url; tag = tag } ∷ t.adding;
  }
]
take_step p t (storing place) = elim (take_out place t.adding) [
  | none ↦ t
  | some (a, rest) ↦ record {
    book = record t.book { tags = insert_tag a.site a.owner a.tag t.book.tags };
    adding = rest;
  }
]
take_step p t (serving now user r) = record t { book = serve p t.book now user r }

unfoldable pub take_steps : Platform → Traffic → List Step → Traffic
take_steps p t [] = t
take_steps p t (x ∷ xs) = take_steps p (take_step p t x) xs

-- An `AddTag` runs as its two statements.
abbrev pub IsSplit : Step → Type 0
IsSplit (serving now user (tagging raw text)) = ⊥
IsSplit _ = Unit

-- At no time are more than so many between their two statements.
abbrev pub IsRun : Platform → ℕ → Traffic → List Step → Type 0
IsRun p most t [] = Unit
IsRun p most t (x ∷ xs) =
    IsSplit x × ((length (take_step p t x).adding ≤ most) × IsRun p most (take_step p t x) xs)

abbrev pub adds : Bytes → ℕ → Adding → Bool
adds url user a = a.owner == user && bytes_eq a.site url

-- The tags of each site of an account, with those on their way; and each tag once.
abbrev pub IsWithin : ℕ → Traffic → Type 0
IsWithin most t =
    (url : Bytes) (user : ℕ)
    → (count_rows (tag_on url user) t.book.tags + count_rows (adds url user) t.adding ≤ 24 + most)
      × ((tag : Bytes) → count_rows (same_tag url user tag) t.book.tags ≤ 1)

-- The INSERT adds one tag at most, on its own site, and none twice.
module _ (u : Bytes) (user : ℕ) (new : Bytes) where
  abbrev row : Tag
  row = record { owner = user; site = u; tag = new }

module _ (p : Platform) (b : Book) (now user : ℕ) where
  -- `AddTag` is its two statements, one after the other.
  pub add_tag-ask :
      (raw text : Bytes)
      → add_tag p b raw user text ≡ elim (ask_tag p b raw user text) [
        | failure e ↦ (b, failure e)
        | done (url, tag) ↦ (record b { tags = insert_tag url user tag b.tags }, done tt)
      ]
  unfolding add_tag ask_tag attach_tag
  add_tag-ask raw text =
      elim (Bool-cases
        (bytes_eq (normalize_tag p text) [] || ltb max_tag_len (length (normalize_tag p text)))) [
          | inl e ↦ rw e refl
          | inr e ↦ rw e (elim (Answer-cases (node_id_for p b.nodes raw user)) [
            | inl (x, f) ↦ rw f refl
            | inr (url, f) ↦
                rw f
                  (elim (Bool-cases (leb max_tags_per_node (count_rows (tag_on url user) b.tags))) [
                    | inl g ↦ rw (g, attach_tag) refl
                    | inr g ↦ rw (g, attach_tag) refl
                  ])
          ])
        ]
