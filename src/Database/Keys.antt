-- ===== src/Database/Keys.antt =====
-- The primary key (url, user_id) of `nodes`: no two rows share one, and every statement keeps it so.
use go_dark_web_crawler.Common.{
  ℕ, ◌≡◌, refl, Bool, true, none, some, List, [], ◌∷◌, ◌++◌, arith, All, Bool-cases, inl, inr, leb,
}
use go_dark_web_crawler.Common.Text.{Bytes, bytes_eq_iff}
use go_dark_web_crawler.Database.Store.{Node, has_key, find_row, update_where}
use go_dark_web_crawler.Database.Retry.{among, insert_by_time, sort_by_time}
use go_dark_web_crawler.Database.Rows.{KeepsKey, find_row-append, find_row-update_where}

abbrev pub UniqueKeys : List Node → Type 0
UniqueKeys [] = Unit
UniqueKeys (n ∷ ns) = (find_row n.url n.user_id ns ≡ none) × UniqueKeys ns

-- The row is the one that stands under its key.
abbrev pub IsStored : List Node → Node → Type 0
IsStored ns n = find_row n.url n.user_id ns ≡ some n

pub update_where-UniqueKeys :
    (p : Node → Bool) (f : Node → Node) (ns : List Node)
    → KeepsKey f
    → UniqueKeys ns
    → UniqueKeys (update_where p f ns)
unfolding update_where
update_where-UniqueKeys p f [] k u = tt
update_where-UniqueKeys p f (n ∷ ns) k u = ground (
  arith,
  update_where-UniqueKeys p f ns k u.1,
  find_row-update_where p f n.url n.user_id ns k,
  u.0,
  (k n).0,
  (k n).1,
)

pub append-UniqueKeys :
    (ns : List Node) (n : Node)
    → find_row n.url n.user_id ns ≡ none
    → UniqueKeys ns
    → UniqueKeys (ns ++ n ∷ [])
unfolding find_row
append-UniqueKeys [] n e u = (refl, tt)
append-UniqueKeys (m ∷ ns) n e u = ground (
  arith,
  append-UniqueKeys ns n,
  u.0,
  u.1,
  find_row-append m.url m.user_id ns (n ∷ []),
  bytes_eq_iff m.url n.url,
  bytes_eq_iff n.url m.url,
)

-- Stored rows with one key are one row.
pub stored_same :
    (ns : List Node) (m r : Node)
    → IsStored ns m
    → IsStored ns r
    → has_key m.url m.user_id r ≡ true
    → r ≡ m
stored_same ns m r a b h = ground (arith, bytes_eq_iff r.url m.url, bytes_eq_iff m.url r.url)

-- The stored row with the key is the one that the search finds.
pub find_row-stored :
    (url : Bytes) (user : ℕ) (ns : List Node) (n r : Node)
    → find_row url user ns ≡ some n
    → IsStored ns r
    → has_key url user r ≡ true
    → r ≡ n
find_row-stored url user ns n r a b h =
    ground (arith, bytes_eq_iff r.url url, bytes_eq_iff url r.url)

pub IsStored-cons :
    (n : Node) (ns : List Node) (m : Node)
    → find_row n.url n.user_id ns ≡ none
    → IsStored ns m
    → IsStored (n ∷ ns) m
unfolding find_row
IsStored-cons n ns m u h = ground (arith, bytes_eq_iff n.url m.url)

All-cons-IsStored :
    (n : Node) (ns ms : List Node)
    → find_row n.url n.user_id ns ≡ none
    → All (IsStored ns) ms
    → All (IsStored (n ∷ ns)) ms
All-cons-IsStored n ns [] u h = tt
All-cons-IsStored n ns (m ∷ ms) u h = (IsStored-cons n ns m u h.0, All-cons-IsStored n ns ms u h.1)

pub find_row-head : (n : Node) (ns : List Node) → IsStored (n ∷ ns) n
unfolding find_row
find_row-head n ns = ground (arith, bytes_eq_iff n.url n.url)

pub UniqueKeys-IsStored : (ns : List Node) → UniqueKeys ns → All (IsStored ns) ns
UniqueKeys-IsStored [] u = tt
UniqueKeys-IsStored (n ∷ ns) u =
    (find_row-head n ns, All-cons-IsStored n ns ns u.0 (UniqueKeys-IsStored ns u.1))

pub All-insert_by_time {ℓ} :
    (P : Node → Type ℓ) (n : Node) (ns : List Node) → P n → All P ns → All P (insert_by_time n ns)
unfolding insert_by_time
All-insert_by_time P n [] q h = (q, tt)
All-insert_by_time P n (m ∷ ms) q h = elim (Bool-cases (leb n.next_crawl_at m.next_crawl_at)) [
  | inl e ↦ rw e (q, h)
  | inr e ↦ rw e (h.0, All-insert_by_time P n ms q h.1)
]

pub All-sort_by_time {ℓ} : (P : Node → Type ℓ) (ns : List Node) → All P ns → All P (sort_by_time ns)
unfolding sort_by_time
All-sort_by_time P [] h = tt
All-sort_by_time P (n ∷ ns) h =
    All-insert_by_time P n (sort_by_time ns) h.0 (All-sort_by_time P ns h.1)

-- A row among picked rows is one of them, and has what they all have.
pub among-picked :
    (q : Node → Bool) (ns ms : List Node) (r : Node)
    → All (λ m. IsStored ns m × (q m ≡ true)) ms
    → IsStored ns r
    → among ms r ≡ true
    → q r ≡ true
unfolding among
among-picked q ns [] r h s e = absurd (cc e)
among-picked q ns (m ∷ ms) r h s e = elim (Bool-cases (has_key m.url m.user_id r)) [
  | inl t ↦ let same = stored_same ns m r h.0.0 s t in rw same h.0.1
  | inr t ↦ among-picked q ns ms r h.1 s (ground arith)
]

-- A property that every row has beside being stored.
pub All-IsStored {ℓ} :
    (P : Node → Type ℓ) (ns ms : List Node)
    → All (IsStored ns) ms
    → All P ms
    → All (λ m. IsStored ns m × P m) ms
All-IsStored P ns [] s h = tt
All-IsStored P ns (m ∷ ms) s h = ((s.0, h.0), All-IsStored P ns ms s.1 h.1)
