-- ===== src/Database/Rows.antt =====
-- Lemmas on the rows of a table: searching, updating and appending them.
use go_dark_web_crawler.Common.{
  ℕ, ◌≡◌, refl, subst, Bool, true, none, some, List, [], ◌∷◌, ◌++◌, arith, All, Bool-cases,
  if◌then◌else◌, inl, inr,
}
use go_dark_web_crawler.Common.Text.{Bytes}
use go_dark_web_crawler.Database.Store.{Node, has_key, find_row, update_where}

-- The update leaves the primary key alone.
abbrev pub KeepsKey : (Node → Node) → Type 0
KeepsKey f = (n : Node) → ((f n).url ≡ n.url) × ((f n).user_id ≡ n.user_id)

pub find_row-append :
    (url : Bytes) (user : ℕ) (ns ms : List Node)
    → find_row url user (ns ++ ms)
      ≡ elim (find_row url user ns) [ none ↦ find_row url user ms | some n ↦ some n ]
unfolding find_row
find_row-append url user [] ms = refl
find_row-append url user (n ∷ ns) ms = ground (arith, find_row-append url user ns ms)

-- The row that stands under a key after an update.
pub find_row-update_where :
    (p : Node → Bool) (f : Node → Node) (url : Bytes) (user : ℕ) (ns : List Node)
    → KeepsKey f
    → find_row url user (update_where p f ns)
      ≡ elim (find_row url user ns) [ none ↦ none | some n ↦ some (if p n then f n else n) ]
unfolding find_row update_where
find_row-update_where p f url user [] k = refl
find_row-update_where p f url user (n ∷ ns) k =
    ground (arith, find_row-update_where p f url user ns k, (k n).0, (k n).1)

pub find_row-key :
    (url : Bytes) (user : ℕ) (ns : List Node) (n : Node)
    → find_row url user ns ≡ some n
    → has_key url user n ≡ true
unfolding find_row
find_row-key url user [] n e = cc
find_row-key url user (m ∷ ns) n e = ground (arith, find_row-key url user ns n)

pub All-update_where {ℓ} :
    (P : Node → Type ℓ) (p : Node → Bool) (f : Node → Node) (ns : List Node)
    → ((n : Node) → p n ≡ true → P n → P (f n))
    → All P ns
    → All P (update_where p f ns)
unfolding update_where
All-update_where P p f [] k h = tt
All-update_where P p f (n ∷ ns) k h = elim (Bool-cases (p n)) [
  | inl e ↦ rw e (k n e h.0, All-update_where P p f ns k h.1)
  | inr e ↦ rw e (h.0, All-update_where P p f ns k h.1)
]

pub All-append_one {ℓ} :
    (P : Node → Type ℓ) (ns : List Node) (n : Node) → All P ns → P n → All P (ns ++ n ∷ [])
All-append_one P [] n h q = (q, tt)
All-append_one P (m ∷ ns) n h q = (h.0, All-append_one P ns n h.1 q)

pub All-find_row {ℓ} :
    (P : Node → Type ℓ) (url : Bytes) (user : ℕ) (ns : List Node) (n : Node)
    → All P ns
    → find_row url user ns ≡ some n
    → P n
unfolding find_row
All-find_row P url user [] n h e = absurd (cc e)
All-find_row P url user (m ∷ ns) n h e = elim (Bool-cases (has_key url user m)) [
  | inl t ↦ subst P (cc (rw t at e)) h.0
  | inr t ↦ All-find_row P url user ns n h.1 (rw t at e)
]

-- As `All-update_where`, for a property that the update changes.
pub All-update_where_each {ℓ κ} :
    (P : Node → Type ℓ) (Q : Node → Type κ) (p : Node → Bool) (f : Node → Node) (ns : List Node)
    → ((n : Node) → P n → Q (if p n then f n else n))
    → All P ns
    → All Q (update_where p f ns)
unfolding update_where
All-update_where_each P Q p f [] k h = tt
All-update_where_each P Q p f (n ∷ ns) k h = (k n h.0, All-update_where_each P Q p f ns k h.1)
