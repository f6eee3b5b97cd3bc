-- ===== src/Crawler/Extract.antt =====
-- The bounds of what the crawler takes from a page: backend/internal/crawler/extract.go and scraper.go.
pub mod Truncation
use go_dark_web_crawler.Common.{
  ℕ, suc, zero, ◌/◌, Bool, true, false, not, List, [], ◌∷◌, leb, ◌==◌, length, take, if◌then◌else◌,
}
use go_dark_web_crawler.Common.Text.{Bytes, bytes_eq}

abbrev pub max_entities_per_kind : ℕ
max_entities_per_kind = 50

-- `_, ok := seen[s]`.
unfoldable pub seen_in : Bytes → List Bytes → Bool
seen_in s [] = false
seen_in s (t ∷ ts) = if bytes_eq t s then true else seen_in s ts

-- The loop of `capUnique`, with room for `room` more.
unfoldable pub cap_from : ℕ → List Bytes → List Bytes → List Bytes
cap_from room seen [] = []
cap_from zero seen (s ∷ rest) = []
cap_from (suc room) seen (s ∷ rest) =
    let skipped = cap_from (suc room) seen rest in
    let taken = s ∷ cap_from room (s ∷ seen) rest in if seen_in s seen then skipped else taken

-- `capUnique`.
unfoldable pub cap_unique : List Bytes → List Bytes
cap_unique texts = cap_from max_entities_per_kind [] texts

-- The loop of `removeDuplicates`.
unfoldable pub unseen : List Bytes → List Bytes → List Bytes
unseen seen [] = []
unseen seen (s ∷ rest) =
    let skipped = unseen seen rest in
    let taken = s ∷ unseen (s ∷ seen) rest in if seen_in s seen then skipped else taken

-- `removeDuplicates`.
unfoldable pub remove_duplicates : List Bytes → List Bytes
remove_duplicates texts = unseen [] texts

-- `utf8.RuneStart`: the top bits are not 10.
unfoldable pub rune_start : ℕ → Bool
rune_start b = not (b / 64 == 2)

-- Drop the bytes at the end that continue a rune.
unfoldable pub drop_tail : ℕ → Bytes → Bytes
drop_tail b [] = if rune_start b then b ∷ [] else []
drop_tail b (c ∷ s) = b ∷ c ∷ s

unfoldable pub trim_to_rune : Bytes → Bytes
trim_to_rune [] = []
trim_to_rune (b ∷ s) = drop_tail b (trim_to_rune s)

-- `truncateUTF8`.
unfoldable pub truncate_utf8 : Bytes → ℕ → Bytes
truncate_utf8 s max_bytes = if leb (length s) max_bytes then s else trim_to_rune (take max_bytes s)
