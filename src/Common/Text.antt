-- ===== src/Common/Text.antt =====
-- Go strings as lists of bytes, with the functions of package `strings` that the program calls.
use Prim.Native.Char.{code}
use Prim.Native.String.{String}
use go_dark_web_crawler.Common.{
  ℕ, ◌+◌, ◌-◌, ◌≡◌, refl, ◌↔◌, Bool, true, false, ◌&&◌, ◌||◌, List, [], ◌∷◌, ◌++◌, map, All, arith,
  ltb, leb, length, take, drop, ◌==◌, if◌then◌else◌,
}

abbrev pub Bytes : Type 0
Bytes = List ℕ

-- The bytes of a literal: every literal of the development is ASCII.
abbrev pub codes : String → Bytes
codes String.[] = []
codes (String.◌∷◌ c s) = code c ∷ codes s

-- `==` on strings, `bytes.Equal`, and the verdict of `subtle.ConstantTimeCompare`.
unfoldable pub bytes_eq : Bytes → Bytes → Bool
bytes_eq [] [] = true
bytes_eq (x ∷ xs) (y ∷ ys) = x == y && bytes_eq xs ys
bytes_eq _ _ = false

pub bytes_eq_iff : (a b : Bytes) → (bytes_eq a b ≡ true) ↔ (a ≡ b)
unfolding bytes_eq
bytes_eq_iff (x ∷ a) (y ∷ b) = ground (arith, bytes_eq_iff a b)
bytes_eq_iff _ _ = ground arith

pub bytes_eq_refl : (a : Bytes) → bytes_eq a a ≡ true
bytes_eq_refl a = (bytes_eq_iff a a).1 refl

-- `strings.HasPrefix(s, prefix)`.
unfoldable pub has_prefix : Bytes → Bytes → Bool
has_prefix s [] = true
has_prefix [] (p ∷ ps) = false
has_prefix (c ∷ s) (p ∷ ps) = c == p && has_prefix s ps

-- `strings.Contains(s, sub)`.
unfoldable pub contains : Bytes → Bytes → Bool
unfolding has_prefix
contains [] sub = has_prefix [] sub
contains (c ∷ s) sub = has_prefix (c ∷ s) sub || contains s sub

-- `strings.ToLower` and `strings.ToUpper` leave the ASCII path at a byte of 128 or more;
-- `strings.TrimSpace`, `strings.Fields` and `strings.EqualFold` do too. All then consult the Unicode tables of the Go distribution. Those tables are a
-- parameter; the ASCII path is written out below.
pub record Unicode : Type 0 where
  pub lower : Bytes → Bytes
  pub upper : Bytes → Bytes
  pub trim : Bytes → Bytes
  pub fields : Bytes → List Bytes
  pub fold : Bytes → Bytes → Bool

unfoldable pub is_ascii : Bytes → Bool
is_ascii [] = true
is_ascii (c ∷ s) = ltb c 128 && is_ascii s

unfoldable pub lower_byte : ℕ → ℕ
lower_byte c = if leb b'A' c && leb c b'Z' then c + 32 else c

unfoldable pub upper_byte : ℕ → ℕ
upper_byte c = if leb b'a' c && leb c b'z' then c - 32 else c

unfoldable pub to_lower : Unicode → Bytes → Bytes
unfolding is_ascii lower_byte
to_lower u s = if is_ascii s then map lower_byte s else u.lower s

unfoldable pub to_upper : Unicode → Bytes → Bytes
unfolding is_ascii upper_byte
to_upper u s = if is_ascii s then map upper_byte s else u.upper s

-- The six ASCII spaces.
unfoldable pub is_space : ℕ → Bool
is_space c = c == 32 || (leb 9 c && leb c 13)

unfoldable pub trim_left : Bytes → Bytes
unfolding is_space
trim_left [] = []
trim_left (c ∷ s) = if is_space c then trim_left s else c ∷ s

-- Drop the spaces at the end: a byte stays if it is no space or if something stays behind it.
unfoldable pub drop_space : ℕ → Bytes → Bytes
unfolding is_space
drop_space c [] = if is_space c then [] else c ∷ []
drop_space c (d ∷ s) = c ∷ d ∷ s

unfoldable pub trim_right : Bytes → Bytes
unfolding drop_space
trim_right [] = []
trim_right (c ∷ s) = drop_space c (trim_right s)

unfoldable pub trim_space : Unicode → Bytes → Bytes
unfolding is_ascii trim_left trim_right
trim_space u s = if is_ascii s then trim_right (trim_left s) else u.trim s

-- `strings.HasSuffix` and `strings.TrimSuffix`.
unfoldable pub has_suffix : Bytes → Bytes → Bool
has_suffix s suffix =
    leb (length suffix) (length s) && bytes_eq (drop (length s - length suffix) s) suffix

unfoldable pub trim_suffix : Bytes → Bytes → Bytes
unfolding has_suffix
trim_suffix s suffix = if has_suffix s suffix then take (length s - length suffix) s else s

-- A byte that is no space begins a word, or goes on with the one behind it.
abbrev begin_word : ℕ → Bytes → List Bytes → List Bytes
unfolding is_space
begin_word c [] rest = (c ∷ []) ∷ rest
begin_word c (d ∷ s) [] = (c ∷ []) ∷ []
begin_word c (d ∷ s) (w ∷ rest) = if is_space d then (c ∷ []) ∷ w ∷ rest else (c ∷ w) ∷ rest

unfoldable pub words : Bytes → List Bytes
unfolding is_space
words [] = []
words (c ∷ s) = let rest = words s in if is_space c then rest else begin_word c s rest

-- `strings.Fields`, and `strings.Join` with a space.
unfoldable pub fields : Unicode → Bytes → List Bytes
unfolding is_ascii words
fields u s = if is_ascii s then words s else u.fields s

unfoldable pub join_words : List Bytes → Bytes
join_words [] = []
join_words (w ∷ []) = w
join_words (w ∷ v ∷ rest) = w ++ (32 ∷ join_words (v ∷ rest))

abbrev push : ℕ → List Bytes → List Bytes
push c [] = (c ∷ []) ∷ []
push c (w ∷ rest) = (c ∷ w) ∷ rest

-- `strings.Split` at one byte.
unfoldable pub split_on : ℕ → Bytes → List Bytes
split_on sep [] = [] ∷ []
split_on sep (c ∷ s) = let rest = split_on sep s in if c == sep then [] ∷ rest else push c rest

pub split_on-append :
    (sep : ℕ) (w s : Bytes)
    → All (λ c. (c == sep) ≡ false) w
    → split_on sep (w ++ sep ∷ s) ≡ w ∷ split_on sep s
unfolding split_on
split_on-append sep [] s h = ground arith
split_on-append sep (c ∷ w) s h = rw (h.0, split_on-append sep w s h.1) refl

pub split_on-last :
    (sep : ℕ) (w : Bytes) → All (λ c. (c == sep) ≡ false) w → split_on sep w ≡ w ∷ []
unfolding split_on
split_on-last sep [] h = refl
split_on-last sep (c ∷ w) h = rw (h.0, split_on-last sep w h.1) refl

-- `strings.EqualFold`.
unfoldable pub equal_fold : Unicode → Bytes → Bytes → Bool
unfolding is_ascii lower_byte
equal_fold u a b =
    if is_ascii a && is_ascii b then bytes_eq (map lower_byte a) (map lower_byte b) else u.fold a b

-- Tables that change nothing: enough for ASCII texts.
abbrev pub no_tables : Unicode
no_tables = record {
  lower = λ s. s;
  upper = λ s. s;
  trim = λ s. s;
  fields = λ s. s ∷ [];
  fold = bytes_eq;
}

trimmed : trim_space no_tables (codes " \tA b \n") ≡ codes "A b"
unfolding trim_space
trimmed = refl

joined : join_words (fields no_tables (codes " a  bc d ")) ≡ codes "a bc d"
unfolding join_words fields
joined = refl
