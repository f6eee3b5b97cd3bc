-- ===== src/Common/Plain.antt =====
-- Texts of visible ASCII bytes: no Unicode table is consulted, and there is nothing to trim.
use go_dark_web_crawler.Common.{
  ℕ, ◌-◌, ◌<◌, ◌≡◌, refl, ap, ◌∙◌, true, [], ◌∷◌, ◌++◌, map, arith, leb, length, All, take-append,
  drop-append, length-append,
}
use go_dark_web_crawler.Common.Text.{
  Bytes, Unicode, is_ascii, contains, lower_byte, to_lower, trim_left, trim_right, trim_space,
  trim_suffix, bytes_eq_refl, drop_space,
}

-- Visible, and no capital letter.
abbrev pub IsPlain : ℕ → Type 0
IsPlain c = (32 < c) × (c < 128) × (lower_byte c ≡ c)

pub is_ascii-plain : (s : Bytes) → All IsPlain s → is_ascii s ≡ true
unfolding is_ascii
is_ascii-plain [] h = refl
is_ascii-plain (c ∷ s) h = ground (arith, is_ascii-plain s h.1)

pub to_lower-plain : (u : Unicode) (s : Bytes) → All IsPlain s → to_lower u s ≡ s
unfolding to_lower
to_lower-plain u s h = rw (is_ascii-plain s h) (mapped s h)
  where
    mapped : (s : Bytes) → All IsPlain s → map lower_byte s ≡ s
    mapped [] h = refl
    mapped (c ∷ s) h = rw (h.0.2, mapped s h.1)

trim_left-plain : (s : Bytes) → All IsPlain s → trim_left s ≡ s
unfolding trim_left
trim_left-plain [] h = refl
trim_left-plain (c ∷ s) h = ground arith

trim_right-plain : (s : Bytes) → All IsPlain s → trim_right s ≡ s
unfolding trim_right
trim_right-plain [] h = refl
trim_right-plain (c ∷ []) h = ground arith
trim_right-plain (c ∷ d ∷ s) h = rw (trim_right-plain (d ∷ s) h.1)

pub trim_space-plain : (u : Unicode) (s : Bytes) → All IsPlain s → trim_space u s ≡ s
unfolding trim_space
trim_space-plain u s h =
    ground (arith, is_ascii-plain s h, trim_left-plain s h, trim_right-plain s h)

pub trim_suffix-append : (s suffix : Bytes) → trim_suffix (s ++ suffix) suffix ≡ s
unfolding trim_suffix
trim_suffix-append s suffix =
    let n : length (s ++ suffix) - length suffix ≡ length s =
      omega (arith, length-append s suffix) in
    let fits : leb (length suffix) (length (s ++ suffix)) ≡ true =
      ground (arith, length-append s suffix) in
    rw (n, drop-append s suffix, take-append s suffix, fits, bytes_eq_refl suffix)

drop_space-plain : (c : ℕ) (s : Bytes) → IsPlain c → drop_space c s ≡ c ∷ s
unfolding drop_space
drop_space-plain c [] h = ground arith
drop_space-plain c (d ∷ s) h = refl

trim_right_space : (s : Bytes) → All IsPlain s → trim_right (s ++ 32 ∷ []) ≡ s
unfolding trim_right
trim_right_space [] h = refl
trim_right_space (c ∷ s) h = ap (drop_space c) (trim_right_space s h.1) ∙ drop_space-plain c s h.0

is_ascii_space : (s : Bytes) → All IsPlain s → is_ascii (s ++ 32 ∷ []) ≡ true
unfolding is_ascii
is_ascii_space [] h = refl
is_ascii_space (c ∷ s) h = ground (arith, is_ascii_space s h.1)

trim_left_space : (s : Bytes) → All IsPlain s → trim_right (trim_left (s ++ 32 ∷ [])) ≡ s
unfolding trim_left
trim_left_space [] h = unfold trim_right in refl
trim_left_space (c ∷ s) h =
    let solid : trim_left (c ∷ (s ++ 32 ∷ [])) ≡ c ∷ (s ++ 32 ∷ []) = ground arith in
    rw solid (trim_right_space (c ∷ s) h)

-- One space at the end is trimmed away.
pub trim_space_space : (u : Unicode) (s : Bytes) → All IsPlain s → trim_space u (s ++ 32 ∷ []) ≡ s
unfolding trim_space
trim_space_space u s h = rw (is_ascii_space s h) (trim_left_space s h)

pub contains-append : (s t sub : Bytes) → contains t sub ≡ true → contains (s ++ t) sub ≡ true
unfolding contains
contains-append [] t sub h = h
contains-append (c ∷ s) t sub h = ground (arith, contains-append s t sub h)
