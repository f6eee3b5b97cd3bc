-- ===== src/Crawler/Extract/Truncation.antt =====
-- What `truncateUTF8` leaves at a cut.
use go_dark_web_crawler.Common.{
  ℕ, suc, ◌≡◌, refl, ap, true, false, [], ◌∷◌, ◌++◌, arith, leb, length, take, length-append,
}
use go_dark_web_crawler.Common.Text.{Bytes}
use go_dark_web_crawler.Crawler.Extract.{rune_start, drop_tail, trim_to_rune, truncate_utf8}

drop_tail-full : (b : ℕ) (s : Bytes) (c : ℕ) → drop_tail b (s ++ c ∷ []) ≡ b ∷ (s ++ c ∷ [])
unfolding drop_tail
drop_tail-full b [] c = refl
drop_tail-full b (d ∷ s) c = refl

trim_to_rune_cut :
    (s : Bytes) (lead c : ℕ)
    → rune_start lead ≡ true
    → rune_start c ≡ false
    → trim_to_rune (s ++ lead ∷ c ∷ []) ≡ s ++ lead ∷ []
unfolding trim_to_rune drop_tail
trim_to_rune_cut [] lead c h k = rw (k, h, drop_tail) refl
trim_to_rune_cut (b ∷ s) lead c h k = rw (trim_to_rune_cut s lead c h k) (drop_tail-full b s lead)

take_cut :
    (s : Bytes) (a b : ℕ) (rest : Bytes)
    → take (suc (suc (length s))) (s ++ a ∷ b ∷ rest) ≡ s ++ a ∷ b ∷ []
take_cut [] a b rest = refl
take_cut (c ∷ s) a b rest = ap (λ x. c ∷ x) (take_cut s a b rest)

-- Where the cut stands behind a lead byte and one byte that continues it, the lead byte stays alone at the
-- end, also where the two are a whole rune.
truncate_utf8_cut :
    (s : Bytes) (lead c d : ℕ) (rest : Bytes)
    → rune_start lead ≡ true
    → rune_start c ≡ false
    → truncate_utf8 (s ++ lead ∷ c ∷ d ∷ rest) (suc (suc (length s))) ≡ s ++ lead ∷ []
unfolding truncate_utf8
truncate_utf8_cut s lead c d rest h k =
    let long : leb (length (s ++ lead ∷ c ∷ d ∷ rest)) (suc (suc (length s))) ≡ false =
      ground (arith, length-append s (lead ∷ c ∷ d ∷ rest)) in
    rw (long, truncate_utf8, take_cut s lead c (d ∷ rest)) (trim_to_rune_cut s lead c h k)
