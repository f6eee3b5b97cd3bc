-- ===== src/Onion/Address.antt =====
-- Onion addresses against their specification: a v3 host name is the spelling of a public key.
use go_dark_web_crawler.Common.{
  ℕ, ◌≡◌, refl, subst, &&-both, &&-three, sym, ap, ◌∙◌, true, some, [], ◌∷◌, ◌++◌, map, arith,
  length, take, drop, get_or, All, Option-cases, inl, inr, take-append-drop, length-take,
  length-drop, get_or-drop,
}
use go_dark_web_crawler.Common.Text.{
  Bytes, codes, bytes_eq_iff, to_lower, to_upper, trim_space, trim_suffix, lower_byte, upper_byte,
  is_ascii,
}
use go_dark_web_crawler.Common.Plain.{trim_suffix-append}
use go_dark_web_crawler.Common.Hex.{IsByte}
use go_dark_web_crawler.Common.Platform.{Platform}
use go_dark_web_crawler.Onion.Base32.{encode, decode, encode-decode}
use go_dark_web_crawler.Onion.{
  all_base32, v3_hostname_re, v3_version, payload, is_v3_address, is_v3_hostname,
}

-- Key, two bytes of checksum, version.
abbrev pub blob : Platform → Bytes → Bytes
blob p key = key ++ (take 2 (p.sha3_256 (payload key)) ++ v3_version ∷ [])

-- The address of a key, as the Tor specification writes it.
abbrev pub address : Platform → Bytes → Bytes
address p key = map lower_byte (encode (blob p key)) ++ codes ".onion"

-- SHA3-256 gives 32 bytes.
abbrev pub IsDigest : Platform → Type 0
IsDigest p = (s : Bytes) → (length (p.sha3_256 s) ≡ 32) × All IsByte (p.sha3_256 s)

is_ascii-base32 : (s : Bytes) → all_base32 s ≡ true → is_ascii s ≡ true
unfolding all_base32 is_ascii
is_ascii-base32 [] h = refl
is_ascii-base32 (c ∷ s) h = ground (arith, is_ascii-base32 s)

pub to_upper-base32 :
    (p : Platform) (s : Bytes) → all_base32 s ≡ true → to_upper p.unicode s ≡ map upper_byte s
unfolding to_upper
to_upper-base32 p s h = rw (is_ascii-base32 s h)

lower-upper : (s : Bytes) → all_base32 s ≡ true → map lower_byte (map upper_byte s) ≡ s
unfolding all_base32 lower_byte upper_byte
lower-upper [] h = refl
lower-upper (c ∷ s) h = ground (arith, lower-upper s)

split-v3 :
    (s : Bytes)
    → v3_hostname_re s ≡ true
    → (e : Bytes) × (s ≡ e ++ codes ".onion") × (all_base32 e ≡ true)
unfolding v3_hostname_re
split-v3 s h =
    let (alphabet, _, end) = &&-three (all_base32 (take 56 s)) _ _ h in
    let suffix : drop 56 s ≡ codes ".onion" = (bytes_eq_iff (drop 56 s) (codes ".onion")).0 end in
    (take 56 s, sym (take-append-drop 56 s) ∙ ap (◌++◌ (take 56 s)) suffix, alphabet)

three : (r : Bytes) → length r ≡ 3 → r ≡ take 2 r ++ get_or r 2 0 ∷ []
three (a ∷ b ∷ c ∷ []) h = refl
three _ h = absurd (omega arith)

-- A decoded address that passes the test is made of its key.
blob-take : (p : Platform) (d : Bytes) → is_v3_address p (some d) ≡ true → d ≡ blob p (take 32 d)
unfolding is_v3_address
blob-take p d h =
    let size : length d ≡ 35 = ground arith in
    let tail : length (drop 32 d) ≡ 3 = omega (arith, size, length-drop 32 d) in
    let version : get_or (drop 32 d) 2 0 ≡ 3 = ground (arith, get_or-drop 32 2 d 0) in
    let check = take 2 (p.sha3_256 (payload (take 32 d))) in
    let checked : take 2 (drop 32 d) ≡ check =
      ground (arith, bytes_eq_iff (take 2 (drop 32 d)) check) in
    let rest : drop 32 d ≡ check ++ 3 ∷ [] =
      three (drop 32 d) tail
      ∙ ap (λ (c : Bytes). c ++ get_or (drop 32 d) 2 0 ∷ []) checked
      ∙ ap (λ (v : ℕ). check ++ v ∷ []) version in
    sym (take-append-drop 32 d) ∙ ap (◌++◌ (take 32 d)) rest

-- The characters before the suffix spell the key, its checksum and the version.
decoded-address :
    (p : Platform) (e : Bytes)
    → all_base32 e ≡ true
    → is_v3_address p (decode (map upper_byte e)) ≡ true
    → (key : Bytes) × (length key ≡ 32) × (e ++ codes ".onion" ≡ address p key)
unfolding is_v3_address
decoded-address p e alphabet h = elim (Option-cases (decode (map upper_byte e))) [
  | inl bad ↦ absurd (cc (rw (bad, is_v3_address) at h))
  | inr (d, good) ↦
      let passed : is_v3_address p (some d) ≡ true = rw good at h in
      let size : length d ≡ 35 = ground arith in
      let spelled : map lower_byte (encode d) ≡ e =
        rw (encode-decode (map upper_byte e) d good).0 (lower-upper e alphabet) in
      (
        take 32 d,
        omega (arith, length-take 32 d, size),
        ap (λ (c : Bytes). c ++ codes ".onion")
            (sym spelled ∙ ap (λ (c : Bytes). map lower_byte (encode c)) (blob-take p d passed)),
      )
]

-- A host name that is accepted is, but for its case and the spaces around it, the address of a key
-- of 32 bytes.
pub is_v3_hostname_sound :
    (p : Platform) (raw : Bytes)
    → is_v3_hostname p raw ≡ true
    → (key : Bytes) × (length key ≡ 32)
      × (to_lower p.unicode (trim_space p.unicode raw) ≡ address p key)
unfolding is_v3_hostname
is_v3_hostname_sound p raw h =
    let host = to_lower p.unicode (trim_space p.unicode raw) in
    let (shape, accepted) = &&-both (v3_hostname_re host) _ h in
    let (e, split, alphabet) = split-v3 host shape in
    let trimmed : trim_suffix host (codes ".onion") ≡ e =
      ap (λ (c : Bytes). trim_suffix c (codes ".onion")) split
      ∙ trim_suffix-append e (codes ".onion") in
    let raised : to_upper p.unicode (trim_suffix host (codes ".onion")) ≡ map upper_byte e =
      ap (to_upper p.unicode) trimmed ∙ to_upper-base32 p e alphabet in
    let decoded : is_v3_address p (decode (map upper_byte e)) ≡ true =
      subst (λ (c : Bytes). is_v3_address p (decode c) ≡ true) raised accepted in
    let (key, size, same) = decoded-address p e alphabet decoded in (key, size, split ∙ same)
