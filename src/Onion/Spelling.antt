-- ===== src/Onion/Spelling.antt =====
-- Every key has an address that is accepted.
use go_dark_web_crawler.Common.{
  ℕ, suc, ◌<◌, ◌≡◌, refl, subst, ap, ◌∙◌, true, false, some, List, [], ◌∷◌, ◌++◌, map, arith,
  length, take, drop, get_or, All, length-append, take-append, drop-append, All-append, get_or-drop,
  length-take, All-take,
}
use go_dark_web_crawler.Common.Text.{
  Bytes, codes, bytes_eq_refl, to_lower, to_upper, trim_space, trim_suffix, contains, lower_byte,
  upper_byte,
}
use go_dark_web_crawler.Common.Plain.{
  IsPlain, to_lower-plain, trim_space-plain, trim_suffix-append, trim_space_space,
}
use go_dark_web_crawler.Common.Hex.{IsByte}
use go_dark_web_crawler.Common.Platform.{Platform}
use go_dark_web_crawler.Onion.Base32.{
  Blocks, digits_of, encode, decode, decode-encode, digits_of-lt, letter, Blocks-of,
  length-digits_of,
}
use go_dark_web_crawler.Onion.Address.{blob, address, IsDigest, to_upper-base32}
use go_dark_web_crawler.Onion.{
  all_base32, v3_hostname_re, v3_version, payload, is_v3_address, is_v3_hostname,
}

-- A base 32 digit as the address writes it.
abbrev spell : List ℕ → Bytes
spell ds = map lower_byte (map letter ds)

all_base32-spell : (ds : List ℕ) → All (λ d. d < 32) ds → all_base32 (spell ds) ≡ true
unfolding all_base32 lower_byte
all_base32-spell [] h = refl
all_base32-spell (d ∷ ds) h = ground (arith, all_base32-spell ds h.1)

spell-IsPlain : (ds : List ℕ) → All (λ d. d < 32) ds → All IsPlain (spell ds)
unfolding lower_byte
spell-IsPlain [] h = tt
spell-IsPlain (d ∷ ds) h = ((ground arith, ground arith, ground arith), spell-IsPlain ds h.1)

upper-spell : (ds : List ℕ) → All (λ d. d < 32) ds → map upper_byte (spell ds) ≡ map letter ds
unfolding lower_byte upper_byte
upper-spell [] h = refl
upper-spell (d ∷ ds) h = ground (arith, upper-spell ds h.1)

length-spell : (ds : List ℕ) → length (spell ds) ≡ length ds
length-spell [] = refl
length-spell (d ∷ ds) = ap suc (length-spell ds)

v3_hostname_re-append :
    (e : Bytes) → length e ≡ 56 → all_base32 e ≡ true → v3_hostname_re (e ++ codes ".onion") ≡ true
unfolding v3_hostname_re
v3_hostname_re-append e size alphabet =
    let front : take 56 (e ++ codes ".onion") ≡ e =
      subst (λ (n : ℕ). take n (e ++ codes ".onion") ≡ e) size (take-append e (codes ".onion")) in
    let back : drop 56 (e ++ codes ".onion") ≡ codes ".onion" =
      subst (λ (n : ℕ). drop n (e ++ codes ".onion") ≡ codes ".onion") size
        (drop-append e (codes ".onion")) in
    rw (front, back, alphabet, size) (rw (bytes_eq_refl (codes ".onion")))

module _ (p : Platform) (law : IsDigest p) (key : Bytes) (size : length key ≡ 32) where
  check : Bytes
  check = take 2 (p.sha3_256 (payload key))

  length-check : length check ≡ 2
  unfolding check
  length-check = omega (arith, length-take 2 (p.sha3_256 (payload key)), (law (payload key)).0)

  length-blob : length (blob p key) ≡ 35
  unfolding check
  length-blob = omega (
    arith,
    length-append key (check ++ v3_version ∷ []),
    length-append check (v3_version ∷ []),
    length-check,
    size,
  )

  drop-blob : drop 32 (blob p key) ≡ check ++ v3_version ∷ []
  unfolding check
  drop-blob =
      subst (λ (n : ℕ). drop n (blob p key) ≡ check ++ v3_version ∷ []) size
        (drop-append key (check ++ v3_version ∷ []))

  take-blob : take 32 (blob p key) ≡ key
  unfolding check
  take-blob =
      subst (λ (n : ℕ). take n (blob p key) ≡ key) size (take-append key (check ++ v3_version ∷ []))

  version-blob : get_or (blob p key) 34 0 ≡ 3
  version-blob =
      get_or-drop 32 2 (blob p key) 0
      ∙ ap (λ (r : Bytes). get_or r 2 0) drop-blob
      ∙ at_end check length-check
    where
      at_end : (r : Bytes) → length r ≡ 2 → get_or (r ++ 3 ∷ []) 2 0 ≡ 3
      at_end (a ∷ b ∷ []) h = refl
      at_end _ h = absurd (omega arith)

  check-blob : take 2 (drop 32 (blob p key)) ≡ check
  check-blob =
      ap (take 2) drop-blob
      ∙ subst (λ (n : ℕ). take n (check ++ v3_version ∷ []) ≡ check) length-check
          (take-append check (v3_version ∷ []))

  blob_accepted : is_v3_address p (some (blob p key)) ≡ true
  unfolding is_v3_address check
  blob_accepted = rw (length-blob, version-blob, check-blob, take-blob) (bytes_eq_refl check)

  blob-Blocks : All IsByte key → Blocks (blob p key)
  blob-Blocks bytes = Blocks-of 7 (blob p key) length-blob (
      All-append IsByte key _ bytes (
        All-append IsByte (take 2 (p.sha3_256 (payload key))) (v3_version ∷ [])
          (All-take IsByte 2 (p.sha3_256 (payload key)) (law (payload key)).1) (omega arith, tt)))

suffix-IsPlain : All IsPlain (codes ".onion")
unfolding lower_byte
suffix-IsPlain = omega arith

spell_no_colon :
    (ds : List ℕ) → All (λ d. d < 32) ds → contains (spell ds ++ codes ".onion") (codes ":") ≡ false
unfolding contains lower_byte
spell_no_colon [] h = refl
spell_no_colon (d ∷ ds) h = ground (arith, spell_no_colon ds h.1)

module _ (p : Platform) (law : IsDigest p) (key : Bytes) (size : length key ≡ 32)
    (bytes : All IsByte key) where
  address-IsPlain : All IsPlain (address p key)
  unfolding encode
  address-IsPlain =
      let small = digits_of-lt (blob-Blocks p law key size bytes) in
      All-append IsPlain (spell (digits_of (blob p key))) (codes ".onion")
        (spell-IsPlain (digits_of (blob p key)) small) suffix-IsPlain

  pub address_no_colon : contains (address p key) (codes ":") ≡ false
  unfolding encode
  address_no_colon =
      spell_no_colon (digits_of (blob p key)) (digits_of-lt (blob-Blocks p law key size bytes))

  pub address_folded : to_lower p.unicode (trim_space p.unicode (address p key)) ≡ address p key
  address_folded =
      ap (to_lower p.unicode) (trim_space-plain p.unicode (address p key) address-IsPlain)
      ∙ to_lower-plain p.unicode (address p key) address-IsPlain

  pub address_space_folded :
      to_lower p.unicode (trim_space p.unicode (address p key ++ codes " ")) ≡ address p key
  address_space_folded =
      ap (to_lower p.unicode) (trim_space_space p.unicode (address p key) address-IsPlain)
      ∙ to_lower-plain p.unicode (address p key) address-IsPlain

  -- The address of every key of 32 bytes is accepted, in any case and with spaces around it.
  pub is_v3_hostname-address :
      (raw : Bytes)
      → to_lower p.unicode (trim_space p.unicode raw) ≡ address p key
      → is_v3_hostname p raw ≡ true
  unfolding is_v3_hostname encode
  is_v3_hostname-address raw folded =
      let blocks = blob-Blocks p law key size bytes in
      let ds = digits_of (blob p key) in
      let small = digits_of-lt blocks in
      let e = spell ds in
      let alphabet = all_base32-spell ds small in
      let count : length e ≡ 56 =
        omega (arith, length-spell ds, length-digits_of blocks, length-blob p law key size) in
      let raised : to_upper p.unicode (trim_suffix (e ++ codes ".onion") (codes ".onion"))
          ≡ map letter ds =
        ap (to_upper p.unicode) (trim_suffix-append e (codes ".onion"))
        ∙ to_upper-base32 p e alphabet
        ∙ upper-spell ds small in
      let decoded : decode (map letter ds) ≡ some (blob p key) =
        unfold encode in decode-encode blocks in
      rw (folded, raised, decoded, v3_hostname_re-append e count alphabet)
        (blob_accepted p law key size)
