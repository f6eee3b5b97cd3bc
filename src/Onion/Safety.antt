-- ===== src/Onion/Safety.antt =====
-- What a URL or a host name that passes the checks is known to be.
use go_dark_web_crawler.Common.{
  ℕ, ◌≤◌, ◌≡◌, refl, ◌⊎◌, inl, inr, true, false, none, some, [], ◌∷◌, ◌++◌, arith, length, All,
  Option-cases, map,
}
use go_dark_web_crawler.Common.Text.{
  Bytes, codes, bytes_eq, bytes_eq_iff, bytes_eq_refl, contains, to_lower, trim_space, lower_byte,
}
use go_dark_web_crawler.Common.Plain.{contains-append}
use go_dark_web_crawler.Common.Hex.{IsByte, atoi}
use go_dark_web_crawler.Common.Platform.{Platform, Url}
use go_dark_web_crawler.Onion.Base32.{encode}
use go_dark_web_crawler.Onion.Address.{address, blob, IsDigest, is_v3_hostname_sound}
use go_dark_web_crawler.Onion.Spelling.{
  address_folded, address_no_colon, address_space_folded, is_v3_hostname-address,
}
use go_dark_web_crawler.Onion.{
  is_v3_hostname, valid_web_port, normalize_hostname, host_part, is_v3_host, is_web_url, is_v3_url,
}

colon_at_end : contains (codes " :80") (codes ":") ≡ true
unfolding contains
colon_at_end = refl

web_port : valid_web_port (codes "80") ≡ true
unfolding valid_web_port atoi
web_port = refl

append_nonempty : (s : Bytes) (c : ℕ) (t : Bytes) → bytes_eq (s ++ c ∷ t) [] ≡ false
unfolding bytes_eq
append_nonempty [] c t = refl
append_nonempty (d ∷ s) c t = refl

-- The host, without a port or with a web port, is the address of a key.
pub record IsOnionHost (p : Platform) (host : Bytes) : Type 0 where
  pub name : Bytes
  pub key : Bytes
  pub named : host_part p (to_lower p.unicode (trim_space p.unicode host)) ≡ some name
  pub key_size : length key ≡ 32
  pub spelled : to_lower p.unicode (trim_space p.unicode name) ≡ address p key

-- What `IsV3URL` promises of a text.
pub record IsSafeUrl (p : Platform) (raw : Bytes) : Type 0 where
  pub url : Url
  pub short : length raw ≤ 2048
  pub parsed : p.url_parse raw ≡ some url
  pub web : (url.scheme ≡ codes "http") ⊎ (url.scheme ≡ codes "https")
  pub no_userinfo : url.user ≡ none
  pub not_opaque : url.opaque ≡ []
  pub onion : IsOnionHost p url.host

is_v3_host-IsOnionHost :
    (p : Platform) (host : Bytes) → is_v3_host p host ≡ true → IsOnionHost p host
unfolding is_v3_host normalize_hostname
is_v3_host-IsOnionHost p host h =
    let folded = to_lower p.unicode (trim_space p.unicode host) in
    elim (Option-cases (host_part p folded)) [
      | inl bad ↦ absurd (ground (arith, bytes_eq_refl []))
      | inr (name, good) ↦
          let accepted : is_v3_hostname p name ≡ true = ground (arith, bytes_eq_refl []) in
          let (key, size, spelled) = is_v3_hostname_sound p name accepted in
          record { name = name; key = key; named = good; key_size = size; spelled = spelled }
    ]

-- `IsV3URL` accepts only a text of at most 2048 bytes that parses to an http or https URL with no
-- user info and no opaque part, whose host, with no port or with port 80 or 443, is the address of
-- a key of 32 bytes.
pub is_v3_url-IsSafeUrl : (p : Platform) (raw : Bytes) → is_v3_url p raw ≡ true → IsSafeUrl p raw
unfolding is_v3_url is_web_url
is_v3_url-IsSafeUrl p raw h = elim (Option-cases (p.url_parse raw)) [
  | inl bad ↦ absurd (ground arith)
  | inr (url, good) ↦ record {
    url = url;
    short = ground arith;
    parsed = good;
    web =
        ground
          (arith, bytes_eq_iff url.scheme (codes "http"), bytes_eq_iff url.scheme (codes "https"));
    no_userinfo = ground arith;
    not_opaque = ground (arith, bytes_eq_iff url.opaque []);
    onion = is_v3_host-IsOnionHost p url.host (ground arith);
  }
]

-- `NormalizeHostname` trims the host before it splits off the port, and not the name behind it. For
-- every key, the input "<address> :80" gives "<address> ", with the space, where `net.SplitHostPort`
-- splits at the colon; "<address>" gives "<address>".
normalize_hostname_spaced_port :
    (p : Platform) (law : IsDigest p) (key raw : Bytes) (size : length key ≡ 32)
    (bytes : All IsByte key)
    → to_lower p.unicode (trim_space p.unicode raw) ≡ address p key ++ codes " :80"
    → p.split_host_port (address p key ++ codes " :80")
      ≡ some (address p key ++ codes " ", codes "80")
    → (normalize_hostname p raw ≡ address p key ++ codes " ")
      × (normalize_hostname p (address p key) ≡ address p key)
unfolding normalize_hostname host_part
normalize_hostname_spaced_port p law key raw size bytes entered split =
    let a = address p key in
    let plain = address_folded p law key size bytes in
    let no_colon = address_no_colon p law key size bytes in
    let accepted = is_v3_hostname-address p law key size bytes a plain in
    let spaced =
      is_v3_hostname-address p law key size bytes (a ++ codes " ")
        (address_space_folded p law key size bytes) in
    let colon = contains-append a (codes " :80") (codes ":") colon_at_end in
    let nonempty : (t : ℕ) (r : Bytes) → bytes_eq (a ++ t ∷ r) [] ≡ false =
      λ t r. append_nonempty a t r in
    (
      rw (entered, nonempty 32 (codes ":80"), colon, split, web_port, spaced),
      rw (plain, no_colon, accepted)
          (rw (append_nonempty (map lower_byte (encode (blob p key))) b'.' (codes "onion"))),
    )
