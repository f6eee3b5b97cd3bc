-- ===== src/Onion.antt =====
-- backend/internal/onion/url.go: which host names and URLs count as Tor v3 onion services.
pub mod Base32
pub mod Address
pub mod Spelling
pub mod Safety
use go_dark_web_crawler.Common.{
  ℕ, ◌-◌, Bool, true, false, not, ◌&&◌, ◌||◌, Option, none, some, List, [], ◌∷◌, ◌++◌, ltb, leb,
  ◌==◌, length, take, drop, get_or, if◌then◌else◌,
}
use go_dark_web_crawler.Common.Text.{
  Bytes, codes, bytes_eq, contains, to_lower, to_upper, trim_space, trim_suffix,
}
use go_dark_web_crawler.Common.Hex.{Parsed, number, syntax_error, range_error, atoi}
use go_dark_web_crawler.Common.Platform.{Platform, Url}
use Base32.{decode}

-- `[a-z2-7]`.
unfoldable pub is_base32 : ℕ → Bool
is_base32 c = (leb b'a' c && leb c b'z') || (leb b'2' c && leb c b'7')

unfoldable pub all_base32 : Bytes → Bool
unfolding is_base32
all_base32 [] = true
all_base32 (c ∷ s) = is_base32 c && all_base32 s

-- `^[a-z2-7]{56}\.onion$`: 56 such characters, then exactly the suffix.
unfoldable pub v3_hostname_re : Bytes → Bool
unfolding all_base32
v3_hostname_re s =
    all_base32 (take 56 s) && length (take 56 s) == 56 && bytes_eq (drop 56 s) (codes ".onion")

abbrev pub v3_version : ℕ
v3_version = 3

-- What the checksum of an address is taken of.
abbrev pub payload : Bytes → Bytes
payload key = codes ".onion checksum" ++ (key ++ v3_version ∷ [])

-- The test of the decoded address: 35 bytes, version 3, and the first two bytes of the checksum.
unfoldable pub is_v3_address : Platform → Option Bytes → Bool
is_v3_address p none = false
is_v3_address p (some decoded) =
    length decoded == 35
    && get_or decoded 34 0 == v3_version
    && bytes_eq (take 2 (drop 32 decoded)) (take 2 (p.sha3_256 (payload (take 32 decoded))))

-- `IsV3Hostname`.
unfoldable pub is_v3_hostname : Platform → Bytes → Bool
is_v3_hostname p raw =
    let hostname = to_lower p.unicode (trim_space p.unicode raw) in
    v3_hostname_re hostname
    && is_v3_address p (decode (to_upper p.unicode (trim_suffix hostname (codes ".onion"))))

-- `validWebPort`.
unfoldable pub valid_web_port : Bytes → Bool
valid_web_port port = elim (atoi port) [
  | number negative n ↦ not negative && (n == 80 || n == 443)
  | _ ↦ false
]

-- The name that stands for a host: the host itself, or its part before a web port.
unfoldable pub host_part : Platform → Bytes → Option Bytes
host_part p host =
    if contains host (codes ":")
    then elim (p.split_host_port host) [
      | none ↦ none
      | some (name, port) ↦ if valid_web_port port then some name else none
    ]
    else some host

-- `NormalizeHostname`: the empty text is the refusal.
unfoldable pub normalize_hostname : Platform → Bytes → Bytes
normalize_hostname p raw =
    let host = to_lower p.unicode (trim_space p.unicode raw) in
    if bytes_eq host [] then [] else elim (host_part p host) [
      | none ↦ []
      | some name ↦ if is_v3_hostname p name then name else []
    ]

-- `IsV3Host`.
unfoldable pub is_v3_host : Platform → Bytes → Bool
is_v3_host p host = not (bytes_eq (normalize_hostname p host) [])

-- The test of a parsed URL in `IsV3URL`.
unfoldable pub is_web_url : Platform → Url → Bool
is_web_url p url =
    (bytes_eq url.scheme (codes "http") || bytes_eq url.scheme (codes "https"))
    && elim url.user [ none ↦ true | some _ ↦ false ]
    && bytes_eq url.opaque []
    && not (bytes_eq url.host [])
    && is_v3_host p url.host

-- `IsV3URL`.
unfoldable pub is_v3_url : Platform → Bytes → Bool
is_v3_url p raw =
    if bytes_eq raw [] || ltb 2048 (length raw)
    then false
    else elim (p.url_parse raw) [ none ↦ false | some url ↦ is_web_url p url ]

-- The URL that `NormalizeURL` writes: lower case scheme and host, no fragment.
unfoldable pub canonical : Platform → Url → Url
canonical p url = record url {
  scheme = to_lower p.unicode url.scheme;
  host = to_lower p.unicode url.host;
  fragment = [];
  raw_fragment = [];
}

abbrev has_user : Option Bytes → Bool
has_user none = false
has_user (some _) = true

-- `NormalizeURL`: the empty text is the refusal.
unfoldable pub normalize_url : Platform → Bytes → Bytes
normalize_url p raw =
    if bytes_eq raw [] || ltb 2048 (length raw)
    then []
    else elim (p.url_parse (trim_space p.unicode raw)) [
      | none ↦ []
      | some url ↦
          if bytes_eq url.host [] || has_user url.user || not (bytes_eq url.opaque [])
          then []
          else (let text = p.url_string (canonical p url) in if is_v3_url p text then text else [])
    ]
