-- ===== src/Tests/World.antt =====
-- A small world for the examples: library functions that are enough for ASCII texts, one onion service
-- and one account.
use go_dark_web_crawler.Common.{
  ℕ, zero, suc, refl, Option, none, some, [], ◌∷◌, ◌++◌, drop, arith, All, if◌then◌else◌,
}
use go_dark_web_crawler.Common.Text.{Bytes, codes, has_prefix, no_tables}
use go_dark_web_crawler.Common.Hex.{IsByte}
use go_dark_web_crawler.Common.Platform.{Platform, Url}
use go_dark_web_crawler.Onion.Address.{address, IsDigest}
use go_dark_web_crawler.Crawler.Robots.{split_colon}

abbrev pub zeros : ℕ → Bytes
zeros zero = []
zeros (suc n) = 0 ∷ zeros n

pub zeros-bytes : (n : ℕ) → All IsByte (zeros n)
zeros-bytes zero = tt
zeros-bytes (suc n) = (omega arith, zeros-bytes n)

abbrev pub web_url : Bytes → Bytes → Url
web_url scheme host = record {
  scheme = scheme;
  opaque = [];
  user = none;
  host = host;
  path = [];
  fragment = [];
  raw_fragment = [];
  rest = [];
}

abbrev pub parse_web : Bytes → Option Url
parse_web s =
    if has_prefix s (codes "http://") then some (web_url (codes "http") (drop 7 s)) else none

abbrev pub demo : Platform
demo = record {
  unicode = no_tables;
  sha3_256 = λ s. zeros 32;
  url_parse = parse_web;
  url_string = λ u. u.scheme ++ (codes "://" ++ u.host);
  url_hostname = λ u. u.host;
  split_host_port = split_colon;
}

pub demo-IsDigest : IsDigest demo
demo-IsDigest s = (refl, zeros-bytes 32)

abbrev pub site : Bytes
site = address demo (zeros 32)

abbrev pub page_url : Bytes
page_url = codes "http://" ++ site
