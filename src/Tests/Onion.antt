-- ===== src/Tests/Onion.antt =====
-- Onion addresses and URLs.
use go_dark_web_crawler.Common.{
  ℕ, ◌≡◌, ◌≢◌, refl, sym, Bool, true, false, Option, none, some, List, [], ◌∷◌, ◌++◌, length, arith,
}
use go_dark_web_crawler.Common.Text.{Bytes, codes, to_lower, trim_space}
use go_dark_web_crawler.Onion.{is_v3_hostname, is_v3_url, normalize_url, normalize_hostname}
use go_dark_web_crawler.Onion.Address.{address, is_v3_hostname_sound}
use go_dark_web_crawler.Onion.Spelling.{is_v3_hostname-address}
use go_dark_web_crawler.Onion.Safety.{IsSafeUrl, is_v3_url-IsSafeUrl}
use go_dark_web_crawler.Tests.World.{zeros, zeros-bytes, demo, demo-IsDigest, site, page_url}

site_accepted : is_v3_hostname demo site ≡ true
unfolding is_v3_hostname go_dark_web_crawler.Onion.v3_hostname_re to_lower trim_space
    go_dark_web_crawler.Onion.Base32.encode go_dark_web_crawler.Common.Text.bytes_eq
    go_dark_web_crawler.Onion.is_v3_address go_dark_web_crawler.Onion.Base32.decode
    go_dark_web_crawler.Common.Text.to_upper go_dark_web_crawler.Common.Text.trim_suffix
site_accepted = refl

pub page_accepted : is_v3_url demo page_url ≡ true
unfolding is_v3_url go_dark_web_crawler.Common.Text.bytes_eq go_dark_web_crawler.Onion.Base32.encode
    go_dark_web_crawler.Common.Text.has_prefix go_dark_web_crawler.Onion.is_web_url
    go_dark_web_crawler.Onion.is_v3_host normalize_hostname to_lower trim_space
    go_dark_web_crawler.Onion.host_part go_dark_web_crawler.Common.Text.contains is_v3_hostname
    go_dark_web_crawler.Onion.v3_hostname_re go_dark_web_crawler.Onion.is_v3_address
    go_dark_web_crawler.Onion.Base32.decode go_dark_web_crawler.Common.Text.to_upper
    go_dark_web_crawler.Common.Text.trim_suffix
page_accepted = refl

is_v3_hostname_sound_example :
    (key : Bytes) × (length key ≡ 32)
    × (to_lower demo.unicode (trim_space demo.unicode site) ≡ address demo key)
is_v3_hostname_sound_example = is_v3_hostname_sound demo site site_accepted

padded :
    to_lower demo.unicode (trim_space demo.unicode (codes " " ++ site)) ≡ address demo (zeros 32)
unfolding go_dark_web_crawler.Onion.Base32.encode to_lower trim_space
padded = refl

is_v3_hostname-address_example : is_v3_hostname demo (codes " " ++ site) ≡ true
is_v3_hostname-address_example =
    is_v3_hostname-address demo demo-IsDigest (zeros 32) refl (zeros-bytes 32) (codes " " ++ site)
      padded

is_v3_url-IsSafeUrl_example : IsSafeUrl demo page_url
is_v3_url-IsSafeUrl_example = is_v3_url-IsSafeUrl demo page_url page_accepted
