-- ===== src/Common/Platform.antt =====
-- What the program calls and this repository does not hold: net/url, net.SplitHostPort, the Unicode
-- tables behind package strings, and the SHA-3 of golang.org/x/crypto. One record, which the
-- definitions that use any of it take as their first argument.
use go_dark_web_crawler.Common.{Option}
use go_dark_web_crawler.Common.Text.{Bytes, Unicode}

-- `url.URL`. `rest` holds the fields that the program neither reads nor writes.
pub record Url : Type 0 where
  pub scheme : Bytes
  pub opaque : Bytes
  pub user : Option Bytes
  pub host : Bytes
  pub path : Bytes
  pub fragment : Bytes
  pub raw_fragment : Bytes
  pub rest : Bytes

pub record Platform : Type 0 where
  pub unicode : Unicode
  pub sha3_256 : Bytes → Bytes
  pub url_parse : Bytes → Option Url
  pub url_string : Url → Bytes
  pub url_hostname : Url → Bytes
  pub split_host_port : Bytes → Option (Bytes × Bytes)
