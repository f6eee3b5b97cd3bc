-- ===== src/Proxy/Client.antt =====
-- backend/internal/proxy/client.go: one circuit for each host, and where a redirect may lead.
use go_dark_web_crawler.Common.{
  ◌≡◌, ap, ◌↔◌, true, List, [], ◌∷◌, arith, leb, length, take, All, All-take, length-take,
  if◌then◌else◌,
}
use go_dark_web_crawler.Common.Text.{Bytes, Unicode, to_lower, equal_fold}
use go_dark_web_crawler.Common.Hex.{hex, IsByte, is_hex, length-hex, hex-is_hex, hex_injective}
use go_dark_web_crawler.Common.Platform.{Platform, Url}
use go_dark_web_crawler.Onion.{is_v3_url}

-- `isolationCredential`: SHA-256 is a parameter.
unfoldable pub isolation_credential : Unicode → (Bytes → Bytes) → Bytes → Bytes
isolation_credential u sha256 host = hex (take 16 (sha256 (to_lower u host)))

-- SHA-256 gives 32 bytes.
abbrev pub IsSha256 : (Bytes → Bytes) → Type 0
IsSha256 sha256 = (s : Bytes) → (length (sha256 s) ≡ 32) × All IsByte (sha256 s)

-- A credential has 32 characters, all of them hexadecimal digits, whatever the host is: it fits the
-- 255 bytes of a SOCKS5 field.
pub isolation_credential_fits :
    (u : Unicode) (sha256 : Bytes → Bytes)
    → IsSha256 sha256
    → (host : Bytes)
    → (length (isolation_credential u sha256 host) ≡ 32)
      × All (λ c. is_hex c ≡ true) (isolation_credential u sha256 host)
unfolding isolation_credential
isolation_credential_fits u sha256 law host =
    let digest = sha256 (to_lower u host) in
    let (size, bytes) = law (to_lower u host) in
    (
      omega (arith, length-hex (take 16 digest), length-take 16 digest, size),
      hex-is_hex (take 16 digest) (All-take IsByte 16 digest bytes),
    )

-- Two hosts share a credential, and so a circuit, exactly when the first 16 bytes of the digests of
-- their lower case forms agree.
pub isolation_credential_iff :
    (u : Unicode) (sha256 : Bytes → Bytes)
    → IsSha256 sha256
    → (a b : Bytes)
    → (isolation_credential u sha256 a ≡ isolation_credential u sha256 b)
      ↔ (take 16 (sha256 (to_lower u a)) ≡ take 16 (sha256 (to_lower u b)))
unfolding isolation_credential
isolation_credential_iff u sha256 law a b = (
  hex_injective _ _ (All-take IsByte 16 (sha256 (to_lower u a)) (law (to_lower u a)).1)
      (All-take IsByte 16 (sha256 (to_lower u b)) (law (to_lower u b)).1),
  ap hex,
)

pub data Redirect : Type 0 where
  follow too_many clearnet_blocked other_domain_blocked : Redirect

-- The part of `CheckRedirect` that looks at the first request of the chain.
same_host : Platform → Url → List Url → Redirect
same_host p url [] = other_domain_blocked
same_host p url (first ∷ _) =
    if equal_fold p.unicode (p.url_hostname url) (p.url_hostname first)
    then follow
    else other_domain_blocked

-- `CheckRedirect`: `via` holds the requests made so far, the first one first. `net/http` calls it
-- with at least one; on none `via[0]` would panic, and the model refuses.
unfoldable pub check_redirect : Platform → Url → List Url → Redirect
unfolding same_host
check_redirect p url via =
    if leb 3 (length via)
    then too_many
    else if is_v3_url p (p.url_string url)
    then same_host p url via
    else clearnet_blocked
