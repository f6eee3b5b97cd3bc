-- ===== src/Database/Gaps.antt =====
-- Where the blacklist does not hold: two statements of `RequeueForCrawl` with `AddBlacklist` between them,
-- and a row that `SaveNode` brings without a host.
use go_dark_web_crawler.Common.{
  ℕ, ◌≡◌, refl, Bool, true, not, ◌&&◌, none, some, [], ◌∷◌, ◌++◌, arith, Bool-cases, inl, inr,
}
use go_dark_web_crawler.Common.Text.{Bytes, bytes_eq_iff}
use go_dark_web_crawler.Database.Store.{
  pending, blocked, is, Node, Store, has_key, find_row, blacklisted, on_host, new_row,
}
use go_dark_web_crawler.Database.Refusal.{blacklisted-append}
use go_dark_web_crawler.Database.Keys.{find_row-head}
use go_dark_web_crawler.Database.Rows.{find_row-append, find_row-update_where, find_row-key}
use go_dark_web_crawler.Database.Retry.{requeue_check, requeue_write}
use go_dark_web_crawler.Database.Blacklist.{
  Page, content_hash_of, kept_text, rewritten, block_domain, save_page,
}

ban_row :
    (s : Store) (host : Bytes) (url : Bytes) (user : ℕ) (n : Node)
    → find_row url user s.nodes ≡ some n
    → n.host ≡ some host
    → (m : Node) × ((find_row url user (block_domain s host).nodes ≡ some m) × (m.host ≡ some host))
unfolding block_domain
ban_row s host url user n e on =
    let ban : Node → Node = λ r. record r { status = blocked } in
    elim (Bool-cases (on_host host n && not (is n.status blocked))) [
      | inl hit ↦ (
        ban n,
        (rw (find_row-update_where _ ban url user s.nodes (λ r. (refl, refl)), e, hit) refl, on),
      )
      | inr miss ↦ (
        n,
        (rw (find_row-update_where _ ban url user s.nodes (λ r. (refl, refl)), e, miss) refl, on),
      )
    ]

ban_lists : (s : Store) (host : Bytes) → blacklisted host (block_domain s host).blacklist ≡ true
unfolding block_domain
ban_lists s host = ground (arith, blacklisted-append host host s.blacklist, bytes_eq_iff host host)

-- A row is fit for a new crawl when `RequeueForCrawl` looks at it; an administrator bans its host; the
-- request then writes. The row is pending, on a host of the blacklist.
pub requeue_after_ban :
    (s : Store) (now : ℕ) (url host : Bytes) (user : ℕ) (n : Node)
    → find_row url user s.nodes ≡ some n
    → n.host ≡ some host
    → (requeue_check s url user).can_requeue ≡ true
    → (m : Node) × ((find_row url user (requeue_write (block_domain s host) now url user).nodes
          ≡ some m)
        × ((m.host ≡ some host)
            × ((m.status ≡ pending)
                × (blacklisted host (requeue_write (block_domain s host) now url user).blacklist
                    ≡ true))))
unfolding requeue_write
requeue_after_ban s now url host user n e on can =
    let banned = ban_row s host url user n e on in
    let m = banned.0 in
    let key = find_row-key url user (block_domain s host).nodes m banned.1.0 in
    (
      record m { status = pending; next_crawl_at = now },
      (
        rw
            (
              find_row-update_where (has_key url user)
                  (λ r. record r { status = pending; next_crawl_at = now }) url user
                  (block_domain s host).nodes (λ r. (refl, refl)),
              banned.1.0,
              key,
            )
            refl,
        (banned.1.1, (refl, ban_lists s host)),
      ),
    )

-- Where the account stands and its row is gone when the page is saved, the row that `SaveNode` brings has no
-- host, and no ban reaches it.
pub ban_misses_saved :
    (sha256 : Bytes → Bytes) (s : Store) (now : ℕ) (url : Bytes) (page : Page) (keeps : Bool)
    (user : ℕ) (domain : Bytes)
    → find_row url user s.nodes ≡ none
    → (m : Node) × ((find_row url user
            (block_domain (save_page sha256 s now url page (some keeps) user).0 domain).nodes
          ≡ some m)
        × ((m.host ≡ none) × (m.status ≡ page.page_status)))
unfolding save_page block_domain rewritten new_row on_host
ban_misses_saved sha256 s now url page keeps user domain e =
    let n =
      rewritten now page (kept_text (some keeps) page.page_content)
        (content_hash_of sha256 page.page_title page.page_content) (new_row url none 0 user now) in
    (
      n,
      (
        rw
            (
              e,
              save_page,
              find_row-update_where (λ r. on_host domain r && not (is r.status blocked))
                  (λ r. record r { status = blocked }) url user (s.nodes ++ n ∷ [])
                  (λ r. (refl, refl)),
              find_row-append url user s.nodes (n ∷ []),
              e,
              find_row-head n [],
            )
            refl,
        (refl, refl),
      ),
    )
