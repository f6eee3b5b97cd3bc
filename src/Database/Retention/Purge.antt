-- ===== src/Database/Retention/Purge.antt =====
-- The stored text of a page after a purge, and after a change of the preference.
use go_dark_web_crawler.Common.{
  ℕ, ◌≡◌, ◌∙◌, [], refl, Bool, true, false, Option, none, some, arith, Bool-cases, inl, inr,
  if◌then◌else◌,
}
use go_dark_web_crawler.Common.Text.{Bytes, bytes_eq, bytes_eq_refl}
use go_dark_web_crawler.Database.Store.{blocked, is, Node, Store, find_row}
use go_dark_web_crawler.Database.Rows.{find_row-update_where, find_row-key}
use go_dark_web_crawler.Database.Blacklist.{
  Page, rewritten, revisited, content_hash_of, same_digest, kept_text, open_row, save_page,
}
use go_dark_web_crawler.Database.Retention.{has_content, without_content, purge_stored_content}

-- The text under a key.
abbrev pub text_of : Bytes → ℕ → Store → Option Bytes
text_of url user s = elim (find_row url user s.nodes) [ none ↦ none | some n ↦ some n.content ]

module _ (sha256 : Bytes → Bytes) (s : Store) (now : ℕ) (url : Bytes) (page : Page) (user : ℕ) where
  -- A page whose digest is new to its row is written with its text.
  saved_new :
      (keep_content : Option Bool) (n : Node)
      → find_row url user s.nodes ≡ some n
      → is n.status blocked ≡ false
      → same_digest n.content_hash (content_hash_of sha256 page.page_title page.page_content)
        ≡ false
      → text_of url user (save_page sha256 s now url page keep_content user).0
        ≡ some (kept_text keep_content page.page_content)
  unfolding save_page rewritten
  saved_new keep_content n e fine other =
      let key = find_row-key url user s.nodes n e in
      let open_here : open_row url user n ≡ true = ground arith in
      let digest = content_hash_of sha256 page.page_title page.page_content in
      rw (e, other, save_page)
        (rw
          (
            text_of,
            find_row-update_where (open_row url user)
                (rewritten now page (kept_text keep_content page.page_content) digest) url user
                s.nodes (λ r. (refl, refl)),
          )
          (rw e (rw open_here refl)))

  -- A page whose digest stands in its row leaves the text.
  saved_same :
      (keep_content : Option Bool) (n : Node)
      → find_row url user s.nodes ≡ some n
      → same_digest n.content_hash (content_hash_of sha256 page.page_title page.page_content) ≡ true
      → text_of url user (save_page sha256 s now url page keep_content user).0 ≡ some n.content
  unfolding save_page revisited
  saved_same keep_content n e same =
      rw (e, same, save_page)
        (rw
          (
            text_of,
            find_row-update_where (open_row url user) (revisited now page) url user s.nodes
                (λ r. (refl, refl)),
          )
          (rw e
            (elim (Bool-cases (open_row url user n)) [ inl f ↦ rw f refl | inr f ↦ rw f refl ])))

  -- The row that a page with a new digest leaves.
  saved_row :
      (keep_content : Option Bool) (n : Node)
      → find_row url user s.nodes ≡ some n
      → is n.status blocked ≡ false
      → same_digest n.content_hash (content_hash_of sha256 page.page_title page.page_content)
        ≡ false
      → find_row url user (save_page sha256 s now url page keep_content user).0.nodes
        ≡ some (
            rewritten now page
              (kept_text keep_content page.page_content)
              (content_hash_of sha256 page.page_title page.page_content)
              n)
  unfolding save_page rewritten
  saved_row keep_content n e fine other =
      let key = find_row-key url user s.nodes n e in
      let open_here : open_row url user n ≡ true = ground arith in
      let digest = content_hash_of sha256 page.page_title page.page_content in
      rw (e, other, save_page)
        (rw
          (find_row-update_where (open_row url user)
            (rewritten now page (kept_text keep_content page.page_content) digest) url user s.nodes
            (λ r. (refl, refl)))
          (rw e (rw open_here refl)))

abbrev pub purged : Store → ℕ → Store
purged s user = record s { nodes = (purge_stored_content s.nodes user).0 }

purged_row :
    (s : Store) (url : Bytes) (user : ℕ) (n : Node)
    → find_row url user s.nodes ≡ some n
    → find_row url user (purged s user).nodes
      ≡ some (if has_content user n then without_content n else n)
unfolding purge_stored_content
purged_row s url user n e =
    rw
      (find_row-update_where (has_content user) without_content url user s.nodes
        (λ r. (refl, refl)))
      (rw e refl)

no_content : (n : Node) (user : ℕ) → n.content ≡ [] → has_content user n ≡ false
no_content n user e = simp (e, bytes_eq_refl []) (ground arith)

-- After an account has purged its stored text, the next crawl of a page that it held writes the text anew as
-- the preference says, even if the page has not changed at all.
purge_then_crawl :
    (sha256 : Bytes → Bytes) (s : Store) (now : ℕ) (url : Bytes) (page : Page)
    (keep_content : Option Bool) (user : ℕ) (n : Node)
    → find_row url user s.nodes ≡ some n
    → is n.status blocked ≡ false
    → bytes_eq n.content [] ≡ false
    → text_of url user (save_page sha256 (purged s user) now url page keep_content user).0
      ≡ some (kept_text keep_content page.page_content)
unfolding same_digest
purge_then_crawl sha256 s now url page keep_content user n e fine filled =
    let key = find_row-key url user s.nodes n e in
    let holds : has_content user n ≡ true = ground arith in
    saved_new sha256 (purged s user) now url page user keep_content (without_content n)
      (purged_row s url user n e ∙ rw holds refl) fine refl

-- A page that was crawled while the account stored no text stays without its text: after the account has
-- turned storage on again, a purge and a new crawl of the unchanged page leave the row empty.
pub storage_off_sticks :
    (sha256 : Bytes → Bytes) (s : Store) (now later : ℕ) (url : Bytes) (page : Page) (user : ℕ)
    (n : Node)
    → find_row url user s.nodes ≡ some n
    → is n.status blocked ≡ false
    → same_digest n.content_hash (content_hash_of sha256 page.page_title page.page_content) ≡ false
    → let crawled = (save_page sha256 s now url page (some false) user).0 in
      text_of url user (save_page sha256 (purged crawled user) later url page (some true) user).0
      ≡ some []
unfolding kept_text rewritten same_digest
storage_off_sticks sha256 s now later url page user n e fine other =
    let crawled = (save_page sha256 s now url page (some false) user).0 in
    let digest = content_hash_of sha256 page.page_title page.page_content in
    let m : Node = rewritten now page [] digest n in
    saved_same sha256 (purged crawled user) later url page user (some true) m
      (purged_row crawled url user m
          (saved_row sha256 s now url page user (some false) n e fine other)
        ∙ rw (no_content m user refl) refl)
      (bytes_eq_refl digest)
