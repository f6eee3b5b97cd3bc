-- ===== src/Database/Failures.antt =====
-- `FailNodeWithRetry` and `SaveNode` on one row: the backoff, and when a row is given up.
use go_dark_web_crawler.Common.{
  ℕ, zero, suc, ◌+◌, ◌-◌, ◌*◌, ◌^◌, ◌≤◌, ◌<◌, ◌≡◌, refl, subst, Bool, true, false, Option, some,
  List, [], ◌∷◌, arith, Bool-cases, if◌then◌else◌, inl, inr, leb,
}
use native.Mathlib.Omega.{pow_step}
use go_dark_web_crawler.Common.Text.{Bytes}
use go_dark_web_crawler.Database.Store.{
  pending, completed, failed, blocked, is, Node, Store, minute, hour, find_row,
}
use go_dark_web_crawler.Database.Rows.{find_row-update_where, find_row-key}
use go_dark_web_crawler.Database.Retry.{backoff, not_blocked, retried, fail_node_with_retry}
use go_dark_web_crawler.Database.Blacklist.{
  Page, rewritten, revisited, content_hash_of, same_digest, kept_text, open_row, save_page,
}

pow_two_mono : (a b : ℕ) → 2 ^ a ≤ 2 ^ (a + b)
pow_two_mono a zero = let e : a + zero ≡ a = omega arith in rw e (omega arith)
pow_two_mono a (suc b) =
    let e : a + suc b ≡ suc (a + b) = omega arith in
    rw (e, pow_step 2 (a + b)) (omega (arith, pow_two_mono a b))

pow_two_le : (a b : ℕ) → a ≤ b → 2 ^ a ≤ 2 ^ b
pow_two_le a b h =
    let e : a + (b - a) ≡ b = omega arith in subst (λ x. 2 ^ a ≤ 2 ^ x) e (pow_two_mono a (b - a))

-- The delay is ten minutes at first, doubles with each of the first eight failures that follow, and is
-- 48 hours from there on.
backoff_doubles :
    (r : ℕ)
    → (backoff 0 ≡ 10 * minute)
      × ((r < 8 → backoff (suc r) ≡ 2 * backoff r) × (8 < r → backoff r ≡ 48 * hour))
unfolding backoff
backoff_doubles r = (
  refl,
  (
    λ h. rw (pow_step 2 r) (omega (arith, pow_two_le (suc r) 8, pow_step 2 r)),
    λ h. omega (arith, pow_two_le 9 r),
  ),
)

backoff_bounds : (r : ℕ) → (10 * minute ≤ backoff r) × (backoff r ≤ 48 * hour)
unfolding backoff
backoff_bounds r = (omega (arith, pow_two_le 0 r), omega arith)

-- What happens to a row between its claim and the next: the page is fetched, or the crawl fails.
pub data Outcome : Type 0 where
  fetched : Page → Option Bool → Outcome
  unreachable : Outcome

-- The worker's statements for a run of outcomes, each with its time. The worker saves with status
-- 'completed'.
unfoldable pub settle : (Bytes → Bytes) → Store → Bytes → ℕ → List (ℕ × Outcome) → Store
settle sha256 s url user [] = s
settle sha256 s url user ((now, fetched page keep_content) ∷ os) =
    let page' = record page { page_status = completed } in
    settle sha256 (save_page sha256 s now url page' keep_content user).0 url user os
settle sha256 s url user ((now, unreachable) ∷ os) =
    settle sha256 (fail_node_with_retry s now url user) url user os

unfoldable pub failures : List (ℕ × Outcome) → ℕ
failures [] = 0
failures ((now, fetched page keep_content) ∷ os) = failures os
failures ((now, unreachable) ∷ os) = suc (failures os)

completed_open : Unit {0} → is completed blocked ≡ false
unfolding is
completed_open x = refl

retried_open : (now : ℕ) (n : Node) → is (retried now n).status blocked ≡ false
unfolding retried is
retried_open now n = ground arith

retried_count :
    (now : ℕ) (n m : Node) (os : List (ℕ × Outcome))
    → m.retry_count ≡ (retried now n).retry_count + failures os
    → m.retry_count ≡ n.retry_count + suc (failures os)
unfolding retried
retried_count now n m os h = omega arith

fail_row :
    (s : Store) (now : ℕ) (url : Bytes) (user : ℕ) (n : Node)
    → find_row url user s.nodes ≡ some n
    → is n.status blocked ≡ false
    → find_row url user (fail_node_with_retry s now url user).nodes ≡ some (retried now n)
unfolding fail_node_with_retry retried
fail_row s now url user n e out =
    rw
      (
        find_row-update_where (not_blocked url user) (retried now) url user s.nodes
            (λ r. (refl, refl)),
        e,
      )
      (let key = find_row-key url user s.nodes n e in
        let open_here : not_blocked url user n ≡ true = ground arith in rw open_here refl)

save_row :
    (sha256 : Bytes → Bytes) (s : Store) (now : ℕ) (url : Bytes) (page : Page)
    (keep_content : Option Bool) (user : ℕ) (n : Node)
    → find_row url user s.nodes ≡ some n
    → is n.status blocked ≡ false
    → is page.page_status blocked ≡ false
    → (m : Node) × ((find_row url user (save_page sha256 s now url page keep_content user).0.nodes
          ≡ some m)
        × ((m.retry_count ≡ n.retry_count) × (is m.status blocked ≡ false)))
unfolding save_page rewritten revisited
save_row sha256 s now url page keep_content user n e out fine =
    let key = find_row-key url user s.nodes n e in
    let open_here : open_row url user n ≡ true = ground arith in
    let digest = content_hash_of sha256 page.page_title page.page_content in
    let kept = kept_text keep_content page.page_content in
    elim (Bool-cases (same_digest n.content_hash digest)) [
      | inl same ↦
          rw (e, same, save_page)
            (
              revisited now page n,
              (
                rw
                    (
                      find_row-update_where (open_row url user) (revisited now page) url user
                          s.nodes (λ r. (refl, refl)),
                      e,
                      open_here,
                    )
                    refl,
                (refl, fine),
              ),
            )
      | inr other ↦
          rw (e, other, save_page)
            (
              rewritten now page kept digest n,
              (
                rw
                    (
                      find_row-update_where (open_row url user) (rewritten now page kept digest) url
                          user s.nodes (λ r. (refl, refl)),
                      e,
                      open_here,
                    )
                    refl,
                (refl, fine),
              ),
            )
    ]

-- Over any sequence of saved pages and failed crawls of a row that is not 'blocked', with no other
-- operation on it in between, each failure adds one to the retry count and a saved page leaves it: a
-- page that is fetched in between does not start the count again.
pub settle_counts :
    (sha256 : Bytes → Bytes) (s : Store) (url : Bytes) (user : ℕ) (os : List (ℕ × Outcome))
    (n : Node)
    → find_row url user s.nodes ≡ some n
    → is n.status blocked ≡ false
    → (m : Node) × ((find_row url user (settle sha256 s url user os).nodes ≡ some m)
        × ((m.retry_count ≡ n.retry_count + failures os) × (is m.status blocked ≡ false)))
unfolding settle failures
settle_counts sha256 s url user [] n e out = (n, (e, (omega arith, out)))
settle_counts sha256 s url user ((now, fetched page keep_content) ∷ os) n e out =
    let page' = record page { page_status = completed } in
    let (k, (there, (same, fine))) =
      save_row sha256 s now url page' keep_content user n e out (completed_open tt) in
    let (m, (found, (count, still))) =
      settle_counts sha256 (save_page sha256 s now url page' keep_content user).0 url user os k
        there fine in
    (m, (found, (omega arith, still)))
settle_counts sha256 s url user ((now, unreachable) ∷ os) n e out =
    let k = retried now n in
    let (m, (found, (count, still))) =
      settle_counts sha256 (fail_node_with_retry s now url user) url user os k
        (fail_row s now url user n e out) (retried_open now n) in
    (m, (found, (retried_count now n m os count, still)))

-- After any such sequence a further failure leaves the row 'failed' exactly when its retry count
-- reaches five, and due between ten minutes and 48 hours later.
gives_up :
    (sha256 : Bytes → Bytes) (s : Store) (url : Bytes) (user : ℕ) (os : List (ℕ × Outcome))
    (now : ℕ) (n : Node)
    → find_row url user s.nodes ≡ some n
    → is n.status blocked ≡ false
    → (m : Node) × ((find_row url user
            (fail_node_with_retry (settle sha256 s url user os) now url user).nodes
          ≡ some m)
        × ((m.status ≡ (if leb 5 (n.retry_count + suc (failures os)) then failed else pending))
            × ((now + 10 * minute ≤ m.next_crawl_at) × (m.next_crawl_at ≤ now + 48 * hour))))
unfolding retried
gives_up sha256 s url user os now n e out =
    let (k, (found, (count, still))) = settle_counts sha256 s url user os n e out in
    (
      retried now k,
      (
        fail_row (settle sha256 s url user os) now url user k found still,
        (
          ground (arith, count),
          (
            omega (arith, backoff_bounds k.retry_count),
            omega (arith, backoff_bounds k.retry_count),
          ),
        ),
      ),
    )
