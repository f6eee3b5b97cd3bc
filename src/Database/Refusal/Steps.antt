-- ===== src/Database/Refusal/Steps.antt =====
-- The statements that find a row by its key, and every sequence of statements together.
use go_dark_web_crawler.Common.{
  ℕ, ◌≡◌, refl, subst, ◌==◌, Bool, true, false, ◌||◌, some, List, [], ◌∷◌, arith, All, Bool-cases,
  Option-cases, inl, inr, keep, All-take, All-keep_passed, All-weaken,
}
use go_dark_web_crawler.Common.Text.{Bytes}
use go_dark_web_crawler.Database.Store.{
  crawling, failed, blocked, is, Node, Store, find_row, update_where,
}
use go_dark_web_crawler.Database.Queue.{is_due, goes_before, first_due, get_next_pending_node}
use go_dark_web_crawler.Database.Retry.{
  requeue_check, requeue_write, requeue_for_crawl, revived, is_stale_failure, revive_failed_nodes,
}
use go_dark_web_crawler.Database.Rows.{All-update_where_each}
use go_dark_web_crawler.Database.Keys.{
  UniqueKeys, IsStored, UniqueKeys-IsStored, stored_same, find_row-stored, among-picked,
  All-sort_by_time, All-IsStored,
}
use go_dark_web_crawler.Database.Refusal.{is_refused, Refused, same_host-refused}

-- An update that turns only stored rows, none of them 'blocked', and keeps the host.
update_stored-Refused :
    (bl : List Bytes) (p : Node → Bool) (f : Node → Node) (ns : List Node)
    → UniqueKeys ns
    → ((n : Node) → IsStored ns n → p n ≡ true → is n.status blocked ≡ false)
    → ((n : Node) → (f n).host ≡ n.host)
    → All (λ n. is_refused bl n ≡ true) ns
    → All (λ n. is_refused bl n ≡ true) (update_where p f ns)
update_stored-Refused bl p f ns u out same h =
    let both = All-IsStored (λ n. is_refused bl n ≡ true) ns ns (UniqueKeys-IsStored ns u) h in
    All-update_where_each (λ n. IsStored ns n × (is_refused bl n ≡ true))
      (λ n. is_refused bl n ≡ true) p f ns
      (λ n k. elim (Bool-cases (p n)) [
        | inl t ↦ rw t (same_host-refused bl n (f n) (same n) (out n k.0 t) k.1)
        | inr t ↦ rw t k.1
      ])
      both

due-open : (now : ℕ) (n : Node) → is_due now n ≡ true → is n.status blocked ≡ false
unfolding is
due-open now n h = ground arith

-- The row that the query picks is a row of the table that is due.
pub first_due-picked {ℓ} :
    (P : Node → Type ℓ) (all : List Node) (now : ℕ) (ns : List Node) (n : Node)
    → All P ns
    → first_due all now ns ≡ some n
    → P n × (is_due now n ≡ true)
unfolding first_due
first_due-picked P all now [] n h e = absurd (cc e)
first_due-picked P all now (m ∷ ms) n h e = elim (Bool-cases (is_due now m)) [
  | inr not_due ↦ first_due-picked P all now ms n h.1 (rw not_due at e)
  | inl due ↦ elim (Option-cases (first_due all now ms)) [
    | inl gone ↦
        let here : m ≡ n = cc (rw (due, gone) at e) in
        subst (λ x. P x × (is_due now x ≡ true)) here (h.0, due)
    | inr (k, found) ↦ elim (Bool-cases (goes_before all k m)) [
      | inl first ↦
          let there : k ≡ n = cc (rw (due, found, first) at e) in
          subst (λ x. P x × (is_due now x ≡ true)) there (first_due-picked P all now ms k h.1 found)
      | inr after ↦
          let here : m ≡ n = cc (rw (due, found, after) at e) in
          subst (λ x. P x × (is_due now x ≡ true)) here (h.0, due)
    ]
  ]
]

pub get_next_pending_node-Refused :
    (s : Store) (now : ℕ) → UniqueKeys s.nodes → Refused s → Refused (get_next_pending_node s now).0
unfolding Refused get_next_pending_node
get_next_pending_node-Refused s now u h = elim (Option-cases (first_due s.nodes now s.nodes)) [
  | inl e ↦ rw (e, get_next_pending_node) h
  | inr (n, e) ↦
      let picked =
        first_due-picked (IsStored s.nodes) s.nodes now s.nodes n (UniqueKeys-IsStored s.nodes u)
          e in
      rw (e, get_next_pending_node)
        (update_stored-Refused s.blacklist _ _ s.nodes u
          (λ m stored t.
            let same = stored_same s.nodes n m picked.0 stored t in
            rw same (due-open now n picked.1))
          (λ m. refl) h)
]

pub requeue_for_crawl-Refused :
    (s : Store) (now : ℕ) (url : Bytes) (user : ℕ)
    → UniqueKeys s.nodes
    → Refused s
    → Refused (requeue_for_crawl s now url user).0
unfolding Refused requeue_for_crawl requeue_write requeue_check
requeue_for_crawl-Refused s now url user u h = elim (Option-cases (find_row url user s.nodes)) [
  | inl e ↦ rw (e, requeue_check) h
  | inr (n, e) ↦ elim (Bool-cases (is n.status crawling || is n.status blocked)) [
    | inl busy ↦ rw (e, busy, requeue_check) h
    | inr free ↦
        rw (e, free, requeue_check)
          (update_stored-Refused s.blacklist _ _ s.nodes u
            (λ m stored t. ground (arith, find_row-stored url user s.nodes n m e stored t))
            (λ m. refl) h)
  ]
]

failed-open : (n : Node) → is n.status failed ≡ true → is n.status blocked ≡ false
unfolding is
failed-open n h = ground arith

stale-failed :
    (now older_than : ℕ) (n : Node)
    → is_stale_failure now older_than n ≡ true
    → is n.status failed ≡ true
unfolding is_stale_failure
stale-failed now older_than n h = ground arith

-- The rows of the sweep's subquery are stored, and failed.
stale-picked :
    (now older_than : ℕ) (ns ms : List Node)
    → All (IsStored ns) ms
    → All
        (λ m. IsStored ns m × (is m.status failed ≡ true))
        (keep (is_stale_failure now older_than) ms)
stale-picked now older_than ns ms h =
    All-weaken _ _ _ (λ m k. (k.0, stale-failed now older_than m k.1))
      (All-keep_passed (IsStored ns) (is_stale_failure now older_than) ms h)

pub revive_failed_nodes-Refused :
    (s : Store) (now older_than limit : ℕ)
    → UniqueKeys s.nodes
    → Refused s
    → Refused (revive_failed_nodes s now older_than limit)
unfolding Refused revive_failed_nodes revived
revive_failed_nodes-Refused s now older_than limit u h = elim (Bool-cases (limit == 0)) [
  | inl e ↦ rw e h
  | inr e ↦ rw e (
      update_stored-Refused s.blacklist _ _ s.nodes u
        (λ n stored t. failed-open n (
          among-picked (λ m. is m.status failed) s.nodes _ n
            (All-take _ limit _ (
              All-sort_by_time _ _
                (stale-picked now older_than s.nodes s.nodes (UniqueKeys-IsStored s.nodes u))))
            stored t))
        (λ n. refl) h)
]
