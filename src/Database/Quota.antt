-- ===== src/Database/Quota.antt =====
-- `EnqueueURL`: the blacklist, the quota of pending rows and the row that is brought.
use go_dark_web_crawler.Common.{
  ℕ, ◌+◌, ◌≤◌, ◌<◌, ◌≡◌, refl, Bool, true, false, ◌&&◌, none, some, List, [], ◌∷◌, ◌++◌, arith,
  ◌==◌, Bool-cases, Option-cases, if◌then◌else◌, inl, inr, ltb, leb,
}
use go_dark_web_crawler.Common.Text.{Bytes, bytes_eq_iff}
use go_dark_web_crawler.Database.Store.{
  Node, Store, has_key, find_row, count_where, blacklisted, new_row,
}
use go_dark_web_crawler.Database.Queue.{ok, counts_as_pending, count_pending, insert_new, enqueue}

count_where-append :
    (p : Node → Bool) (ns : List Node) (n : Node)
    → count_where p (ns ++ n ∷ []) ≡ count_where p ns + (if p n then 1 else 0)
unfolding count_where
count_where-append p [] n = omega arith
count_where-append p (m ∷ ns) n = omega (arith, count_where-append p ns n)

-- An account that is within its quota of pending rows stays within it.
enqueue_within_quota :
    (s : Store) (now : ℕ) (url host : Bytes) (depth user max_pending : ℕ)
    → 0 < max_pending
    → count_pending user s.nodes ≤ max_pending
    → count_pending user (enqueue s now url host depth user max_pending).0.nodes ≤ max_pending
unfolding enqueue insert_new count_pending
enqueue_within_quota s now url host depth user max_pending pos within = ground (
  arith,
  count_where-append (counts_as_pending user) s.nodes (new_row url (some host) depth user now),
)

-- An enqueued row of one account changes the count of no other.
pub enqueue_other_quota :
    (s : Store) (now : ℕ) (url host : Bytes) (depth user other max_pending : ℕ)
    → (other == user) ≡ false
    → count_pending other (enqueue s now url host depth user max_pending).0.nodes
      ≡ count_pending other s.nodes
unfolding enqueue insert_new count_pending new_row
enqueue_other_quota s now url host depth user other max_pending differs = ground (
  arith,
  count_where-append (counts_as_pending other) s.nodes (new_row url (some host) depth user now),
)

same_key :
    (url : Bytes) (user : ℕ) (n m : Node) (ns : List Node)
    → find_row url user ns ≡ none
    → find_row n.url n.user_id ns ≡ some m
    → has_key url user n ≡ true
    → ⊥
same_key url user n m ns e there same = ground (arith, bytes_eq_iff n.url url)

appended :
    (url : Bytes) (user : ℕ) (n : Node) (ns : List Node)
    → find_row url user (ns ++ n ∷ []) ≡ elim (find_row url user ns) [
      | some m ↦ some m
      | none ↦ if has_key url user n then some n else none
    ]
unfolding find_row
appended url user n [] = refl
appended url user n (m ∷ ns) = ground (arith, appended url user n ns)

-- The row under each key after an insertion that lets a row that stands there alone.
insert_row :
    (url : Bytes) (user : ℕ) (n : Node) (ns : List Node)
    → find_row url user (insert_new n ns) ≡ elim (find_row url user ns) [
      | some m ↦ some m
      | none ↦ if has_key url user n then some n else none
    ]
unfolding insert_new
insert_row url user n ns = elim (Option-cases (find_row n.url n.user_id ns)) [
  | inl gone ↦ rw (gone, insert_new) (appended url user n ns)
  | inr (m, there) ↦
      rw (there, insert_new)
        (elim (Option-cases (find_row url user ns)) [
          | inr (k, found) ↦ rw found refl
          | inl e ↦ elim (Bool-cases (has_key url user n)) [
            | inr other ↦ rw (e, other) refl
            | inl same ↦ absurd (same_key url user n m ns e there same)
          ]
        ])
]

-- When `EnqueueURL` succeeds, the domain is not blacklisted, the quota had room, the account has the row,
-- and no row that was there is changed.
pub enqueue_brings :
    (s : Store) (now : ℕ) (url host : Bytes) (depth user max_pending : ℕ) (url' : Bytes) (user' : ℕ)
    → (enqueue s now url host depth user max_pending).1 ≡ ok tt
    → (blacklisted host s.blacklist ≡ false)
      × ((0 < max_pending → count_pending user s.nodes < max_pending)
          × (find_row url' user' (enqueue s now url host depth user max_pending).0.nodes
              ≡ elim (find_row url' user' s.nodes) [
                | some m ↦ some m
                | none ↦
                    if has_key url' user' (new_row url (some host) depth user now)
                    then some (new_row url (some host) depth user now)
                    else none
              ]))
unfolding enqueue
enqueue_brings s now url host depth user max_pending url' user' done =
    elim (Bool-cases (blacklisted host s.blacklist)) [
      | inl listed ↦ absurd (cc (rw (listed, enqueue) at done))
      | inr free ↦
          elim (Bool-cases (ltb 0 max_pending && leb max_pending (count_pending user s.nodes))) [
            | inl full ↦ absurd (cc (rw (free, full, enqueue) at done))
            | inr room ↦ (
              free,
              (
                λ pos. ground arith,
                rw (free, room, enqueue)
                    (insert_row url' user' (new_row url (some host) depth user now) s.nodes),
              ),
            )
          ]
    ]
