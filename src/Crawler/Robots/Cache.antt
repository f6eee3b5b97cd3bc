-- ===== src/Crawler/Robots/Cache.antt =====
-- The cache of robots.txt: how long it serves an entry, and how many it keeps.
use go_dark_web_crawler.Common.{
  ℕ, ◌+◌, ◌-◌, ◌≤◌, ◌<◌, ◌≡◌, refl, false, Option, none, some, List, [], ◌∷◌, ltb, leb, length, All,
  arith, Bool-cases, Option-cases, inl, inr, ◌⊎◌, if◌then◌else◌,
}
use go_dark_web_crawler.Common.Text.{Bytes, bytes_eq, bytes_eq_refl}
use go_dark_web_crawler.Common.Table.{
  lookup, assign, delete, lookup-assign, length-assign-le, length-delete-le, length-delete-lt,
  All-assign,
}
use go_dark_web_crawler.Crawler.Robots.{
  Entry, RobotsCache, Reader, fetch_robots, oldest, evict_oldest, cached, obtain,
}

-- No entry stands under the empty host: a URL of the crawl has one.
abbrev pub IsNamed : List (Bytes × Entry) → Type 0
IsNamed m = All (λ x. bytes_eq x.0 [] ≡ false) m

stored_cons :
    (key k : Bytes) (v : Entry) (m : List (Bytes × Entry))
    → (key ≡ k) ⊎ ((e : Entry) × (lookup key m ≡ some e))
    → (e : Entry) × (lookup key ((k, v) ∷ m) ≡ some e)
unfolding lookup
stored_cons key k v m h = elim (Bool-cases (bytes_eq k key)) [
  | inl same ↦ (v, rw same refl)
  | inr other ↦ elim h [
    | inl e ↦ absurd (cc (rw (e, bytes_eq_refl k) at other))
    | inr (e, there) ↦ (e, rw other there)
  ]
]

-- A key that the loop holds is kept, or replaced by a key of the map.
oldest-stored :
    (key : Bytes) (time : ℕ) (m : List (Bytes × Entry))
    → bytes_eq key [] ≡ false
    → IsNamed m
    → (bytes_eq (oldest key time m) [] ≡ false)
      × ((oldest key time m ≡ key) ⊎ ((e : Entry) × (lookup (oldest key time m) m ≡ some e)))
unfolding oldest
oldest-stored key time [] start named = (start, inl refl)
oldest-stored key time ((k, v) ∷ m) start named = elim (Bool-cases (ltb v.fetched_at time)) [
  | inl older ↦
      let (full, from) = oldest-stored k v.fetched_at m named.0 named.1 in
      rw (start, older) (full, inr (stored_cons (oldest k v.fetched_at m) k v m from))
  | inr newer ↦
      let (full, from) = oldest-stored key time m start named.1 in
      rw (start, newer)
        (
          full,
          elim from [
            | inl same ↦ inl same
            | inr there ↦ inr (stored_cons (oldest key time m) k v m (inr there))
          ],
        )
]

evict_oldest-shorter :
    (x : Bytes × Entry) (m : List (Bytes × Entry))
    → IsNamed (x ∷ m)
    → length (evict_oldest (x ∷ m)) < length (x ∷ m)
unfolding evict_oldest oldest bytes_eq
evict_oldest-shorter (k, v) m named =
    let (full, from) = oldest-stored k v.fetched_at m named.0 named.1 in
    let (e, there) = stored_cons (oldest k v.fetched_at m) k v m from in
    rw full (length-delete-lt (oldest k v.fetched_at m) e ((k, v) ∷ m) there)

obtain_hit :
    (r : Reader) (c : RobotsCache) (host : Bytes) (answer : Option (List Bytes)) (now later : ℕ)
    (e : Entry)
    → cached c host now ≡ some e
    → obtain r c host answer now later ≡ (c, e)
unfolding obtain
obtain_hit r c host answer now later e hit = rw (hit, obtain) refl

-- The map that the new entry goes into.
room_for : RobotsCache → Bytes → List (Bytes × Entry)
room_for c host =
    let kept : List (Bytes × Entry) = elim (lookup host c.entries) [
      | none ↦ c.entries
      | some e ↦ delete host c.entries
    ] in
    if leb c.max_size (length kept) then evict_oldest kept else kept

obtain_miss :
    (r : Reader) (c : RobotsCache) (host : Bytes) (answer : Option (List Bytes)) (now later : ℕ)
    → cached c host now ≡ none
    → obtain r c host answer now later ≡ (
      record c { entries = assign host (fetch_robots r answer later) (room_for c host) },
      fetch_robots r answer later,
    )
unfolding obtain room_for
obtain_miss r c host answer now later miss = rw (miss, obtain) refl

cached_stored :
    (c : RobotsCache) (host : Bytes) (now : ℕ) (e : Entry)
    → lookup host c.entries ≡ some e
    → now ≤ e.fetched_at + e.ttl
    → cached c host now ≡ some e
unfolding cached
cached_stored c host now e there fresh =
    let young : ltb e.ttl (now - e.fetched_at) ≡ false = ground arith in
    rw (there, young, cached) refl

cached_again :
    (c : RobotsCache) (host : Bytes) (now next : ℕ) (e : Entry)
    → cached c host now ≡ some e
    → next ≤ e.fetched_at + e.ttl
    → cached c host next ≡ some e
unfolding cached
cached_again c host now next e hit fresh = elim (Option-cases (lookup host c.entries)) [
  | inl gone ↦ absurd (cc (rw (gone, cached) at hit))
  | inr (d, there) ↦ elim (Bool-cases (ltb d.ttl (now - d.fetched_at))) [
    | inl old ↦ absurd (cc (rw (there, old, cached) at hit))
    | inr young ↦
        let same : d ≡ e = cc (rw (there, young, cached) at hit) in
        cached_stored c host next e (rw same at there) fresh
  ]
]

-- An entry that is not too old answers again, whatever the site would answer now: no second fetch, and the
-- cache stays as it is.
second_lookup_hits :
    (r : Reader) (c : RobotsCache) (host : Bytes) (answer again : Option (List Bytes))
    (now later next after : ℕ)
    → next
      ≤ (obtain r c host answer now later).1.fetched_at + (obtain r c host answer now later).1.ttl
    → obtain r (obtain r c host answer now later).0 host again next after
      ≡ obtain r c host answer now later
second_lookup_hits r c host answer again now later next after fresh =
    elim (Option-cases (cached c host now)) [
      | inr (e, hit) ↦
          let same = obtain_hit r c host answer now later e hit in
          rw same (
            obtain_hit r c host again next after e
              (cached_again c host now next e hit (rw same at fresh)))
      | inl miss ↦
          let made = obtain_miss r c host answer now later miss in
          rw made (
            obtain_hit r _ host again next after (fetch_robots r answer later) (
              cached_stored _ host next (fetch_robots r answer later)
                (ground (
                  arith,
                  lookup-assign host host (fetch_robots r answer later) (room_for c host),
                  bytes_eq_refl host,
                ))
                (rw made at fresh)))
    ]

All-delete : (k : Bytes) (m : List (Bytes × Entry)) → IsNamed m → IsNamed (delete k m)
unfolding delete
All-delete k [] h = tt
All-delete k ((j, w) ∷ m) h = ground (arith, All-delete k m h.1)

evict_oldest-IsNamed : (m : List (Bytes × Entry)) → IsNamed m → IsNamed (evict_oldest m)
unfolding evict_oldest
evict_oldest-IsNamed m h = elim (Bool-cases (bytes_eq (oldest [] 0 m) [])) [
  | inl e ↦ rw e h
  | inr e ↦ rw e (All-delete _ m h)
]

evicted_length :
    (m : List (Bytes × Entry)) → IsNamed m → 0 < length m → length (evict_oldest m) < length m
evicted_length [] h pos = absurd (omega arith)
evicted_length (x ∷ m) h pos = evict_oldest-shorter x m h

evicted_room :
    (limit : ℕ) (m : List (Bytes × Entry))
    → 0 < limit
    → IsNamed m
    → length m ≤ limit
    → (length (if leb limit (length m) then evict_oldest m else m) < limit)
      × IsNamed (if leb limit (length m) then evict_oldest m else m)
evicted_room limit m pos h fits = elim (Bool-cases (leb limit (length m))) [
  | inr room ↦ rw room (ground arith, h)
  | inl full ↦ rw full (omega (arith, evicted_length m h (ground arith)), evict_oldest-IsNamed m h)
]

room_for-short :
    (c : RobotsCache) (host : Bytes)
    → 0 < c.max_size
    → IsNamed c.entries
    → length c.entries ≤ c.max_size
    → (length (room_for c host) < c.max_size) × IsNamed (room_for c host)
unfolding room_for
room_for-short c host pos h fits = elim (Option-cases (lookup host c.entries)) [
  | inl gone ↦ rw gone (evicted_room c.max_size c.entries pos h fits)
  | inr (e, there) ↦ rw there (
      evicted_room c.max_size (delete host c.entries) pos (All-delete host c.entries h)
        (omega (arith, length-delete-le host c.entries)))
]

-- A cache within its capacity stays within it.
within_capacity :
    (r : Reader) (c : RobotsCache) (host : Bytes) (answer : Option (List Bytes)) (now later : ℕ)
    → 0 < c.max_size
    → bytes_eq host [] ≡ false
    → IsNamed c.entries
    → length c.entries ≤ c.max_size
    → (length (obtain r c host answer now later).0.entries ≤ c.max_size)
      × IsNamed (obtain r c host answer now later).0.entries
within_capacity r c host answer now later some_room named_host named within =
    elim (Option-cases (cached c host now)) [
      | inr (e, hit) ↦ rw (obtain_hit r c host answer now later e hit) (within, named)
      | inl miss ↦
          let (short, clean) = room_for-short c host some_room named within in
          rw (obtain_miss r c host answer now later miss) (
            omega (arith, length-assign-le host (fetch_robots r answer later) (room_for c host)),
            All-assign (λ x. bytes_eq x.0 [] ≡ false) host _ (room_for c host) named_host clean,
          )
    ]
