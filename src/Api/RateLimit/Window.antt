-- ===== src/Api/RateLimit/Window.antt =====
-- What a bucket grants until it runs out, whatever other calls and sweeps come between.
use go_dark_web_crawler.Common.{
  ℕ, ◌+◌, ◌≤◌, ◌≡◌, refl, true, false, not, ◌&&◌, Option, none, some, List, [], ◌∷◌, arith, All,
  ltb, length, if◌then◌else◌, Bool-cases, inl, inr, ◌≢◌, ◌<◌, ◌↔◌,
}
use go_dark_web_crawler.Common.Text.{Bytes, bytes_eq, bytes_eq_iff}
use go_dark_web_crawler.Common.Table.{
  lookup, Unique, only_if, lookup-assign, lookup-keep_values, keep_values-Unique, assign-Unique,
}
use go_dark_web_crawler.Api.RateLimit.{
  LimitBucket, CrawlLimiter, sweep, gc, first_request, charge, allow_n,
}

-- What a limiter sees: calls of `AllowN`, and ticks of the sweeper.
pub data Event : Type 0 where
  asks : Bytes → ℕ → Event
  ticks : Event

abbrev pub step : CrawlLimiter → ℕ × Event → CrawlLimiter
step l (now, asks key n) = (allow_n l now key n).0
step l (now, ticks) = gc now l

-- The units that one event takes from `key`.
abbrev pub spent : Bytes → CrawlLimiter → ℕ × Event → ℕ
spent key l (now, asks k n) = if bytes_eq k key && (allow_n l now k n).1 then n else 0
spent key l (now, ticks) = 0

unfoldable pub run : CrawlLimiter → List (ℕ × Event) → CrawlLimiter
run l [] = l
run l (e ∷ es) = run (step l e) es

unfoldable pub granted : Bytes → CrawlLimiter → List (ℕ × Event) → ℕ
granted key l [] = 0
granted key l (e ∷ es) = spent key l e + granted key (step l e) es

-- The bucket that still counts at `now`.
abbrev pub live : ℕ → Bytes → CrawlLimiter → Option LimitBucket
live now key l = only_if (λ b. not (ltb b.reset_at now)) (lookup key l.buckets)

gc_keeps_live :
    (now : ℕ) (key : Bytes) (l : CrawlLimiter)
    → Unique l.buckets
    → live now key (gc now l) ≡ live now key l
unfolding gc sweep
gc_keeps_live now key l u =
    ground
      (arith, lookup-keep_values (λ (b : LimitBucket). not (ltb b.reset_at now)) key l.buckets u)

gc-Unique : (now : ℕ) (l : CrawlLimiter) → Unique l.buckets → Unique (gc now l).buckets
unfolding gc sweep
gc-Unique now l u = keep_values-Unique _ l.buckets u

first_request-Unique :
    (l : CrawlLimiter) (now : ℕ) (key : Bytes) (n : ℕ)
    → Unique l.buckets
    → Unique (first_request l now key n).0.buckets
unfolding first_request
first_request-Unique l now key n u =
    let b : LimitBucket = record { count = n; reset_at = now + l.window } in
    ground (
      arith,
      gc-Unique now l u,
      assign-Unique key b l.buckets u,
      assign-Unique key b (gc now l).buckets,
    )

charge-Unique :
    (o : Option LimitBucket) (l : CrawlLimiter) (now : ℕ) (key : Bytes) (n : ℕ)
    → Unique l.buckets
    → Unique (charge o l now key n).0.buckets
unfolding charge
charge-Unique none l now key n u = ground (arith, first_request-Unique l now key n u)
charge-Unique (some b) l now key n u =
    let fresh : LimitBucket = record { count = n; reset_at = now + l.window } in
    let grown : LimitBucket = record b { count = b.count + n } in
    ground (arith, assign-Unique key fresh l.buckets u, assign-Unique key grown l.buckets u)

pub allow_n-Unique :
    (l : CrawlLimiter) (now : ℕ) (key : Bytes) (n : ℕ)
    → Unique l.buckets
    → Unique (allow_n l now key n).0.buckets
unfolding allow_n
allow_n-Unique l now key n u = ground (arith, charge-Unique (lookup key l.buckets) l now key n u)

step-Unique : (l : CrawlLimiter) (e : ℕ × Event) → Unique l.buckets → Unique (step l e).buckets
step-Unique l (now, asks key n) u = allow_n-Unique l now key n u
step-Unique l (now, ticks) u = gc-Unique now l u

first_request_limit :
    (l : CrawlLimiter) (now : ℕ) (key : Bytes) (n : ℕ)
    → (first_request l now key n).0.limit ≡ l.limit
unfolding first_request gc
first_request_limit l now key n = ground arith

allow_n_limit :
    (l : CrawlLimiter) (now : ℕ) (key : Bytes) (n : ℕ) → (allow_n l now key n).0.limit ≡ l.limit
unfolding allow_n charge
allow_n_limit l now key n = ground (arith, first_request_limit l now key n)

step_limit : (l : CrawlLimiter) (e : ℕ × Event) → (step l e).limit ≡ l.limit
unfolding gc
step_limit l (now, asks key n) = allow_n_limit l now key n
step_limit l (now, ticks) = refl

-- Another key's first request may sweep the map, which leaves what still counts.
first_request_other :
    (l : CrawlLimiter) (now : ℕ) (k key : Bytes) (n : ℕ)
    → Unique l.buckets
    → bytes_eq k key ≡ false
    → live now key (first_request l now k n).0 ≡ live now key l
unfolding first_request
first_request_other l now k key n u ne =
    let b : LimitBucket = record { count = n; reset_at = now + l.window } in
    ground (
      arith,
      gc_keeps_live now key l u,
      lookup-assign k key b l.buckets,
      lookup-assign k key b (gc now l).buckets,
    )

charge_other :
    (o : Option LimitBucket) (l : CrawlLimiter) (now : ℕ) (k key : Bytes) (n : ℕ)
    → Unique l.buckets
    → bytes_eq k key ≡ false
    → live now key (charge o l now k n).0 ≡ live now key l
unfolding charge
charge_other none l now k key n u ne = ground (arith, first_request_other l now k key n u)
charge_other (some b) l now k key n u ne =
    let fresh : LimitBucket = record { count = n; reset_at = now + l.window } in
    let grown : LimitBucket = record b { count = b.count + n } in
    ground (arith, lookup-assign k key fresh l.buckets, lookup-assign k key grown l.buckets)

-- A call for one key leaves the live bucket of every other key as it is.
pub allow_n_other :
    (l : CrawlLimiter) (now : ℕ) (k key : Bytes) (n : ℕ)
    → Unique l.buckets
    → k ≢ key
    → live now key (allow_n l now k n).0 ≡ live now key l
unfolding allow_n
allow_n_other l now k key n u ne =
    ground (arith, bytes_eq_iff k key, charge_other (lookup k l.buckets) l now k key n u)

-- A refused call charges nothing: every bucket that still counts is what it was.
pub refused_charges_nothing :
    (l : CrawlLimiter) (now : ℕ) (k key : Bytes) (n : ℕ)
    → Unique l.buckets
    → (allow_n l now k n).1 ≡ false
    → live now key (allow_n l now k n).0 ≡ live now key l
unfolding allow_n charge first_request
refused_charges_nothing l now k key n u refused = ground (arith, gc_keeps_live now key l u)

-- The units of `key` that are charged and still count.
abbrev pub used : ℕ → Bytes → CrawlLimiter → ℕ
used now key l = elim (live now key l) [ none ↦ 0 | some b ↦ b.count ]

first_request_charges :
    (l : CrawlLimiter) (now : ℕ) (key : Bytes) (n : ℕ)
    → (first_request l now key n).1 ≡ true
    → lookup key (first_request l now key n).0.buckets
      ≡ some (record { count = n; reset_at = now + l.window })
unfolding first_request gc
first_request_charges l now key n passed =
    let b : LimitBucket = record { count = n; reset_at = now + l.window } in
    ground (
      arith,
      lookup-assign key key b l.buckets,
      lookup-assign key key b (gc now l).buckets,
      bytes_eq_iff key key,
    )

charge_charges :
    (o : Option LimitBucket) (l : CrawlLimiter) (now : ℕ) (key : Bytes) (n : ℕ)
    → lookup key l.buckets ≡ o
    → (charge o l now key n).1 ≡ true
    → (used now key (charge o l now key n).0 ≡ used now key l + n) × (used now key l + n ≤ l.limit)
unfolding charge
charge_charges none l now key n e passed = ground (arith, first_request_charges l now key n)
charge_charges (some b) l now key n e passed =
    let fresh : LimitBucket = record { count = n; reset_at = now + l.window } in
    let grown : LimitBucket = record b { count = b.count + n } in
    ground (
      arith,
      lookup-assign key key fresh l.buckets,
      lookup-assign key key grown l.buckets,
      bytes_eq_iff key key,
    )

-- A call that passes is charged in full, and fits: what `key` has used grows by exactly `n`, and
-- stays within the limit.
pub passed_charges :
    (l : CrawlLimiter) (now : ℕ) (key : Bytes) (n : ℕ)
    → used now key l ≤ l.limit
    → (allow_n l now key n).1 ≡ true
    → (used now key (allow_n l now key n).0 ≡ used now key l + n) × (used now key l + n ≤ l.limit)
unfolding allow_n
passed_charges l now key n fits passed =
    ground (arith, charge_charges (lookup key l.buckets) l now key n refl)

-- While the map has room, a call passes exactly when its units still fit in the window.
passes_iff :
    (l : CrawlLimiter) (now : ℕ) (key : Bytes) (n : ℕ)
    → length l.buckets < l.max_buckets
    → 0 < n
    → ((allow_n l now key n).1 ≡ true) ↔ (used now key l + n ≤ l.limit)
unfolding allow_n charge first_request
passes_iff l now key n room some_asked = ground arith

spent_here :
    (l : CrawlLimiter) (key : Bytes) (b : LimitBucket) (e : ℕ × Event)
    → Unique l.buckets
    → lookup key l.buckets ≡ some b
    → e.0 ≤ b.reset_at
    → b.count ≤ l.limit
    → (lookup key (step l e).buckets ≡ some (record b { count = b.count + spent key l e }))
      × (b.count + spent key l e ≤ l.limit)
unfolding allow_n charge
spent_here l key b (now, ticks) u e t fits = ground (arith, gc_keeps_live now key l u)
spent_here l key b (now, asks k n) u e t fits = elim (Bool-cases (bytes_eq k key)) [
  | inl same ↦
      let grown : LimitBucket = record b { count = b.count + n } in
      ground (arith, lookup-assign k key grown l.buckets, bytes_eq_iff k key)
  | inr other ↦ ground (arith, charge_other (lookup k l.buckets) l now k key n u other)
]

-- The budget of one window. From a bucket that has charged no more than the limit, take any
-- sequence of calls for any keys and of sweeps, all no later than the time at which the bucket
-- resets: what it had charged and all that these calls grant to its key stay within the limit
-- together, and are what the bucket has charged in the end.
pub window_budget :
    (es : List (ℕ × Event)) (l : CrawlLimiter) (key : Bytes) (b : LimitBucket)
    → Unique l.buckets
    → lookup key l.buckets ≡ some b
    → b.count ≤ l.limit
    → All (λ e. e.0 ≤ b.reset_at) es
    → (b.count + granted key l es ≤ l.limit)
      × (lookup key (run l es).buckets ≡ some (record b { count = b.count + granted key l es }))
unfolding run granted
window_budget [] l key b u e fits ts = ground arith
window_budget (ev ∷ es) l key b u e fits ts =
    let here = spent_here l key b ev u e ts.0 fits in
    let b' : LimitBucket = record b { count = b.count + spent key l ev } in
    let rest =
      window_budget es (step l ev) key b' (step-Unique l ev u) here.0
        (omega (arith, here.1, step_limit l ev)) ts.1 in
    ground (arith, rest, step_limit l ev)
