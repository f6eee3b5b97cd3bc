-- ===== src/Api/RateLimit/Bounds.antt =====
-- The size of the bucket map and of each bucket.
use go_dark_web_crawler.Common.{
  ℕ, ◌+◌, ◌≤◌, ◌≡◌, not, Option, none, some, arith, length, All, Bool-cases, inl, inr, refl, ◌==◌,
  ltb, leb,
}
use go_dark_web_crawler.Common.Text.{Bytes}
use go_dark_web_crawler.Common.Table.{
  lookup, assign, length-assign-le, length-assign_old, All-assign, All-keep_values,
  length-keep_values-le,
}
use go_dark_web_crawler.Api.RateLimit.{
  LimitBucket, CrawlLimiter, sweep, gc, first_request, charge, allow_n,
}

abbrev pub WithinLimit : ℕ → Bytes × LimitBucket → Type 0
WithinLimit limit (k, b) = b.count ≤ limit

pub record IsBounded (l : CrawlLimiter) : Type 0 where
  pub counts : All (WithinLimit l.limit) l.buckets
  pub size : length l.buckets ≤ l.max_buckets

pub gc-IsBounded : (now : ℕ) (l : CrawlLimiter) → IsBounded l → IsBounded (gc now l)
unfolding gc sweep
gc-IsBounded now l v = record {
  counts = All-keep_values (WithinLimit l.limit) _ l.buckets v.counts;
  size = omega (
    arith,
    length-keep_values-le (λ (b : LimitBucket). not (ltb b.reset_at now)) l.buckets,
    v.size,
  );
}

assign-IsBounded :
    (l : CrawlLimiter) (key : Bytes) (b : LimitBucket)
    → b.count ≤ l.limit
    → length (assign key b l.buckets) ≤ l.max_buckets
    → IsBounded l
    → IsBounded (record l { buckets = assign key b l.buckets })
assign-IsBounded l key b fits room v = record {
  counts = All-assign (WithinLimit l.limit) key b l.buckets fits v.counts;
  size = room;
}

first_request-IsBounded :
    (l : CrawlLimiter) (now : ℕ) (key : Bytes) (n : ℕ)
    → n ≤ l.limit
    → IsBounded l
    → IsBounded (first_request l now key n).0
unfolding first_request
first_request-IsBounded l now key n h v =
    let b : LimitBucket = record { count = n; reset_at = now + l.window } in
    elim (Bool-cases (leb l.max_buckets (length l.buckets))) [
      | inl full ↦ rw full (elim (Bool-cases (leb l.max_buckets (length (gc now l).buckets))) [
        | inl still ↦ rw still (gc-IsBounded now l v)
        | inr room ↦ rw room (
            assign-IsBounded (gc now l) key b h
              (ground (arith, length-assign-le key b (gc now l).buckets)) (gc-IsBounded now l v))
      ])
      | inr room ↦
          rw room (assign-IsBounded l key b h (ground (arith, length-assign-le key b l.buckets)) v)
    ]

charge-IsBounded :
    (o : Option LimitBucket) (l : CrawlLimiter) (now : ℕ) (key : Bytes) (n : ℕ)
    → lookup key l.buckets ≡ o
    → IsBounded l
    → IsBounded (charge o l now key n).0
unfolding charge
charge-IsBounded none l now key n e v = elim (Bool-cases (ltb l.limit n)) [
  | inl over ↦ rw over v
  | inr fits ↦ rw fits (first_request-IsBounded l now key n (ground arith) v)
]
charge-IsBounded (some b) l now key n e v =
    let fresh : LimitBucket = record { count = n; reset_at = now + l.window } in
    let grown : LimitBucket = record b { count = b.count + n } in
    let same = λ (c : LimitBucket). length-assign_old key c b l.buckets e in
    elim (Bool-cases (ltb b.reset_at now)) [
      | inl expired ↦ rw expired (elim (Bool-cases (ltb l.limit n)) [
        | inl over ↦ rw over v
        | inr fits ↦
            rw fits
              (assign-IsBounded l key fresh (ground arith) (omega (arith, same fresh, v.size)) v)
      ])
      | inr current ↦ rw current (elim (Bool-cases (ltb l.limit (b.count + n))) [
        | inl over ↦ rw over v
        | inr fits ↦
            rw fits
              (assign-IsBounded l key grown (ground arith) (omega (arith, same grown, v.size)) v)
      ])
    ]

-- No call takes a bucket over the limit, or the map over its capacity: a map at its capacity is
-- swept, and a key that then still has no room is refused.
allow_n-IsBounded :
    (l : CrawlLimiter) (now : ℕ) (key : Bytes) (n : ℕ)
    → IsBounded l
    → IsBounded (allow_n l now key n).0
unfolding allow_n
allow_n-IsBounded l now key n v = elim (Bool-cases (n == 0)) [
  | inl none_asked ↦ rw none_asked v
  | inr asked ↦ rw asked (charge-IsBounded (lookup key l.buckets) l now key n refl v)
]
