-- ===== src/Crawler/Engine/Politeness.antt =====
-- No two reservations for one domain are closer than the politeness gap, whichever workers make them
-- and whatever is cleaned up between.
use go_dark_web_crawler.Common.{
  ℕ, ◌+◌, ◌-◌, ◌*◌, ◌≤◌, ◌≡◌, refl, subst, sym, ap, ◌∙◌, not, Option, none, some, List, [], ◌∷◌,
  arith, ltb, min, max, Bool-cases, inl, inr, ◌⊎◌, if◌then◌else◌,
}
use go_dark_web_crawler.Common.Text.{Bytes, bytes_eq, bytes_eq_iff}
use go_dark_web_crawler.Common.Table.{
  lookup, assign, Unique, lookup-assign, lookup-keep_values, keep_values-Unique, assign-Unique,
}
use go_dark_web_crawler.Crawler.Engine.{
  Engine, Visit, second, max_domain_delay, base_domain_delay, polite_delay, reserve, wait_for_host,
  cleanup,
}

-- The gap is the larger of the base delay and the crawl delay, and at most a minute.
pub polite_delay-min :
    (e : Engine) (d : ℕ) → polite_delay e d ≡ min max_domain_delay (max (base_domain_delay e) d)
unfolding polite_delay
polite_delay-min e d = ground arith

-- When a worker goes to the host, by what the map holds.
abbrev pub slot_after : Engine → Visit → Option ℕ → ℕ
slot_after e v none = v.later
slot_after e v (some last) =
    let delay = polite_delay e v.min_delay in
    if ltb v.now (last + delay) then v.later + (last + delay - v.now) else v.later

abbrev pub slot : Engine → Bytes → Visit → ℕ
slot e host v = slot_after e v (lookup host e.domain_last_access)

-- A call leaves its slot in the map, and changes nothing else.
wait_for_host-slot :
    (e : Engine) (h : Bytes) (v : Visit)
    → (wait_for_host e h v).0
      ≡ record e { domain_last_access = assign h (slot e h v) e.domain_last_access }
unfolding wait_for_host
wait_for_host-slot e h v = by_entry (lookup h e.domain_last_access)
  where
    by_entry :
        (o : Option ℕ)
        → (reserve e h v o).0
          ≡ record e { domain_last_access = assign h (slot_after e v o) e.domain_last_access }
    by_entry none = unfold reserve in refl
    by_entry (some last) = unfold reserve in ground arith

-- What happens to the map: calls, and ticks of the cleanup.
pub data Event : Type 0 where
  visits : Bytes → Visit → Event
  cleans : ℕ → Event

abbrev pub step : Engine → Event → Engine
step e (visits host v) = (wait_for_host e host v).0
step e (cleans now) = cleanup now e

-- The slots that calls for `host` get, in the order of the calls.
unfoldable pub slots : Bytes → Engine → List Event → List ℕ
slots host e [] = []
slots host e (visits h v ∷ es) =
    let rest = slots host (step e (visits h v)) es in
    if bytes_eq h host then slot e h v ∷ rest else rest
slots host e (cleans now ∷ es) = slots host (cleanup now e) es

-- The lock orders the clock readings: that of a call is not before `t`, nor before an earlier one. A cleanup
-- reads its clock before it takes the lock, so its reading may be older than those before it, and is not
-- newer than those after it.
abbrev pub Clocked : ℕ → List Event → Type 0
Clocked t [] = Unit
Clocked t (visits h v ∷ es) = (t ≤ v.now) × (v.now ≤ v.later) × Clocked v.later es
Clocked t (cleans now ∷ es) = Clocked (max t now) es

-- Each slot is at least `gap` behind the one before.
abbrev pub Spaced : ℕ → List ℕ → Type 0
Spaced gap [] = Unit
Spaced gap (a ∷ []) = Unit
Spaced gap (a ∷ b ∷ ts) = (a + gap ≤ b) × Spaced gap (b ∷ ts)

-- What the map knows of the last slot: it is there, or it was cleaned up when it was too old to
-- matter.
abbrev Knows : Engine → Bytes → ℕ → ℕ → Type 0
Knows e host t last =
    (lookup host e.domain_last_access ≡ some last)
    ⊎ ((lookup host e.domain_last_access ≡ none) × (last + max_domain_delay ≤ t))

step_delay : (e : Engine) (ev : Event) → (step e ev).domain_delay ≡ e.domain_delay
unfolding cleanup
step_delay e (visits h v) = ap (λ (f : Engine). f.domain_delay) (wait_for_host-slot e h v)
step_delay e (cleans now) = refl

step-Unique :
    (e : Engine) (ev : Event) → Unique e.domain_last_access → Unique (step e ev).domain_last_access
unfolding cleanup
step-Unique e (visits h v) u =
    rw wait_for_host-slot (assign-Unique h (slot e h v) e.domain_last_access u)
step-Unique e (cleans now) u = keep_values-Unique _ e.domain_last_access u

-- A call leaves the entry of every other host.
visit_lookup :
    (e : Engine) (h host : Bytes) (v : Visit)
    → lookup host (wait_for_host e h v).0.domain_last_access
      ≡ (if bytes_eq h host then some (slot e h v) else lookup host e.domain_last_access)
visit_lookup e h host v =
    rw wait_for_host-slot (lookup-assign h host (slot e h v) e.domain_last_access)

-- Behind what the map knows, a call keeps the gap that it asks for, and its slot is not in the past.
visit_gap :
    (e : Engine) (h : Bytes) (v : Visit) (last : ℕ)
    → v.now ≤ v.later
    → Knows e h v.now last
    → (last + polite_delay e v.min_delay ≤ slot e h v) × (v.later ≤ slot e h v)
visit_gap e h v last ordered (inl known) = rw known (ground arith)
visit_gap e h v last ordered (inr (gone, old)) =
    rw gone (omega (arith, polite_delay-min e v.min_delay), omega arith)

-- The gap that every call keeps.
abbrev pub gap : Engine → ℕ
gap e = min max_domain_delay (base_domain_delay e)

gap-step : (e : Engine) (ev : Event) → gap (step e ev) ≡ gap e
unfolding base_domain_delay
gap-step e ev = ground (arith, step_delay e ev)

gap-le : (e : Engine) (d : ℕ) → gap e ≤ polite_delay e d
gap-le e d = omega (arith, polite_delay-min e d)

Knows-later :
    (e : Engine) (host : Bytes) (t t' last : ℕ)
    → t ≤ t'
    → Knows e host t last
    → Knows e host t' last
Knows-later e host t t' last h (inl known) = inl known
Knows-later e host t t' last h (inr (gone, old)) = inr (gone, omega arith)

cleanup-Knows :
    (e : Engine) (host : Bytes) (now t last : ℕ)
    → Unique e.domain_last_access
    → now ≤ t
    → Knows e host t last
    → Knows (cleanup now e) host t last
unfolding cleanup
cleanup-Knows e host now t last u h (inl known) = ground (
  arith,
  lookup-keep_values (λ (t : ℕ). not (ltb (t + 600 * second) now)) host e.domain_last_access u,
)
cleanup-Knows e host now t last u h (inr (gone, old)) = inr (
  rw (lookup-keep_values (λ (t : ℕ). not (ltb (t + 600 * second) now)) host e.domain_last_access u)
      (rw gone),
  old,
)

-- Behind a slot that the map knows, all later slots keep the gap.
slots_behind :
    (es : List Event) (e : Engine) (host : Bytes) (t last : ℕ)
    → Unique e.domain_last_access
    → Knows e host t last
    → Clocked t es
    → Spaced (gap e) (last ∷ slots host e es)
unfolding slots
slots_behind [] e host t last u known c = tt
slots_behind (visits h v ∷ es) e host t last u known c =
    let u' = step-Unique e (visits h v) u in
    let known' = Knows-later e host t v.now last c.0 known in
    elim (Bool-cases (bytes_eq h host)) [
      | inl same ↦
          let e_host : h ≡ host = (bytes_eq_iff h host).0 same in
          let at_h = subst (λ (k : Bytes). Knows e k v.now last) (sym e_host) known' in
          let (behind, future) = visit_gap e h v last c.1 at_h in
          let stored : Knows (step e (visits h v)) host v.later (slot e h v) =
            inl (visit_lookup e h host v ∙ rw same) in
          let rest =
            slots_behind es (step e (visits h v)) host v.later (slot e h v) u' stored c.2 in
          rw same (omega (arith, behind, gap-le e v.min_delay), rw gap-step at rest)
      | inr other ↦
          let stored : Knows (step e (visits h v)) host v.now last =
            subst
              (λ (o : Option ℕ). (o ≡ some last) ⊎ ((o ≡ none) × (last + max_domain_delay ≤ v.now)))
              (sym (visit_lookup e h host v ∙ rw other)) known' in
          let later = Knows-later (step e (visits h v)) host v.now v.later last c.1 stored in
          let rest = slots_behind es (step e (visits h v)) host v.later last u' later c.2 in
          rw other (rw gap-step at rest)
    ]
slots_behind (cleans now ∷ es) e host t last u known c =
    let u' = step-Unique e (cleans now) u in
    let known' =
      cleanup-Knows e host now (max t now) last u (omega arith)
        (Knows-later e host t (max t now) last (omega arith) known) in
    rw (gap-step e (cleans now)) at
      (slots_behind es (cleanup now e) host (max t now) last u' known' c)

-- For every host, over any sequence of calls and cleanups in the order of the lock, consecutive
-- reservations are at least the base delay apart, or a minute where the base delay is longer.
pub slots-Spaced :
    (es : List Event) (e : Engine) (host : Bytes) (t : ℕ)
    → Unique e.domain_last_access
    → Clocked t es
    → Spaced (gap e) (slots host e es)
unfolding slots
slots-Spaced [] e host t u c = tt
slots-Spaced (visits h v ∷ es) e host t u c =
    let u' = step-Unique e (visits h v) u in
    elim (Bool-cases (bytes_eq h host)) [
      | inl same ↦
          let stored : Knows (step e (visits h v)) host v.later (slot e h v) =
            inl (visit_lookup e h host v ∙ rw same) in
          let rest =
            slots_behind es (step e (visits h v)) host v.later (slot e h v) u' stored c.2 in
          rw same (rw gap-step at rest)
      | inr other ↦
          let rest = slots-Spaced es (step e (visits h v)) host v.later u' c.2 in
          rw other (rw gap-step at rest)
    ]
slots-Spaced (cleans now ∷ es) e host t u c =
    rw (gap-step e (cleans now)) at
      (slots-Spaced es (cleanup now e) host (max t now) (step-Unique e (cleans now) u) c)
