-- ===== src/Crawler/Engine.antt =====
-- backend/internal/crawler/engine.go: the engine's state, the politeness gap between two requests to
-- one domain, and the reaction to network errors. Times and durations are nanoseconds.
pub mod Politeness
pub mod Errors
use go_dark_web_crawler.Common.{
  ℕ, ◌+◌, ◌-◌, ◌*◌, ◌%◌, ◌^◌, Bool, true, false, not, ◌||◌, Option, none, some, List, [], ◌∷◌, ltb,
  leb, if◌then◌else◌,
}
use go_dark_web_crawler.Common.Text.{Bytes}
use go_dark_web_crawler.Common.Table.{lookup, assign, keep_values}
use go_dark_web_crawler.Common.Platform.{Platform}
use go_dark_web_crawler.Proxy.TorController.{
  TorController, Dialog, Renewal, cooling, renewed, failed, renew_circuit,
}

abbrev pub second : ℕ
second = 1_000_000_000

pub record Engine : Type 0 where
  pub workers : ℕ
  pub max_depth : ℕ
  pub max_pending_per_user : ℕ
  pub tor_ctrl : Option TorController
  pub domain_last_access : List (Bytes × ℕ)
  -- An int32, as its bit pattern.
  pub global_error_count : ℕ
  pub domain_delay : ℕ

unfoldable pub new_engine : ℕ → ℕ → Engine
new_engine workers max_depth = record {
  workers = workers;
  max_depth = max_depth;
  max_pending_per_user = 0;
  tor_ctrl = none;
  domain_last_access = [];
  global_error_count = 0;
  domain_delay = 0;
}

abbrev pub default_domain_delay : ℕ
default_domain_delay = 5 * second

abbrev pub max_domain_delay : ℕ
max_domain_delay = 60 * second

unfoldable pub base_domain_delay : Engine → ℕ
base_domain_delay e = if ltb 0 e.domain_delay then e.domain_delay else default_domain_delay

-- max(base, robots Crawl-delay), capped.
unfoldable pub polite_delay : Engine → ℕ → ℕ
unfolding base_domain_delay
polite_delay e min_delay =
    let wanted = if ltb (base_domain_delay e) min_delay then min_delay else base_domain_delay e in
    if ltb max_domain_delay wanted then max_domain_delay else wanted

-- One call of `waitForDomain` for a host: the two clock readings that it takes under the lock, and
-- whether the context ends during the wait. `elapsed < delay` is `now < lastAccess + delay`, since a
-- reservation in the future makes `elapsed` negative.
pub record Visit : Type 0 where
  pub now : ℕ
  pub later : ℕ
  pub min_delay : ℕ
  pub cancelled : Bool

unfoldable pub reserve : Engine → Bytes → Visit → Option ℕ → Engine × Bool
reserve e host v none =
    (record e { domain_last_access = assign host v.later e.domain_last_access }, true)
reserve e host v (some last) =
    let delay = polite_delay e v.min_delay in
    if ltb v.now (last + delay)
    then (
      record e {
        domain_last_access = assign host (v.later + (last + delay - v.now)) e.domain_last_access;
      },
      not v.cancelled,
    )
    else (record e { domain_last_access = assign host v.later e.domain_last_access }, true)

unfoldable pub wait_for_host : Engine → Bytes → Visit → Engine × Bool
unfolding reserve
wait_for_host e host v = reserve e host v (lookup host e.domain_last_access)

-- `waitForDomain`: a URL that does not parse waits for nothing.
unfoldable pub wait_for_domain : Platform → Engine → Bytes → Visit → Engine × Bool
unfolding wait_for_host
wait_for_domain p e target v = elim (p.url_parse target) [
  | none ↦ (e, true)
  | some url ↦ wait_for_host e url.host v
]

-- One tick of the cleanup goroutine of `Start`: drop what is older than ten minutes.
unfoldable pub cleanup : ℕ → Engine → Engine
cleanup now e = record e {
  domain_last_access = keep_values (λ t. not (ltb (t + 600 * second) now)) e.domain_last_access;
}

-- The number that an int32 pattern stands for is below 5.
abbrev below_threshold : ℕ → Bool
below_threshold count = ltb count 5 || leb (2 ^ 31) count

-- From the controller on: the new engine, and whether idle connections are closed.
renew : Engine → TorController → ℕ → Dialog → Engine × Bool
renew e c now d =
    let (c', result, _) = renew_circuit c now d in
    elim result [
      | renewed ↦ (record e { tor_ctrl = some c'; global_error_count = 0 }, true)
      | _ ↦ (record e { tor_ctrl = some c' }, false)
    ]

-- `onNetworkError`.
unfoldable pub on_network_error : Engine → ℕ → Dialog → Engine × Bool
unfolding renew
on_network_error e now d =
    let count = (e.global_error_count + 1) % 2 ^ 32 in
    let counted = record e { global_error_count = count } in
    if below_threshold count
    then (counted, false)
    else elim e.tor_ctrl [ none ↦ (counted, false) | some c ↦ renew counted c now d ]

-- A successful crawl resets the counter.
unfoldable pub on_success : Engine → Engine
on_success e = record e { global_error_count = 0 }
