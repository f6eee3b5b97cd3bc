-- ===== src/Crawler/Engine/Errors.antt =====
-- When consecutive network errors ask Tor for a new circuit.
use go_dark_web_crawler.Common.{
  ℕ, ◌+◌, ◌≤◌, ◌<◌, ◌^◌, ◌≡◌, true, false, some, arith, Option-cases, inl, inr,
}
use go_dark_web_crawler.Proxy.TorController.{TorController, Dialog, renewed, renew_circuit}
use go_dark_web_crawler.Proxy.Cooldown.{renew_circuit_unless_renewed}
use go_dark_web_crawler.Crawler.Engine.{Engine, on_network_error}

-- Idle connections are closed exactly when the circuit was renewed, which needs a controller and the
-- fifth error in a row or a later one; the counter then starts again from 0.
on_network_error_closes :
    (e : Engine) (now : ℕ) (d : Dialog)
    → e.global_error_count + 1 < 2 ^ 31
    → (on_network_error e now d).1 ≡ true
    → (4 ≤ e.global_error_count)
      × ((c : TorController) × (e.tor_ctrl ≡ some c)
          × ((renew_circuit c now d).1 ≡ renewed)
          × ((on_network_error e now d).0
              ≡ record e { tor_ctrl = some (renew_circuit c now d).0; global_error_count = 0 }))
unfolding on_network_error
on_network_error_closes e now d small h = ground arith

-- Where no idle connection is closed, the counter goes up by one and nothing else changes.
pub on_network_error_counts :
    (e : Engine) (now : ℕ) (d : Dialog)
    → e.global_error_count + 1 < 2 ^ 31
    → (on_network_error e now d).1 ≡ false
    → (on_network_error e now d).0 ≡ record e { global_error_count = e.global_error_count + 1 }
unfolding on_network_error
on_network_error_counts e now d small h = elim (Option-cases e.tor_ctrl) [
  | inl absent ↦ ground arith
  | inr (c, present) ↦ ground (arith, renew_circuit_unless_renewed c now d)
]
