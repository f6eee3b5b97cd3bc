-- ===== src/Proxy/Cooldown.antt =====
-- How often a circuit is renewed, and what is said on the control port.
use go_dark_web_crawler.Common.{
  ℕ, ◌+◌, ◌≤◌, ◌≡◌, refl, ◌≢◌, true, Option, none, some, List, [], ◌∷◌, ◌++◌, arith, All,
  All-append,
}
use go_dark_web_crawler.Common.Text.{Bytes, codes, has_prefix}
use go_dark_web_crawler.Common.Hex.{hex}
use go_dark_web_crawler.Proxy.TorController.{
  TorController, Dialog, Renewal, cooling, renewed, failed, build_auth_command, newnym,
  renew_circuit,
}

-- A call that does not renew leaves the controller as it was: a failure costs no cooldown.
pub renew_circuit_unless_renewed :
    (c : TorController) (now : ℕ) (d : Dialog)
    → (renew_circuit c now d).1 ≢ renewed
    → (renew_circuit c now d).0 ≡ c
unfolding renew_circuit
renew_circuit_unless_renewed c now d h = ground arith

-- A renewal needs the cooldown to have passed, and both answers to begin with 250; it then sends the
-- authentication and the signal, in this order, and restarts the cooldown.
renew_circuit-renewed :
    (c : TorController) (now : ℕ) (d : Dialog)
    → (renew_circuit c now d).1 ≡ renewed
    → (c.last_renewal + c.cooldown ≤ now)
      × ((renew_circuit c now d).2 ≡ build_auth_command c d.cookie ∷ newnym ∷ [])
      × ((renew_circuit c now d).0 ≡ record c { last_renewal = d.ended_at })
      × ((a : Bytes) × (d.auth_answer ≡ some a) × (has_prefix a (codes "250") ≡ true))
      × ((b : Bytes) × (d.newnym_answer ≡ some b) × (has_prefix b (codes "250") ≡ true))
unfolding renew_circuit
renew_circuit-renewed c now d h = ground arith

-- A history of calls, each with its clock reading.
abbrev pub Calls : Type 0
Calls = List (ℕ × Dialog)

unfoldable pub renewals : TorController → Calls → List ℕ
renewals c [] = []
renewals c ((now, d) ∷ cs) =
    let rest = renewals (renew_circuit c now d).0 cs in
    elim (renew_circuit c now d).1 [ renewed ↦ d.ended_at ∷ rest | _ ↦ rest ]

-- The clock does not run backwards: a call ends no earlier than it began.
abbrev pub Forward : Calls → Type 0
Forward [] = Unit
Forward ((now, d) ∷ cs) = (now ≤ d.ended_at) × Forward cs

-- Each is at least `gap` behind the one before.
abbrev pub Spaced : ℕ → ℕ → List ℕ → Type 0
Spaced gap last [] = Unit
Spaced gap last (t ∷ ts) = (last + gap ≤ t) × Spaced gap t ts

after_call :
    (c : TorController) (now : ℕ) (d : Dialog) (cs : Calls) (r : Renewal)
    → now ≤ d.ended_at
    → (renew_circuit c now d).1 ≡ r
    → ((c' : TorController) → Spaced c'.cooldown c'.last_renewal (renewals c' cs))
    → Spaced c.cooldown c.last_renewal (elim r [
      | renewed ↦ d.ended_at ∷ renewals (renew_circuit c now d).0 cs
      | _ ↦ renewals (renew_circuit c now d).0 cs
    ])
after_call c now d cs renewed forward e later =
    let (waited, _, next, _, _) = renew_circuit-renewed c now d e in
    (omega arith, rw next (later (record c { last_renewal = d.ended_at })))
after_call c now d cs cooling forward e later =
    let same = renew_circuit_unless_renewed c now d (λ x. cc) in rw same (later c)
after_call c now d cs (failed why) forward e later =
    let same = renew_circuit_unless_renewed c now d (λ x. cc) in rw same (later c)

-- Over any history, successful renewals are at least the cooldown apart, whatever fails between.
pub renewals-Spaced :
    (cs : Calls) (c : TorController) → Forward cs → Spaced c.cooldown c.last_renewal (renewals c cs)
unfolding renewals
renewals-Spaced [] c f = tt
renewals-Spaced ((now, d) ∷ cs) c f =
    after_call c now d cs (renew_circuit c now d).1 f.0 refl (λ c'. renewals-Spaced cs c' f.1)

-- No byte of the command is a carriage return or a line feed.
abbrev pub OneLine : Bytes → Type 0
OneLine = All (λ c. (c ≢ 10) × (c ≢ 13))

hex-OneLine : (s : Bytes) → OneLine (hex s)
unfolding hex
hex-OneLine [] = tt
hex-OneLine (c ∷ s) = ((ground arith, ground arith), ((ground arith, ground arith), hex-OneLine s))

-- Whatever the cookie file and the password hold, the authentication is one line of the protocol: it
-- cannot smuggle in a second command.
pub build_auth_command-OneLine :
    (c : TorController) (cookie : Option Bytes) → OneLine (build_auth_command c cookie)
unfolding build_auth_command
build_auth_command-OneLine c none = ground (arith, password_line)
  where
    password_line : OneLine (codes "AUTHENTICATE " ++ hex c.password)
    password_line =
        All-append (λ c. (c ≢ 10) × (c ≢ 13)) (codes "AUTHENTICATE ") (hex c.password) (omega arith)
          (hex-OneLine c.password)
build_auth_command-OneLine c (some content) = ground (arith, line c.password, line content)
  where
    line : (s : Bytes) → OneLine (codes "AUTHENTICATE " ++ hex s)
    line s =
        All-append (λ c. (c ≢ 10) × (c ≢ 13)) (codes "AUTHENTICATE ") (hex s) (omega arith)
          (hex-OneLine s)
