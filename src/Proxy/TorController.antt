-- ===== src/Proxy/TorController.antt =====
-- backend/internal/proxy/tor_controller.go. The control port's answers and the cookie file come in
-- as a `Dialog`, one field for each thing that the code waits for; a call gives the new controller,
-- its result, and the lines that it sent. Times count from Go's zero time.
use go_dark_web_crawler.Common.{
  ℕ, ◌+◌, Bool, Option, none, some, List, [], ◌∷◌, ◌++◌, ltb, if◌then◌else◌,
}
use go_dark_web_crawler.Common.Text.{Bytes, codes, bytes_eq, has_prefix}
use go_dark_web_crawler.Common.Hex.{hex}

pub record TorController : Type 0 where
  pub addr : Bytes
  pub password : Bytes
  pub cookie_path : Bytes
  pub last_renewal : ℕ
  pub cooldown : ℕ

unfoldable pub new_tor_controller : Bytes → Bytes → Bytes → ℕ → TorController
new_tor_controller addr password cookie_path cooldown = record {
  addr = addr;
  password = password;
  cookie_path = cookie_path;
  last_renewal = 0;
  cooldown = cooldown;
}

-- What the outside does during one call: whether the dial and the two writes succeed, the two
-- answers (`none` is a read error), the cookie file if it can be read, and the clock at the end.
pub record Dialog : Type 0 where
  pub dials : Bool
  pub cookie : Option Bytes
  pub sends_auth : Bool
  pub auth_answer : Option Bytes
  pub sends_newnym : Bool
  pub newnym_answer : Option Bytes
  pub ended_at : ℕ

pub data Failure : Type 0 where
  not_connected auth_not_sent auth_unread : Failure
  auth_rejected : Bytes → Failure
  newnym_not_sent newnym_unread : Failure
  newnym_rejected : Bytes → Failure

-- `(false, nil)`, `(true, nil)` and `(false, err)`.
pub data Renewal : Type 0 where
  cooling renewed : Renewal
  failed : Failure → Renewal

-- `buildAuthCommand`: cookie, then password, then no authentication. It never fails.
unfoldable pub build_auth_command : TorController → Option Bytes → Bytes
unfolding hex
build_auth_command c cookie =
    let by_password =
      if bytes_eq c.password []
      then codes "AUTHENTICATE \"\""
      else codes "AUTHENTICATE " ++ hex c.password in
    if bytes_eq c.cookie_path []
    then by_password
    else elim cookie [ none ↦ by_password | some content ↦ codes "AUTHENTICATE " ++ hex content ]

abbrev pub newnym : Bytes
newnym = codes "SIGNAL NEWNYM"

abbrev pub Outcome : Type 0
Outcome = TorController × Renewal × List Bytes

-- From the answer to SIGNAL NEWNYM.
unfoldable pub finish : TorController → Dialog → List Bytes → Option Bytes → Outcome
finish c d sent none = (c, failed newnym_unread, sent)
finish c d sent (some line) =
    if has_prefix line (codes "250")
    then (record c { last_renewal = d.ended_at }, renewed, sent)
    else (c, failed (newnym_rejected line), sent)

-- From the answer to the authentication.
unfoldable pub signal : TorController → Dialog → Bytes → Option Bytes → Outcome
unfolding finish
signal c d auth none = (c, failed auth_unread, auth ∷ [])
signal c d auth (some line) =
    if has_prefix line (codes "250")
    then (if d.sends_newnym
        then finish c d (auth ∷ newnym ∷ []) d.newnym_answer
        else (c, failed newnym_not_sent, auth ∷ []))
    else (c, failed (auth_rejected line), auth ∷ [])

-- `RenewCircuit`, with the clock as the cooldown test reads it.
unfoldable pub renew_circuit : TorController → ℕ → Dialog → Outcome
unfolding signal
renew_circuit c now d =
    if ltb now (c.last_renewal + c.cooldown)
    then (c, cooling, [])
    else if d.dials
    then (if d.sends_auth
        then signal c d (build_auth_command c d.cookie) d.auth_answer
        else (c, failed auth_not_sent, []))
    else (c, failed not_connected, [])
