-- ===== src/Tests/Proxy.antt =====
-- The control port and the SOCKS client.
use go_dark_web_crawler.Common.{true, none, some, [], ◌∷◌, arith}
use go_dark_web_crawler.Common.Text.{codes}
use go_dark_web_crawler.Proxy.TorController.{TorController, Dialog, build_auth_command}
use go_dark_web_crawler.Proxy.Cooldown.{
  Calls, renewals, Spaced, OneLine, renewals-Spaced, build_auth_command-OneLine,
}

abbrev controller : TorController
controller = record {
  addr = codes "127.0.0.1:9051";
  password = codes "a\"b";
  cookie_path = [];
  last_renewal = 0;
  cooldown = 10;
}

abbrev dialog : Dialog
dialog = record {
  dials = true;
  cookie = none;
  sends_auth = true;
  auth_answer = some (codes "250 OK");
  sends_newnym = true;
  newnym_answer = some (codes "250 OK");
  ended_at = 21;
}

abbrev calls : Calls
calls =
    (20, dialog)
    ∷ (25, record dialog { ended_at = 26 })
    ∷ (40, record dialog { ended_at = 41 })
    ∷ []

renewals-Spaced_example :
    Spaced controller.cooldown controller.last_renewal (renewals controller calls)
renewals-Spaced_example =
    renewals-Spaced calls controller (omega arith, (omega arith, (omega arith, tt)))

build_auth_command-OneLine_example :
    OneLine (build_auth_command controller (some (codes "\r\nSIGNAL SHUTDOWN")))
build_auth_command-OneLine_example =
    build_auth_command-OneLine controller (some (codes "\r\nSIGNAL SHUTDOWN"))
