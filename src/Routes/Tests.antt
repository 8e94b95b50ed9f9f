-- ===== src/Routes/Tests.antt =====
-- A phone that guesses codes: witnesses of the theorems on the routes.
use roboparty_rp_server.Prelude.{◌≡◌, ◌≤◌, refl, true, List, [], ◌∷◌, none, some, arith}
use roboparty_rp_server.Pairing.{Pairing}
use roboparty_rp_server.Routes.{
  Request, Route, pair_code, pair_register, pair_revoke, members, no_object, Site, Setup, is_local,
  host, run, open_site,
}
use roboparty_rp_server.Routes.Limits.{passed, passed-bounds}
use roboparty_rp_server.Routes.Local.{run-remote}

abbrev setup : Setup
setup = record {
  strip = λ s. s;
  lower = λ s. s;
  parts = λ s. ("", s);
  key_info = λ key. some (key, key);
  cut = λ s. s;
  policy = record { has_key = true; service_token = ""; service_scopes = [] };
  sign = λ d. none;
}

abbrev closed_pairing : Pairing
closed_pairing = record {
  ttl = 300;
  single_owner = true;
  preserve_admin = true;
  codes = [];
  apps = some [];
}

abbrev site : Site
site = record {
  pairing = closed_pairing;
  pair_attempts = ("10.0.0.7", record { since = 100; count = 9 }) ∷ [];
}

abbrev ask : Route → Request
ask route = record {
  client = some "10.0.0.7";
  authorization = none;
  route = route;
  first = 70000;
  second = 70001;
  third = 70002;
  inputs = record { now = 70; stamp = "noon"; saves = true };
  later = 70;
  code = "123456";
  identity = record { serial = "r1"; machine_id = "m"; software_sn = "" };
  decode = λ token. none;
}

abbrev guesses : List Request
guesses =
    ask (pair_register (members "000000" "key" "phone" ""))
    ∷ ask pair_code
    ∷ ask (pair_register no_object)
    ∷ ask (pair_revoke (members "" "" "" "k1"))
    ∷ ask (pair_register (members "000001" "key" "phone" ""))
    ∷ []

passed-bounds_example :
    (passed setup "10.0.0.7" guesses site ≤ 20)
    × (passed setup "10.0.0.7" guesses (open_site closed_pairing) ≤ 10)
passed-bounds_example = passed-bounds setup 70000 "10.0.0.7" guesses site (
  omega arith,
  omega arith,
  omega arith,
  (
    omega arith,
    omega arith,
    omega arith,
    (
      omega arith,
      omega arith,
      omega arith,
      (omega arith, omega arith, omega arith, (omega arith, omega arith, omega arith, tt)),
    ),
  ),
)

run-remote_example : (run setup guesses site).pairing ≡ closed_pairing
unfolding is_local host
run-remote_example = run-remote setup guesses site (refl, (refl, (refl, (refl, (refl, tt))))) refl
