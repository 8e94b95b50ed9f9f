-- ===== src/Pairing.antt =====
-- auth/pairing.py: `PairingManager`. Clock readings, random codes and time stamps are arguments; the
-- file of apps is what can be read of it. Times are seconds.
pub mod Register
pub mod History
pub mod Idle
mod Tests
use roboparty_rp_server.Prelude.{
  ℕ, ◌+◌, Bool, true, false, ◌&&◌, ◌||◌, not, String, Option, none, some, List, [], ◌∷◌, ltb, leb,
  ◌==◌, string_eq, if◌then◌else◌,
}
use roboparty_rp_server.Prelude.Result.{Result, ok, err}
use roboparty_rp_server.Prelude.Dict.{Dict, get, put, remove, keys_where, remove_all, values}

-- `PairingError` by its code, and an exception from writing the file.
pub data PairingError : Type 0 where
  pair_code_invalid pair_code_locked invalid_public_key not_saved : PairingError

pub record Entry : Type 0 where
  pub expires : ℕ
  pub attempts : ℕ

pub record App : Type 0 where
  pub app_key_id : String
  pub public_key : String
  pub device_name : String
  pub scopes : List String
  pub created_at : String
  pub revoked : Bool
  pub revoked_at : Option String
  pub revoked_reason : Option String
  pub replaced_by : Option String

-- `apps` is `none` where the file is missing or does not hold a JSON object.
pub record Pairing : Type 0 where
  pub ttl : ℕ
  pub single_owner : Bool
  pub preserve_admin : Bool
  pub codes : Dict String Entry
  pub apps : Option (Dict String App)

-- What one call meets: the clock, the time stamp, and whether the file is written.
pub record Inputs : Type 0 where
  pub now : ℕ
  pub stamp : String
  pub saves : Bool

-- `PairingManager(...)` over a file of apps.
pub create : ℕ → Bool → Bool → Option (Dict String App) → Pairing
create ttl single_owner preserve_admin apps = record {
  ttl = ttl;
  single_owner = single_owner;
  preserve_admin = preserve_admin;
  codes = [];
  apps = apps;
}

abbrev pub max_attempts : ℕ
max_attempts = 3

abbrev pub default_scopes : List String
default_scopes = "read" ∷ "control" ∷ []

unfoldable pub contains_word : List String → String → Bool
contains_word [] w = false
contains_word (v ∷ vs) w = v == w || contains_word vs w

pub entry_expired : ℕ → Entry → Bool
entry_expired now e = ltb e.expires now

pub clean : ℕ → Pairing → Pairing
unfolding entry_expired
clean now s = record s { codes = remove_all (keys_where (entry_expired now) s.codes) s.codes }

-- The code is random; the clock is read once more for its end.
pub generate_code : String → ℕ → ℕ → Pairing → Pairing
unfolding clean
generate_code code now later s =
    let cleaned = clean now s in
    record cleaned {
      codes = put cleaned.codes code (record { expires = later + s.ttl; attempts = 0 });
    }

pub load_apps : Option (Dict String App) → Dict String App
load_apps none = []
load_apps (some apps) = apps

-- Whether a new owner leaves the app as it is.
pub keeps : Bool → String → String → App → Bool
unfolding contains_word
keeps preserve_admin key_id other_id other =
    (other_id == key_id || other.revoked) || (preserve_admin && contains_word other.scopes "admin")

pub replaced_app : String → String → App → App
replaced_app stamp key_id other = record other {
  revoked = true;
  revoked_at = some stamp;
  revoked_reason = some "replaced-by-new-pairing";
  replaced_by = some key_id;
}

-- The loop over the apps, with the ids that it replaced.
pub replace_others : Bool → String → String → Dict String App → List String × Dict String App
unfolding keeps replaced_app
replace_others preserve_admin stamp key_id [] = ([], [])
replace_others preserve_admin stamp key_id ((other_id, other) ∷ apps) =
    let (ids, rest) = replace_others preserve_admin stamp key_id apps in
    if keeps preserve_admin key_id other_id other
    then (ids, (other_id, other) ∷ rest)
    else (other_id ∷ ids, (other_id, replaced_app stamp key_id other) ∷ rest)

-- `key_info` is `_key_info` (the id and the normal form of a key), `cut` the slice `[:80]`.
module _ (key_info : String → Option (String × String)) (cut : String → String) where
  pub new_app : String → String → String → String → App
  new_app stamp key_id normalized device_name = record {
    app_key_id = key_id;
    public_key = normalized;
    device_name = cut device_name;
    scopes = default_scopes;
    created_at = stamp;
    revoked = false;
    revoked_at = none;
    revoked_reason = none;
    replaced_by = none;
  }

  pub store_app :
      Inputs
      → String
      → String
      → Option (String × String)
      → Pairing
      → Result PairingError (App × List String) × Pairing
  unfolding new_app replace_others load_apps
  store_app i code device_name none s = (err invalid_public_key, s)
  store_app i code device_name (some (key_id, normalized)) s =
      let (replaced, apps) =
        (if s.single_owner
          then replace_others s.preserve_admin i.stamp key_id (load_apps s.apps)
          else ([], load_apps s.apps)) in
      let app = new_app i.stamp key_id normalized device_name in
      if i.saves
      then (
        ok (app, replaced),
        record s { apps = some (put apps key_id app); codes = remove s.codes code },
      )
      else (err not_saved, s)

  pub redeem :
      Inputs
      → String
      → String
      → String
      → Option Entry
      → Pairing
      → Result PairingError (App × List String) × Pairing
  unfolding store_app
  redeem i code public_key device_name none s = (err pair_code_invalid, s)
  redeem i code public_key device_name (some e) s =
      if leb max_attempts e.attempts
      then (err pair_code_locked, record s { codes = remove s.codes code })
      else store_app i code device_name (key_info public_key)
          (record s { codes = put s.codes code (record e { attempts = e.attempts + 1 }) })

  pub register :
      Inputs
      → String
      → String
      → String
      → Pairing
      → Result PairingError (App × List String) × Pairing
  unfolding redeem clean
  register i code public_key device_name s =
      let cleaned = clean i.now s in
      redeem i code public_key device_name (get cleaned.codes code) cleaned

unfoldable pub get_app : String → Pairing → Option App
unfolding load_apps
get_app id s = get (load_apps s.apps) id

pub list_apps : Pairing → List App
unfolding load_apps
list_apps s = values (load_apps s.apps)

revoke_found : Inputs → String → Option App → Pairing → Option Bool × Pairing
unfolding load_apps
revoke_found i id none s = (some false, s)
revoke_found i id (some app) s =
    if i.saves
    then (
      some true,
      record s {
        apps =
            some (
              put (load_apps s.apps) id (record app { revoked = true; revoked_at = some i.stamp }));
      },
    )
    else (none, s)

-- `none` is the exception from writing the file.
pub revoke : Inputs → String → Pairing → Option Bool × Pairing
unfolding revoke_found get_app
revoke i id s = revoke_found i id (get_app id s) s

-- The calls that change the state: a new code (with the readings of the clock), a registration, a
-- revocation.
pub data Call : Type 0 where
  generates : String → ℕ → ℕ → Call
  registers : Inputs → String → String → String → Call
  revokes : Inputs → String → Call

module _ (key_info : String → Option (String × String)) (cut : String → String) where
  pub step : Call → Pairing → Pairing
  unfolding generate_code register revoke
  step (generates code now later) s = generate_code code now later s
  step (registers i code public_key device_name) s =
      (register key_info cut i code public_key device_name s).1
  step (revokes i id) s = (revoke i id s).1

  pub run : List Call → Pairing → Pairing
  run [] s = s
  run (call ∷ calls) s = run calls (step call s)
