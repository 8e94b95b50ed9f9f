-- ===== src/Pairing/Tests.antt =====
-- One code and two apps: witnesses of the theorems on pairing.
use roboparty_rp_server.Prelude.{
  List, ◌≤◌, ◌<◌, ◌≡◌, refl, true, false, String, Option, none, some, [], ◌∷◌, ◌==◌, string_eq,
  if◌then◌else◌,
}
use roboparty_rp_server.Prelude.Result.{ok}
use roboparty_rp_server.Prelude.Dict.{get, put, remove, keys_where, remove_all, IsDict}
use roboparty_rp_server.Pairing.{
  Call, generates, registers, revokes, generate_code, Entry, App, Pairing, Inputs, max_attempts,
  register, redeem, store_app, new_app, replace_others, keeps, replaced_app, clean, entry_expired,
}
use roboparty_rp_server.Pairing.History.{served, paired, total, total-generate_code}
use roboparty_rp_server.Pairing.Register.{Paired, register_ok}

abbrev info : String → Option (String × String)
info key = if key == "" then none else some (key, key)

abbrev whole : String → String
whole name = name

abbrev met : Inputs
met = record { now = 100; stamp = "noon"; saves = true }

abbrev old_app : App
old_app = record {
  app_key_id = "k1";
  public_key = "k1";
  device_name = "old";
  scopes = "read" ∷ [];
  created_at = "dawn";
  revoked = false;
  revoked_at = none;
  revoked_reason = none;
  replaced_by = none;
}

abbrev open_pairing : Pairing
open_pairing = record {
  ttl = 300;
  single_owner = true;
  preserve_admin = true;
  codes = ("007", record { expires = 400; attempts = 1 }) ∷ [];
  apps = some (("k1", old_app) ∷ []);
}

abbrev paired_app : App
paired_app = record {
  app_key_id = "k2";
  public_key = "k2";
  device_name = "new";
  scopes = "read" ∷ "control" ∷ [];
  created_at = "noon";
  revoked = false;
  revoked_at = none;
  revoked_reason = none;
  replaced_by = none;
}

abbrev replaced_old : App
replaced_old = record old_app {
  revoked = true;
  revoked_at = some "noon";
  revoked_reason = some "replaced-by-new-pairing";
  replaced_by = some "k2";
}

abbrev after : Pairing
after = record open_pairing {
  codes = [];
  apps = some (("k1", replaced_old) ∷ ("k2", paired_app) ∷ []);
}

pairs : register info whole met "007" "k2" "new" open_pairing ≡ (ok (paired_app, "k1" ∷ []), after)
unfolding register redeem store_app new_app replace_others keeps replaced_app clean entry_expired
    get put remove keys_where remove_all
pairs = refl

codes-IsDict : IsDict open_pairing.codes
unfolding get
codes-IsDict = (refl, tt)

register_ok_example :
    (e : Entry) × (get open_pairing.codes "007" ≡ some e)
    × (100 ≤ e.expires)
    × (e.attempts < max_attempts)
    × ((id normalized : String) × (info "k2" ≡ some (id, normalized))
        × Paired info whole met "007" id open_pairing paired_app after)
register_ok_example =
    register_ok info whole met "007" "k2" "new" open_pairing after paired_app ("k1" ∷ [])
      codes-IsDict pairs

-- Three tries with a broken key, and two that come too late.
abbrev history : List Call
history =
    registers met "007" "" "broken"
    ∷ registers met "007" "" "broken"
    ∷ generates "008" 100 100
    ∷ revokes met "k1"
    ∷ registers met "007" "" "broken"
    ∷ registers met "007" "k2" "new"
    ∷ registers met "007" "k2" "new"
    ∷ []

total-generate_code_example :
    (total info whole served "007" history (generate_code "007" 90 90 open_pairing) ≤ 3)
    × (total info whole paired "007" history (generate_code "007" 90 90 open_pairing) ≤ 1)
total-generate_code_example = total-generate_code info whole "007" 90 90 history open_pairing refl
