-- ===== src/Access/Tests.antt =====
-- One app with a token: witnesses of the theorems on access.
use roboparty_rp_server.Prelude.{
  ◌≡◌, ◌≢◌, refl, true, false, String, Option, none, some, [], ◌∷◌, string_eq, arith, eq_iff,
}
use roboparty_rp_server.Prelude.Result.{ok, err}
use roboparty_rp_server.Prelude.Dict.{get}
use roboparty_rp_server.Pairing.{App, Pairing, Inputs, get_app, contains_word, revoke}
use roboparty_rp_server.Access.{
  Claims, AccessPolicy, unauthorized, verify, check_claims, check_app, check_scope, find_app,
  common, has_scope,
}
use roboparty_rp_server.Access.Scopes.{IsAllowed, verify_ok, verify-revoke}

abbrev phone_app : App
phone_app = record {
  app_key_id = "k1";
  public_key = "k1";
  device_name = "phone";
  scopes = "read" ∷ [];
  created_at = "dawn";
  revoked = false;
  revoked_at = none;
  revoked_reason = none;
  replaced_by = none;
}

abbrev pairing : Pairing
pairing = record {
  ttl = 300;
  single_owner = false;
  preserve_admin = true;
  codes = [];
  apps = some (("k1", phone_app) ∷ []);
}

abbrev policy : AccessPolicy
policy = record { has_key = true; service_token = ""; service_scopes = "admin" ∷ [] }

abbrev wide : Claims
wide = record { sub = some "k1"; scope = "read" ∷ "control" ∷ [] }

abbrev narrow : Claims
narrow = record { sub = some "k1"; scope = "read" ∷ [] }

abbrev decode_all : String → Option Claims
decode_all token = some wide

abbrev evening : Inputs
evening = record { now = 100; stamp = "evening"; saves = true }

verified : verify decode_all policy pairing "jwt" "read" ≡ ok narrow
unfolding verify check_claims check_app check_scope find_app common has_scope contains_word get_app
    get
verified = refl

verify_ok_example :
    IsAllowed decode_all policy pairing "jwt" narrow
    × ((◌≢◌ {A = String} "read" "") → has_scope narrow "read" ≡ true)
verify_ok_example = verify_ok decode_all policy pairing "jwt" "read" narrow verified

verify-revoke_example :
    verify decode_all policy (revoke evening "k1" pairing).1 "jwt" "read" ≡ err unauthorized
unfolding get_app get
verify-revoke_example =
    verify-revoke decode_all policy pairing evening "jwt" "read" "k1" phone_app wide refl refl refl
      refl (ground (arith, eq_iff "jwt" ""))
