-- ===== src/Pairing/Idle.antt =====
-- A manager that has no code outstanding.
use roboparty_rp_server.Prelude.{◌≡◌, sym, ap, ◌∙◌, String, Option, List, [], string_eq}
use roboparty_rp_server.Prelude.Result.{Result, err}
use roboparty_rp_server.Prelude.Dict.{Dict, get, keys_where, remove_all}
use roboparty_rp_server.Pairing.{
  Entry, App, PairingError, pair_code_invalid, Pairing, Inputs, clean, redeem, register,
}

-- No registration succeeds there, and none changes the manager.
pub register-idle :
    (key_info : String → Option (String × String)) (cut : String → String) (i : Inputs)
    (code public_key device_name : String) (s : Pairing)
    → s.codes ≡ []
    → register key_info cut i code public_key device_name s ≡ (err pair_code_invalid, s)
unfolding register clean redeem keys_where remove_all get
register-idle key_info cut i code public_key device_name s idle =
    let with_codes : Dict String Entry → Pairing = λ codes. record s { codes = codes } in
    let answer : Dict String Entry → Result PairingError (App × List String) × Pairing =
      λ codes. register key_info cut i code public_key device_name (with_codes codes) in
    let kept : with_codes [] ≡ s = sym (ap with_codes idle) in
    ap answer idle ∙ ap (λ s. (err pair_code_invalid, s)) kept
