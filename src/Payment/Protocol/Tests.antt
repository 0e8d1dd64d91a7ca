-- ===== src/Payment/Protocol/Tests.antt =====
-- The three messages at concrete fields.
use xelt_vpn.Prelude.{◌≡◌, refl, [], ◌∷◌, ◌++◌, some, replicate, arith}
use xelt_vpn.Payment.Protocol.Required.{PaymentRequired, Fits, decode-encode_required}
use xelt_vpn.Payment.Protocol.Submit.{PaymentSubmit, decode-encode_submit}
use xelt_vpn.Payment.Protocol

abbrev required : PaymentRequired
required = record {
  amount_usdc = 1_000;
  nonce = replicate 32 7;
  recipient = replicate 20 1;
  deadline = 1_700_000_000;
  chain_id = 84_532;
  usdc_contract = replicate 20 2;
}

abbrev submit : PaymentSubmit
submit = record {
  from = replicate 20 3;
  to = replicate 20 1;
  value = 1_000;
  valid_after = 0;
  valid_before = 1_700_000_000;
  nonce = replicate 32 7;
  v = 27;
  r = replicate 32 4;
  s = replicate 32 5;
}

decode-encode_required_example :
    Protocol.Required.decode (Protocol.Required.encode required ++ (9 ∷ [])) ≡ some required
decode-encode_required_example = decode-encode_required required (9 ∷ []) (record {
  amount_fits = omega arith;
  nonce_fits = refl;
  recipient_fits = refl;
  deadline_fits = omega arith;
  chain_fits = omega arith;
  contract_fits = refl;
})

decode-encode_submit_example :
    Protocol.Submit.decode (Protocol.Submit.encode submit ++ (9 ∷ [])) ≡ some submit
decode-encode_submit_example = decode-encode_submit submit (9 ∷ []) (record {
  from_fits = refl;
  to_fits = refl;
  value_fits = omega arith;
  after_fits = omega arith;
  before_fits = omega arith;
  nonce_fits = refl;
  r_fits = refl;
  s_fits = refl;
})
