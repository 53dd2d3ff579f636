-- ===== src/Gateway/Fake.antt =====
-- src/modules/orders/gateway/fake-payment-gateway.ts: the in-memory gateway. Its state is `seq`.
use pastel_marketplace.Base.{ℕ, zero, suc, String, none, some}
use pastel_marketplace.Base.Text.{◌⊕◌, show}
use pastel_marketplace.Base.Result.{ok}
use pastel_marketplace.Gateway.{PaymentGateway}

-- `s.slice(0, n)`
take_chars : ℕ → String → String
take_chars zero s = String.[]
take_chars (suc n) String.[] = String.[]
take_chars (suc n) (String.◌∷◌ c s) = String.◌∷◌ c (take_chars n s)

unfoldable pub fake_id : String → String → ℕ → String
unfolding take_chars show
fake_id kind order_id seq = kind ⊕ take_chars 8 order_id ⊕ "_" ⊕ show seq

unfoldable pub fake_gateway : PaymentGateway ℕ
unfolding fake_id
fake_gateway = record {
  create_payment_intent = λ p seq. (
    ok (record {
      stripe_pi_id = fake_id "pi_fake_" p.order_id (suc seq);
      client_secret = some (fake_id "pi_fake_" p.order_id (suc seq) ⊕ "_secret");
      status = "requires_confirmation";
    }),
    suc seq,
  );
  confirm_and_capture = λ stripe_pi_id seq. (
    ok (record { stripe_pi_id = stripe_pi_id; client_secret = none; status = "succeeded" }),
    seq,
  );
  cancel_payment_intent = λ stripe_pi_id seq. (ok tt, seq);
  create_transfer = λ p seq. (ok (fake_id "tr_fake_" p.order_id (suc seq)), suc seq);
  refund = λ p seq. (ok (fake_id "re_fake_" p.order_id (suc seq)), suc seq);
}
