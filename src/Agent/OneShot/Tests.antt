-- ===== src/Agent/OneShot/Tests.antt =====
-- Witnesses for crates/netlane-agent/src/default_connection.rs.
use netlane.Prelude.{true, [], ◌∷◌, ◌≡◌, refl, ok}
use netlane.DefaultConnection.{Receipt}
use netlane.DefaultConnection.Requests.{verify_after}
use netlane.DefaultConnection.Apply.{apply}
use netlane.DefaultConnection.Memory.{
  system_settings, start, request, confirmed_receipt, request-applies, outcome-valid,
  outcome-verified,
}
use netlane.Windows.Protocol.{Message}
use netlane.Agent.OneShot.{
  Answers, exchange, Calls, acknowledged, conclude, serve_applied, serve_request, serve,
}
use netlane.Agent.OneShot.Kept.{IsDelivered, exchange-serve, KeptOrReverted, serve-KeptOrReverted}

-- Everything arrives.
abbrev calls : Calls (Unit {0})
calls = record {
  hello_sent = ok tt;
  request = ok (Message.default_apply request);
  result_sent = ok tt;
  ack = ok Message.default_ack;
  finish_sent = ok tt;
}

abbrev answers : Answers (Unit {0})
answers = record {
  greeting = ok (Message.default_hello 1);
  request_sent = ok tt;
  response = ok (Message.default_result confirmed_receipt.result);
  ack_sent = ok tt;
  finish = ok (Message.default_finished true);
}

answers-sent :
    (serve system_settings calls start).sent
    ≡ Message.default_hello 1
      ∷ Message.default_result confirmed_receipt.result
      ∷ Message.default_finished true
      ∷ []
unfolding serve serve_request serve_applied conclude acknowledged
answers-sent =
    rw (request-applies, serve, serve_request, serve_applied, conclude, acknowledged) refl

answers-IsDelivered : IsDelivered request answers calls (serve system_settings calls start).sent
answers-IsDelivered = record {
  request = λ q h. cc;
  response = λ m h. rw answers-sent (cc);
  finish = λ m h. rw answers-sent (cc);
}

answers-accepted : exchange request answers ≡ ok confirmed_receipt.result
unfolding exchange
answers-accepted = rw (outcome-valid, outcome-verified, exchange) refl

exchange-serve_example :
    (receipt : Receipt) × ((apply system_settings request start).0 ≡ ok receipt)
    × (receipt.result ≡ confirmed_receipt.result)
    × ((serve system_settings calls start).system ≡ (apply system_settings request start).1)
    × (confirmed_receipt.result.success ≡ true
        → verify_after request confirmed_receipt.result.snapshot ≡ ok tt)
exchange-serve_example =
    exchange-serve system_settings calls request answers start confirmed_receipt.result
      answers-IsDelivered answers-accepted

serve-KeptOrReverted_example :
    KeptOrReverted system_settings calls confirmed_receipt
      (apply system_settings request start).1
      (serve system_settings calls start)
serve-KeptOrReverted_example =
    serve-KeptOrReverted system_settings calls request start confirmed_receipt refl refl
      request-applies refl
