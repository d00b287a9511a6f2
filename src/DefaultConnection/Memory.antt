-- ===== src/DefaultConnection/Memory.antt =====
-- A system with a cable and a Wi-Fi adapter, for the tests of
-- crates/netlane-core/src/default_connection.rs and of its clients.
use netlane.Prelude.{ℕ, true, false, List, [], ◌∷◌, none, some, ◌≡◌, refl, ◌+◌, text, len, ok}
use netlane.Prelude.Sorting.{sort_by}
use netlane.DefaultConnection.{Kind, Interface, Snapshot, Metric, Request, Receipt}
use netlane.DefaultConnection.Plan.{plan, validate, validate_metrics, best, valid_name}
use netlane.DefaultConnection.Plan.Written.{written, set_metric, follow}
use netlane.DefaultConnection.Requests.{verify_after, validate_against, rows}
use netlane.DefaultConnection.Apply.{Settings, ordered, apply, attempt, settle}

abbrev pub wired : Interface
wired = record {
  id = 11;
  name = text "Ethernet";
  kind = Kind.cable;
  index = 3;
  connected = true;
  automatic_metric = true;
  metric = 25;
  default_route_metric = some 0;
  saved_metric = none;
}

abbrev pub wireless : Interface
wireless = record wired {
  id = 12;
  name = text "Wi-Fi";
  kind = Kind.wifi;
  index = 7;
  metric = 40;
  default_route_metric = some 10;
}

abbrev pub reading : Snapshot
reading = record {
  interfaces = wired ∷ wireless ∷ [];
  routes =
      record { index = 3; name = text "Ethernet"; interface_metric = 25; route_metric = 0 }
      ∷ record { index = 7; name = text "Wi-Fi"; interface_metric = 40; route_metric = 10 }
      ∷ [];
}

abbrev pub changes : List Metric
changes =
    record { id = 11; automatic_metric = false; metric = 65 }
    ∷ record { id = 12; automatic_metric = false; metric = 5 }
    ∷ []

-- A system that writes what it is told, with a count of the writes.
pub record System : Type 0 where
  pub now : Snapshot
  pub writes : ℕ

abbrev pub system_settings : Settings System
system_settings = record {
  read = λ w. (ok w.now, w);
  write = λ m w. (ok tt, record { now = written w.now (m ∷ []); writes = w.writes + 1 });
  alive = λ w. (true, w);
}

abbrev pub start : System
start = record { now = reading; writes = 0 }

abbrev pub request : Request
request = record { expected = reading; changes = changes; preferred_interface = some 12 }

abbrev pub outcome : Snapshot
outcome =
    (written (written reading ((record { id = 11; automatic_metric = false; metric = 65 }) ∷ []))
      ((record { id = 12; automatic_metric = false; metric = 5 }) ∷ []))

abbrev pub confirmed_receipt : Receipt
confirmed_receipt = record {
  result = record {
    snapshot = outcome;
    success = true;
    detail = text "Conexão padrão IPv4 aplicada. A escolha permanece após fechar o NetLane.";
    rollback_confirmed = false;
  };
  original = wired ∷ wireless ∷ [];
  changes = changes;
}

pub request-applies : (apply system_settings request start).0 ≡ ok confirmed_receipt
unfolding apply validate_against validate validate_metrics plan attempt settle verify_after written
    best set_metric follow ordered rows sort_by valid_name len text
request-applies = refl

pub outcome-valid : validate outcome ≡ ok tt
unfolding validate written set_metric follow valid_name len text
outcome-valid = refl

pub outcome-verified : verify_after request outcome ≡ ok tt
unfolding validate validate_metrics plan verify_after written best set_metric follow ordered rows
    sort_by valid_name len text
outcome-verified = refl
