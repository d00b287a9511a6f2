-- ===== src/Quality/Tests.antt =====
-- Runs of crates/netlane-core/src/quality.rs, with whole numbers for `f64`.
use netlane.Prelude.{
  ℕ, ◌+◌, ◌-◌, ◌*◌, ◌/◌, ◌≤◌, true, false, List, [], ◌∷◌, Option, none, some, text, ◌≡◌, refl,
  length, leb, ltb, arith,
}
use netlane.Model.{Adapter}
use netlane.Quality.Window.{Sample, ProbeResult, Outcome, add_sample, Floats, Mode}
use netlane.Quality.Monitor.{Monitor, Target, Identity, Phase, initial, stop, begin, activate}
use netlane.Quality.Window.Bounds.{Ordered, Recent, add_sample-Recent}
use netlane.Quality.Monitor.History.{Reachable}

abbrev whole : Floats ℕ
whole = record {
  from_usize = λ n. n;
  start = 0;
  add = λ a b. a + b;
  sub = λ a b. a - b;
  mul = λ a b. a * b;
  div = λ a b. a / b;
  abs = λ a. a;
  is_finite = λ a. true;
  ge = λ a b. leb b a;
  gt = λ a b. ltb b a;
}

abbrev here : Adapter → Option Identity
here a = some (record { id = a.luid; luid = a.luid; address = 7 })

abbrev dns : Target
dns = record {
  mode = Mode.icmp;
  host = text "1.1.1.1";
  label = text "1.1.1.1";
  port = 0;
  request_path = [];
}

abbrev cable : Adapter
cable = record {
  id = text "7a";
  name = text "Cabo";
  kind = text "Ethernet";
  addresses = [];
  connected = true;
  has_gateway = true;
  luid = 42;
  ipv4 = true;
  ipv6 = false;
  received = none;
  sent = none;
}

abbrev ready : Monitor ℕ
ready = (activate 1 16843009 (begin dns initial).1).1

ready-active : ready.phase ≡ Phase.active
unfolding activate begin stop
ready-active = refl

abbrev reply : ProbeResult ℕ
reply = record {
  outcome = Outcome.success;
  milliseconds = some 12;
  detail = [];
  source = [];
  index = 0;
}

-- The first sample is a minute old when the third arrives.
abbrev kept : List (Sample ℕ)
kept = (1000000000, some 9) ∷ (6000000000, none) ∷ []

add_sample-Recent_example :
    (length (add_sample whole 61000000000 reply kept) ≤ 12)
    × Ordered 61000000000 0 (add_sample whole 61000000000 reply kept)
    × Recent 61000000000 (add_sample whole 61000000000 reply kept)
add_sample-Recent_example =
    add_sample-Recent whole 61000000000 reply kept
      (omega arith, omega arith, (omega arith, omega arith, tt))
