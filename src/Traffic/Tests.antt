-- ===== src/Traffic/Tests.antt =====
-- Runs of crates/netlane-core/src/traffic.rs, with rounded-down numbers for `f64`.
use netlane.Prelude.{
  ℕ, ◌*◌, ◌/◌, ◌≤◌, true, List, [], ◌∷◌, Option, none, some, text, str_eq, ◌≡◌, refl, find, arith,
}
use netlane.Model.{Adapter}
use netlane.Traffic.{Floats, fresh, step, sample, max_u64, saturating_add}
use netlane.Traffic.Totals.{run, total, received_since, sent_since, Round, run-totals}
use netlane.Traffic.Tracked.{get, or_fresh, get-sample}

abbrev whole : Floats ℕ
whole = record {
  from_u64 = λ n. n;
  as_secs = λ n. n / 1000000000;
  mul = λ a b. a * b;
  div = λ a b. a / b;
}

abbrev counted : Option ℕ → Adapter
counted received = record {
  id = text "7a";
  name = text "Cabo";
  kind = text "Ethernet";
  addresses = [];
  connected = true;
  has_gateway = true;
  luid = 42;
  ipv4 = true;
  ipv6 = true;
  received = received;
  sent = some 0;
}

-- A reset counter at the third round, a late reading at the fifth.
abbrev rounds : List Round
rounds =
    (1000000000, counted (some 1000000))
    ∷ (2000000000, counted (some 6000000))
    ∷ (3000000000, counted (some 10))
    ∷ (4000000000, counted (some 30))
    ∷ (15000000000, counted (some 90))
    ∷ []

run-rounds : (run whole (fresh whole) rounds).received ≡ 5000020
unfolding fresh step
run-rounds = refl

fresh-received : (fresh whole).received ≤ max_u64
unfolding fresh
fresh-received = omega arith

fresh-sent : (fresh whole).sent ≤ max_u64
unfolding fresh
fresh-sent = omega arith

run-totals_example :
    ((run whole (fresh whole) rounds).received
      ≡ saturating_add (fresh whole).received (total received_since (fresh whole).previous rounds))
    × ((run whole (fresh whole) rounds).sent
        ≡ saturating_add (fresh whole).sent (total sent_since (fresh whole).previous rounds))
run-totals_example = run-totals whole rounds (fresh whole) fresh-received fresh-sent

get-sample_example :
    get whole
      (sample whole 5
        (counted (some 4) ∷ [])
        ((text "7a", fresh whole) ∷ (text "b", fresh whole) ∷ []))
      (text "b")
    ≡ elim (find (λ a. str_eq a.id (text "b")) (counted (some 4) ∷ [])) [
      | none ↦ none
      | some a ↦ some (
          step whole 5 a (
            or_fresh whole
              (get whole ((text "7a", fresh whole) ∷ (text "b", fresh whole) ∷ []) (text "b"))))
    ]
get-sample_example =
    get-sample whole 5 (counted (some 4) ∷ [])
      ((text "7a", fresh whole) ∷ (text "b", fresh whole) ∷ []) (text "b") (tt, tt)
