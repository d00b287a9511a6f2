-- ===== src/DefaultConnection/Plan/Shape.antt =====
-- What a successful `plan` of crates/netlane-core/src/default_connection.rs has checked and returns.
use netlane.Prelude.{
  ℕ, ◌+◌, ◌^◌, ◌<◌, true, false, List, map, some, ◌≡◌, arith, all, any, select, ok, >>=-eq-ok,
  ensure-eq-ok, leb, not, ◌-◌, ensure,
}
use netlane.DefaultConnection.{Interface, Snapshot, Metric}
use netlane.DefaultConnection.Plan.{
  validate, interface, matches, metric_of, is_affected, planned, rivals, plan_for, route_metric_of,
  plan,
}
use netlane.DefaultConnection.Plan.Valid.{IsConsistent, validate_iff}

abbrev pub affected : Snapshot → ℕ → List ℕ → List Interface
affected s preferred managed = select (is_affected preferred managed) s.interfaces

pub record IsPlan (s : Snapshot) (preferred : ℕ) (managed : List ℕ) (ms : List Metric)
    : Type 0 where
  pub consistent : IsConsistent s
  pub selected : Interface
  pub present : interface s preferred ≡ ok selected
  pub connected : selected.connected ≡ true
  pub route_metric : ℕ
  pub routed : selected.default_route_metric ≡ some route_metric
  pub settled : all (λ i. matches (metric_of i) i) (affected s preferred managed) ≡ true
  pub fits : route_metric + 55 < 2 ^ 32
  pub unrivalled : any (rivals (affected s preferred managed) (route_metric + 5)) s.routes ≡ false
  pub changes : ms ≡ map (planned preferred (route_metric + 5)) (affected s preferred managed)

route_metric_of_sound :
    (i : Interface) (n : ℕ)
    → route_metric_of i ≡ ok n
    → (i.connected ≡ true) × (i.default_route_metric ≡ some n)
route_metric_of_sound i n h = ground arith

plan_for_sound :
    (s : Snapshot) (preferred : ℕ) (is : List Interface) (n : ℕ) (ms : List Metric)
    → plan_for s preferred is n ≡ ok ms
    → (all (λ i. matches (metric_of i) i) is ≡ true)
      × (n + 55 < 2 ^ 32)
      × (any (rivals is (n + 5)) s.routes ≡ false)
      × (ms ≡ map (planned preferred (n + 5)) is)
unfolding plan_for
plan_for_sound s preferred is n ms h =
    let (_, a, h₁) = >>=-eq-ok (ensure (all (λ i. matches (metric_of i) i) is) _) _ h in
    let (_, b, h₂) = >>=-eq-ok (ensure (leb (n + 5 + 50) (2 ^ 32 - 1)) _) _ h₁ in
    let (_, c, d) = >>=-eq-ok (ensure (not (any (rivals is (n + 5)) s.routes)) _) _ h₂ in
    let b' = ensure-eq-ok (leb (n + 5 + 50) (2 ^ 32 - 1)) _ b in
    let c' = ensure-eq-ok (not (any (rivals is (n + 5)) s.routes)) _ c in
    (ensure-eq-ok (all (λ i. matches (metric_of i) i) is) _ a, ground arith, ground arith, cc)

-- A plan that is given has made every check of the code, and changes exactly the affected
-- interfaces.
pub plan-IsPlan :
    (s : Snapshot) (preferred : ℕ) (managed : List ℕ) (ms : List Metric)
    → plan s preferred managed ≡ ok ms
    → IsPlan s preferred managed ms
unfolding plan
plan-IsPlan s preferred managed ms h =
    let (_, v, h₁) = >>=-eq-ok (validate s) _ h in
    let (i, there, h₂) = >>=-eq-ok (interface s preferred) _ h₁ in
    let (n, r, h₃) = >>=-eq-ok (route_metric_of i) _ h₂ in
    let (c, d) = route_metric_of_sound i n r in
    let (settled, fits, unrivalled, changes) = plan_for_sound s preferred _ n ms h₃ in
    record {
      consistent = (validate_iff s).0 v;
      selected = i;
      present = there;
      connected = c;
      route_metric = n;
      routed = d;
      settled = settled;
      fits = fits;
      unrivalled = unrivalled;
      changes = changes;
    }
