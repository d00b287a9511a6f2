-- ===== src/DefaultConnection/Plan/Valid.antt =====
-- What `Snapshot::validate` of crates/netlane-core/src/default_connection.rs accepts.
use netlane.Prelude.{
  ℕ, ◌≤◌, true, false, not, ◌&&◌, List, [], ◌∷◌, Option, ◌≡◌, ◌≢◌, ◌↔◌, refl, arith, All, All-map,
  length, contains, leb, ◌==◌, text, ok, ensure, ensure-eq-ok, >>=-eq-ok,
}
use netlane.DefaultConnection.{Interface, Route, Snapshot, option_nat_eq}
use netlane.DefaultConnection.Plan.{
  limit, valid_name, check_interfaces, by_index, agrees, check_routes, lowest, check_minimums,
  validate,
}

-- No later interface has the identifier or the index of an earlier one.
abbrev pub Apart : Interface → Interface → Type 0
Apart i j = (i.id ≢ j.id) × (i.index ≢ j.index)

abbrev pub Distinct : List Interface → Type 0
Distinct [] = Unit
Distinct (i ∷ is) = All (Apart i) is × Distinct is

abbrev pub IsNamed : Interface → Type 0
IsNamed i = (i.id ≢ 0) × (i.index ≢ 0) × (valid_name i.name ≡ true)

-- A route by an interface of the reading leaves by a connected one, at that interface's metric.
abbrev pub IsRouted : List Interface → Route → Type 0
IsRouted is r = (r.index ≢ 0) × (valid_name r.name ≡ true) × (agrees r (by_index is r.index) ≡ true)

-- A connected interface has the metric of its best default route.
abbrev pub IsLowest : List Route → Interface → Type 0
IsLowest rs i = i.connected ≡ true → i.default_route_metric ≡ lowest rs i.index

pub record IsConsistent (s : Snapshot) : Type 0 where
  pub few_interfaces : length s.interfaces ≤ 64
  pub few_routes : length s.routes ≤ 256
  pub named : All IsNamed s.interfaces
  pub distinct : Distinct s.interfaces
  pub routed : All (IsRouted s.interfaces) s.routes
  pub lowests : All (IsLowest s.routes) s.interfaces

option_nat_eq_sound : (a b : Option ℕ) → option_nat_eq a b ≡ true → a ≡ b
option_nat_eq_sound a b h = ground arith

option_nat_eq_refl : (a : Option ℕ) → option_nat_eq a a ≡ true
option_nat_eq_refl a = ground arith

abbrev Unseen : List ℕ → List ℕ → Interface → Type 0
Unseen ids indices i = (contains ids i.id ≡ false) × (contains indices i.index ≡ false)

Unseen-later :
    (ids indices : List ℕ) (i j : Interface)
    → Unseen (i.id ∷ ids) (i.index ∷ indices) j
    → Apart i j × Unseen ids indices j
Unseen-later ids indices i j h = ground arith

Unseen-now :
    (ids indices : List ℕ) (i : Interface) (js : List Interface)
    → All (Apart i) js
    → All (Unseen ids indices) js
    → All (Unseen (i.id ∷ ids) (i.index ∷ indices)) js
Unseen-now ids indices i [] a u = tt
Unseen-now ids indices i (j ∷ js) a u =
    let rest = Unseen-now ids indices i js a.1 u.1 in ground arith

check_interfaces_sound :
    (ids indices : List ℕ) (is : List Interface)
    → check_interfaces ids indices is ≡ ok tt
    → All IsNamed is × Distinct is × All (Unseen ids indices) is
unfolding check_interfaces
check_interfaces_sound ids indices [] h = (tt, tt, tt)
check_interfaces_sound ids indices (i ∷ is) h =
    let tested =
      ensure-eq-ok
        (not (i.id == 0)
          && not (i.index == 0)
          && valid_name i.name
          && not (contains ids i.id)
          && not (contains indices i.index))
        (text "Inventário de conexões inválido.") first.1 in
    let (n, d, u) = check_interfaces_sound (i.id ∷ ids) (i.index ∷ indices) is first.2 in
    let apart =
      All-map _ (λ j. Apart i j × Unseen ids indices j) is (Unseen-later ids indices i) u in
    (
      (ground arith, n),
      (All-map _ (Apart i) is (λ j h. h.0) apart, d),
      ((ground arith, ground arith), All-map _ (Unseen ids indices) is (λ j h. h.1) apart),
    )
  where
    first :
        (v : Unit {0}) × (ensure
            (not (i.id == 0)
              && not (i.index == 0)
              && valid_name i.name
              && not (contains ids i.id)
              && not (contains indices i.index))
            (text "Inventário de conexões inválido.")
          ≡ ok v)
        × (check_interfaces (i.id ∷ ids) (i.index ∷ indices) is ≡ ok tt)
    first = >>=-eq-ok _ _ h

check_interfaces_complete :
    (ids indices : List ℕ) (is : List Interface)
    → All IsNamed is
    → Distinct is
    → All (Unseen ids indices) is
    → check_interfaces ids indices is ≡ ok tt
unfolding check_interfaces
check_interfaces_complete ids indices [] n d u = refl
check_interfaces_complete ids indices (i ∷ is) n d u =
    let rest =
      check_interfaces_complete (i.id ∷ ids) (i.index ∷ indices) is n.1 d.1
        (Unseen-now ids indices i is d.0 u.1) in
    ground arith

check_routes_iff :
    (is : List Interface) (rs : List Route) → (check_routes is rs ≡ ok tt) ↔ All (IsRouted is) rs
unfolding check_routes
check_routes_iff is [] = (λ h. tt, λ h. refl)
check_routes_iff is (r ∷ rs) =
    ground (arith, (check_routes_iff is rs).0, (check_routes_iff is rs).1)

check_minimums_iff :
    (rs : List Route) (is : List Interface) → (check_minimums rs is ≡ ok tt) ↔ All (IsLowest rs) is
unfolding check_minimums
check_minimums_iff rs [] = (λ h. tt, λ h. refl)
check_minimums_iff rs (i ∷ is) = ground (
  arith,
  (check_minimums_iff rs is).0,
  (check_minimums_iff rs is).1,
  option_nat_eq_sound i.default_route_metric (lowest rs i.index),
  option_nat_eq_refl i.default_route_metric,
)

Unseen-none : (is : List Interface) → All (Unseen [] []) is
Unseen-none [] = tt
Unseen-none (i ∷ is) = ((refl, refl), Unseen-none is)

validate_sound : (s : Snapshot) → validate s ≡ ok tt → IsConsistent s
unfolding validate
validate_sound s h =
    let (_, sizes, h₁) =
      >>=-eq-ok (ensure (leb (length s.interfaces) limit && leb (length s.routes) 256) _) _ h in
    let small =
      ensure-eq-ok (leb (length s.interfaces) limit && leb (length s.routes) 256) _ sizes in
    let (_, interfaces, h₂) = >>=-eq-ok (check_interfaces [] [] s.interfaces) _ h₁ in
    let (_, routes, minimums) = >>=-eq-ok (check_routes s.interfaces s.routes) _ h₂ in
    let (n, d, _) = check_interfaces_sound [] [] s.interfaces interfaces in
    record {
      few_interfaces = ground arith;
      few_routes = ground arith;
      named = n;
      distinct = d;
      routed = (check_routes_iff s.interfaces s.routes).0 routes;
      lowests = (check_minimums_iff s.routes s.interfaces).0 minimums;
    }

validate_complete : (s : Snapshot) → IsConsistent s → validate s ≡ ok tt
unfolding validate
validate_complete s c = ground (
  arith,
  check_interfaces_complete [] [] s.interfaces c.named c.distinct (Unseen-none s.interfaces),
  (check_routes_iff s.interfaces s.routes).1 c.routed,
  (check_minimums_iff s.routes s.interfaces).1 c.lowests,
)

-- A reading is accepted exactly if it is consistent: within the limits, with named interfaces that
-- differ in identifier and index, routes that agree with their interfaces, and connected interfaces
-- that show the metric of their best default route.
pub validate_iff : (s : Snapshot) → (validate s ≡ ok tt) ↔ IsConsistent s
validate_iff s = (validate_sound s, validate_complete s)
