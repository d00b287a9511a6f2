-- ===== src/DefaultConnection/Plan/Written.antt =====
-- The reading that a system gives once a list of priorities is written, as the interface of
-- `Settings` in crates/netlane-core/src/default_connection.rs describes a write: the active and the
-- saved priority of each interface named are the written ones, and the routes follow.
use netlane.Prelude.{
  ℕ, true, List, [], ◌∷◌, map, Option, none, some, ◌≡◌, refl, ap, arith, All, length-map, find,
  ◌==◌, if◌then◌else◌, inl, inr, Bool-cases, Option-cases,
}
use netlane.DefaultConnection.{Interface, Route, Snapshot, Metric}
use netlane.DefaultConnection.Plan.{by_index, agrees, lowest}
use netlane.DefaultConnection.Plan.Valid.{
  Apart, Distinct, IsNamed, IsRouted, IsLowest, IsConsistent,
}

abbrev pub change_of : List Metric → ℕ → Option Metric
change_of ms n = find (λ m. m.id == n) ms

-- Under an automatic metric Windows chooses the active value; it is left as it was.
unfoldable pub set_metric : Option Metric → Interface → Interface
set_metric none i = i
set_metric (some m) i = record i {
  automatic_metric = m.automatic_metric;
  metric = if m.automatic_metric then i.metric else m.metric;
  saved_metric = if m.automatic_metric then none else some m.metric;
}

abbrev pub write_interface : List Metric → Interface → Interface
write_interface ms i = set_metric (change_of ms i.id) i

unfoldable pub follow : Route → Option Interface → Route
follow r none = r
follow r (some i) = record r { interface_metric = i.metric }

abbrev pub write_route : List Interface → Route → Route
write_route is r = follow r (by_index is r.index)

unfoldable pub written : Snapshot → List Metric → Snapshot
written s ms = record {
  interfaces = map (write_interface ms) s.interfaces;
  routes = map (write_route (map (write_interface ms) s.interfaces)) s.routes;
}

-- What a write leaves alone.
pub record Keeps (i j : Interface) : Type 0 where
  pub same_id : j.id ≡ i.id
  pub same_index : j.index ≡ i.index
  pub same_name : j.name ≡ i.name
  pub same_kind : j.kind ≡ i.kind
  pub same_connected : j.connected ≡ i.connected
  pub same_default : j.default_route_metric ≡ i.default_route_metric

pub set_metric-Keeps : (o : Option Metric) (i : Interface) → Keeps i (set_metric o i)
unfolding set_metric
set_metric-Keeps none i = record {
  same_id = refl;
  same_index = refl;
  same_name = refl;
  same_kind = refl;
  same_connected = refl;
  same_default = refl;
}
set_metric-Keeps (some m) i = record {
  same_id = refl;
  same_index = refl;
  same_name = refl;
  same_kind = refl;
  same_connected = refl;
  same_default = refl;
}

module _ (ms : List Metric) where
  pub by_index-write_some :
      (is : List Interface) (n : ℕ) (i : Interface)
      → by_index is n ≡ some i
      → by_index (map (write_interface ms) is) n ≡ some (write_interface ms i)
  by_index-write_some [] n i h = cc
  by_index-write_some (j ∷ is) n i h =
      let k = (set_metric-Keeps (change_of ms j.id) j).same_index in
      elim (Bool-cases (j.index == n)) [
        | inl hit ↦
            let e : j ≡ i = ground arith in simp (k, hit) (ap (λ x. some (write_interface ms x)) e)
        | inr miss ↦ simp (k, miss) (by_index-write_some is n i (ground arith))
      ]

  pub by_index-write_none :
      (is : List Interface) (n : ℕ)
      → by_index is n ≡ none
      → by_index (map (write_interface ms) is) n ≡ none
  by_index-write_none [] n h = refl
  by_index-write_none (j ∷ is) n h =
      let k = (set_metric-Keeps (change_of ms j.id) j).same_index in
      elim (Bool-cases (j.index == n)) [
        | inl hit ↦ ground arith
        | inr miss ↦ simp (k, miss) (by_index-write_none is n (ground arith))
      ]

  write-IsNamed : (is : List Interface) → All IsNamed is → All IsNamed (map (write_interface ms) is)
  write-IsNamed [] h = tt
  write-IsNamed (i ∷ is) h =
      let k = set_metric-Keeps (change_of ms i.id) i in ((ground arith), write-IsNamed is h.1)

  write-Apart :
      (i : Interface) (js : List Interface)
      → All (Apart i) js
      → All (Apart (write_interface ms i)) (map (write_interface ms) js)
  write-Apart i [] h = tt
  write-Apart i (j ∷ js) h =
      let k = set_metric-Keeps (change_of ms i.id) i in
      let l = set_metric-Keeps (change_of ms j.id) j in (ground arith, write-Apart i js h.1)

  write-Distinct : (is : List Interface) → Distinct is → Distinct (map (write_interface ms) is)
  write-Distinct [] h = tt
  write-Distinct (i ∷ is) h = (write-Apart i is h.0, write-Distinct is h.1)

  pub follow-index : (r : Route) (o : Option Interface) → (follow r o).index ≡ r.index
  unfolding follow
  follow-index r none = refl
  follow-index r (some i) = refl

  follow-route_metric :
      (r : Route) (o : Option Interface) → (follow r o).route_metric ≡ r.route_metric
  unfolding follow
  follow-route_metric r none = refl
  follow-route_metric r (some i) = refl

  follow-name : (r : Route) (o : Option Interface) → (follow r o).name ≡ r.name
  unfolding follow
  follow-name r none = refl
  follow-name r (some i) = refl

  pub lowest-write :
      (is : List Interface) (rs : List Route) (n : ℕ)
      → lowest (map (write_route is) rs) n ≡ lowest rs n
  lowest-write is [] n = refl
  lowest-write is (r ∷ rs) n =
      let k = follow-index r (by_index is r.index) in
      let m = follow-route_metric r (by_index is r.index) in
      elim (Bool-cases (r.index == n)) [
        | inl hit ↦ ground (arith, k, m, lowest-write is rs n)
        | inr miss ↦ simp (k, miss) (lowest-write is rs n)
      ]

  write-IsRouted_one :
      (is : List Interface) (r : Route)
      → IsRouted is r
      → IsRouted (map (write_interface ms) is) (write_route (map (write_interface ms) is) r)
  unfolding follow
  write-IsRouted_one is r h = elim (Option-cases (by_index is r.index)) [
    | inl e ↦ let e' = by_index-write_none is r.index e in rw (e', follow) (h.0, h.1, rw e')
    | inr (i, e) ↦
        let e' = by_index-write_some is r.index i e in
        let k = (set_metric-Keeps (change_of ms i.id) i).same_connected in
        let live : agrees r (some i) ≡ true = rw e at h.2 in
        rw (e', follow) (h.0, h.1, rw e' (ground arith))
  ]

  write-IsLowest_one :
      (is : List Interface) (rs : List Route) (i : Interface)
      → IsLowest rs i
      → IsLowest (map (write_route is) rs) (write_interface ms i)
  write-IsLowest_one is rs i h =
      let k = set_metric-Keeps (change_of ms i.id) i in
      λ c. simp (k.same_default, k.same_index, lowest-write is rs i.index) (h (ground arith))

  write-IsRouted :
      (is : List Interface) (rs : List Route)
      → All (IsRouted is) rs
      → All
          (IsRouted (map (write_interface ms) is))
          (map (write_route (map (write_interface ms) is)) rs)
  write-IsRouted is [] h = tt
  write-IsRouted is (r ∷ rs) h = (write-IsRouted_one is r h.0, write-IsRouted is rs h.1)

  write-lowests :
      (js is : List Interface) (rs : List Route)
      → All (IsLowest rs) is
      → All (IsLowest (map (write_route js) rs)) (map (write_interface ms) is)
  write-lowests js [] rs h = tt
  write-lowests js (i ∷ is) rs h = (write-IsLowest_one js rs i h.0, write-lowests js is rs h.1)

  pub written-IsConsistent : (s : Snapshot) → IsConsistent s → IsConsistent (written s ms)
  unfolding written
  written-IsConsistent s c = record {
    few_interfaces = rw length-map c.few_interfaces;
    few_routes = rw length-map c.few_routes;
    named = write-IsNamed s.interfaces c.named;
    distinct = write-Distinct s.interfaces c.distinct;
    routed = write-IsRouted s.interfaces s.routes c.routed;
    lowests = write-lowests (map (write_interface ms) s.interfaces) s.interfaces s.routes c.lowests;
  }
