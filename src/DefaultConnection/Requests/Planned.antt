-- ===== src/DefaultConnection/Requests/Planned.antt =====
-- The plan of crates/netlane-core/src/default_connection.rs against the check after its application:
-- a plan that is written as given passes `Request::verify_after`.
use netlane.Prelude.{
  find-All, find-holds, ℕ, ◌+◌, ◌<◌, Bool, true, false, not, ◌&&◌, List, [], ◌∷◌, map, none, some,
  ◌≡◌, ◌≢◌, refl, sym, ap, subst, ◌∙◌, arith, All, All-map, All-select, All-of_map, any, leb, ◌==◌,
  if◌then◌else◌, inl, inr, Bool-cases, Option-cases, ok, ◌>>=◌,
}
use netlane.DefaultConnection.{Interface, Route, total, Snapshot, Metric, kind_eq}
use netlane.DefaultConnection.Plan.{
  best, interface, matches, planned, by_index, rivals, agrees, is_affected, plan, lowest,
}
use netlane.DefaultConnection.Plan.Valid.{IsRouted, IsLowest, validate_iff}
use netlane.DefaultConnection.Plan.Shape.{IsPlan, plan-IsPlan, affected}
use netlane.DefaultConnection.Plan.Written.{
  Keeps, change_of, set_metric, write_interface, follow, write_route, written, set_metric-Keeps,
  follow-index, by_index-write_some, by_index-write_none, written-IsConsistent,
}
use netlane.DefaultConnection.Plan.Lookup.{
  by_id_of, Selects, Selects-All, unselected, unindexed, found_by_id, found_by_index, plan_of,
  change_of-planned, by_id-write_some,
}
use netlane.DefaultConnection.Plan.Best.{best_wins, lowest-any}
use netlane.DefaultConnection.Requests.{confirm, wins, verify_after}

-- What the check after the operation asks of one change.
abbrev Confirmed : Snapshot → Snapshot → Metric → Type 0
Confirmed s w m =
    (i : Interface) × (j : Interface) × (interface s m.id ≡ ok i)
    × (interface w m.id ≡ ok j)
    × (j.index ≡ i.index)
    × (j.kind ≡ i.kind)
    × (matches m j ≡ true)

kind_eq_refl : (k : _) → kind_eq k k ≡ true
kind_eq_refl k = ground arith

confirm_complete :
    (s w : Snapshot) (ms : List Metric) → All (Confirmed s w) ms → confirm s w ms ≡ ok tt
unfolding confirm
confirm_complete s w [] h = refl
confirm_complete s w (m ∷ ms) ((i, j, a, b, c, d, e), h) =
    let passes : (j.index == i.index && kind_eq j.kind i.kind && matches m j) ≡ true =
      ground (arith, kind_eq_refl i.kind) in
    rw (a, b, passes, confirm, ◌>>=◌) (confirm_complete s w ms h)

set_planned-matches :
    (preferred t : ℕ) (i : Interface)
    → matches (planned preferred t i) (set_metric (some (planned preferred t i)) i) ≡ true
unfolding set_metric
set_planned-matches preferred t i = ground arith

plan_of-if :
    (preferred t : ℕ) (i : Interface) (b : Bool)
    → plan_of preferred t (if b then some i else none)
      ≡ (if b then some (planned preferred t i) else none)
plan_of-if preferred t i true = refl
plan_of-if preferred t i false = refl

wins-same :
    (w : Snapshot) (i j : Interface) (b : Route)
    → Keeps i j
    → i.connected ≡ true
    → b.index ≡ i.index
    → any (λ o. not (o.index == i.index) && leb (total o) (total b)) w.routes ≡ false
    → wins w j (some b) ≡ true
wins-same w i j b k live at alone =
    let beside : any (λ o. not (o.index == j.index) && leb (total o) (total b)) w.routes ≡ false =
      subst (λ n. any (λ o. not (o.index == n) && leb (total o) (total b)) w.routes ≡ false)
        (sym k.same_index) alone in
    ground arith

module _ (s : Snapshot) (preferred : ℕ) (managed : List ℕ) (ms : List Metric)
    (p : IsPlan s preferred managed ms) where
  open p use {
    consistent, selected, present, connected, route_metric, routed, fits, unrivalled, changes,
  }

  abbrev is_chosen : Interface → Bool
  is_chosen = is_affected preferred managed

  -- The change of an interface of the reading is the one planned for it, if it is affected.
  change_of-lem :
      (i : Interface)
      → by_id_of s.interfaces i.id ≡ some i
      → change_of ms i.id ≡ (
          if is_affected preferred managed i
          then some (planned preferred (route_metric + 5) i)
          else none)
  change_of-lem i e =
      let found : Selects is_chosen s.interfaces i =
        find-All (Selects is_chosen s.interfaces) _ s.interfaces i
          (Selects-All is_chosen s.interfaces consistent.distinct) e in
      ap (λ x. change_of x i.id) changes
      ∙ change_of-planned preferred (route_metric + 5) i.id (affected s preferred managed)
      ∙ ap (plan_of preferred (route_metric + 5)) found
      ∙ plan_of-if preferred (route_metric + 5) i (is_affected preferred managed i)

  present_by_id : by_id_of s.interfaces preferred ≡ some selected
  present_by_id = elim (Option-cases (by_id_of s.interfaces preferred)) [
    | inl e ↦ ground arith
    | inr (i, e) ↦ ground arith
  ]

  found_id :
      (n : ℕ) (i : Interface)
      → by_id_of s.interfaces n ≡ some i
      → by_id_of s.interfaces i.id ≡ some i
  found_id n i e =
      find-All (λ j. by_id_of s.interfaces j.id ≡ some j) _ s.interfaces i
        (found_by_id s.interfaces consistent.distinct) e

  selected-id : (selected.id == preferred) ≡ true
  selected-id = find-holds (λ j. j.id == preferred) s.interfaces selected present_by_id

  selected-change : change_of ms selected.id ≡ some (planned preferred (route_metric + 5) selected)
  selected-change =
      change_of-lem selected (found_id preferred selected present_by_id) ∙ rw selected-id refl

  -- The preferred interface gets the metric 5.
  selected-metric : (write_interface ms selected).metric ≡ 5
  unfolding set_metric
  selected-metric = rw (selected-change, set_metric) (rw selected-id refl)

  selected-by_index : by_index s.interfaces selected.index ≡ some selected
  selected-by_index =
      find-All (λ j. by_index s.interfaces j.index ≡ some j) _ s.interfaces selected
        (found_by_index s.interfaces consistent.distinct) present_by_id

  -- Another affected interface gets the metric of the preferred one's total and 50 more.
  other-metric :
      (n : ℕ) (i : Interface)
      → by_index s.interfaces n ≡ some i
      → is_affected preferred managed i ≡ true
      → n ≢ selected.index
      → (write_interface ms i).metric ≡ route_metric + 5 + 50
  unfolding set_metric
  other-metric n i e chosen ne = elim (Bool-cases (i.id == preferred)) [
    | inl it ↦
        let j : i.id ≡ preferred = ground arith in
        let twice : by_id_of s.interfaces preferred ≡ some i =
          subst (λ x. by_id_of s.interfaces x ≡ some i) j found in
        let one : some selected ≡ some i = sym present_by_id ∙ twice in
        let same : selected ≡ i = cc in
        let hit = find-holds (λ k. k.index == n) s.interfaces i e in
        absurd (ne (ground (arith, ap (λ k. k.index) same)))
    | inr other ↦ rw (change, set_metric) (rw other (omega (arith, fits)))
  ]
    where
      found : by_id_of s.interfaces i.id ≡ some i
      found =
          find-All (λ j. by_id_of s.interfaces j.id ≡ some j) _ s.interfaces i
            (found_by_id s.interfaces consistent.distinct) e

      change : change_of ms i.id ≡ some (planned preferred (route_metric + 5) i)
      change = change_of-lem i found ∙ rw chosen refl

  unaffected-kept :
      (n : ℕ) (i : Interface)
      → by_index s.interfaces n ≡ some i
      → is_affected preferred managed i ≡ false
      → write_interface ms i ≡ i
  unfolding set_metric
  unaffected-kept n i e spared =
      let found =
        find-All (λ j. by_id_of s.interfaces j.id ≡ some j) (λ j. j.index == n) s.interfaces i
          (found_by_id s.interfaces consistent.distinct) e in
      let change : change_of ms i.id ≡ none = change_of-lem i found ∙ rw spared refl in
      rw (change, set_metric)

  route_far :
      (r : Route)
      → IsRouted s.interfaces r
      → rivals (affected s preferred managed) (route_metric + 5) r ≡ false
      → r.index ≢ selected.index
      → route_metric + 5 < total (write_route (map (write_interface ms) s.interfaces) r)
  unfolding follow
  route_far r h k ne = elim (Option-cases (by_index s.interfaces r.index)) [
    | inl e ↦
        let alone = unindexed is_chosen s.interfaces r.index e in
        rw (by_index-write_none ms s.interfaces r.index e, follow) (ground (arith, alone))
    | inr (i, e) ↦
        rw (by_index-write_some ms s.interfaces r.index i e, follow)
          (elim (Bool-cases (is_affected preferred managed i)) [
            | inl chosen ↦ rw (other-metric r.index i e chosen ne) (omega arith)
            | inr spared ↦
                let alone =
                  unselected is_chosen s.interfaces r.index i consistent.distinct e spared in
                let agree : agrees r (some i) ≡ true = rw e at h.2 in
                rw (unaffected-kept r.index i e spared) (ground (arith, alone))
          ])
  ]

  routes_far :
      (rs : List Route)
      → All (IsRouted s.interfaces) rs
      → any (rivals (affected s preferred managed) (route_metric + 5)) rs ≡ false
      → All
          (λ r. r.index ≢ selected.index → route_metric + 5 < total r)
          (map (write_route (map (write_interface ms) s.interfaces)) rs)
  routes_far [] h k = tt
  routes_far (r ∷ rs) h k =
      let here : rivals (affected s preferred managed) (route_metric + 5) r ≡ false =
        ground arith in
      let later : any (rivals (affected s preferred managed) (route_metric + 5)) rs ≡ false =
        ground arith in
      (
        (λ ne. route_far r h.0 here (λ e.
            ne (follow-index ms r (by_index (map (write_interface ms) s.interfaces) r.index) ∙ e))),
        routes_far rs h.1 later,
      )

  route_near :
      (rs : List Route)
      → any (λ r. r.index == selected.index && r.route_metric == route_metric) rs ≡ true
      → any
          (λ r. r.index == selected.index && leb (total r) (route_metric + 5))
          (map (write_route (map (write_interface ms) s.interfaces)) rs)
        ≡ true
  unfolding follow
  route_near [] h = cc
  route_near (r ∷ rs) h =
      elim (Bool-cases (r.index == selected.index && r.route_metric == route_metric)) [
        | inl hit ↦
            let same : selected.index ≡ r.index = ground arith in
            let at = subst (λ n. by_index s.interfaces n ≡ some selected) same selected-by_index in
            rw (by_index-write_some ms s.interfaces r.index selected at, follow, selected-metric)
              (ground arith)
        | inr miss ↦ ground (arith, route_near rs)
      ]

  plan-wins : wins (written s ms) (write_interface ms selected) (best (written s ms).routes) ≡ true
  unfolding written
  plan-wins =
      let k = set_metric-Keeps (change_of ms selected.id) selected in
      let lowest_is : lowest s.routes selected.index ≡ some route_metric =
        sym (selected-IsLowest connected) ∙ routed in
      let (b, e, at, alone) =
        best_wins (route_metric + 5) selected.index
          (map (write_route (map (write_interface ms) s.interfaces)) s.routes)
          (route_near s.routes (lowest-any selected.index route_metric s.routes lowest_is))
          (routes_far s.routes consistent.routed unrivalled) in
      rw e (wins-same (written s ms) selected (write_interface ms selected) b k connected at alone)
    where
      selected-IsLowest : IsLowest s.routes selected
      selected-IsLowest =
          find-All (IsLowest s.routes) (λ j. j.id == preferred) s.interfaces selected
            consistent.lowests present_by_id

  plan-Confirmed : All (Confirmed s (written s ms)) ms
  unfolding written
  plan-Confirmed = subst (All (Confirmed s (written s ms))) (sym changes) (
      All-of_map (Confirmed s (written s ms)) (planned preferred (route_metric + 5))
        (affected s preferred managed)
        (All-map _ (λ i. Confirmed s (written s ms) (planned preferred (route_metric + 5) i)) _ one
          (All-select (λ i. by_id_of s.interfaces i.id ≡ some i) is_chosen s.interfaces
            (found_by_id s.interfaces consistent.distinct))))
    where
      one :
          (i : Interface)
          → (by_id_of s.interfaces i.id ≡ some i) × (is_affected preferred managed i ≡ true)
          → Confirmed s (written s ms) (planned preferred (route_metric + 5) i)
      one i (found, chosen) =
          let k = set_metric-Keeps (change_of ms i.id) i in
          let change : change_of ms i.id ≡ some (planned preferred (route_metric + 5) i) =
            change_of-lem i found ∙ rw chosen refl in
          (
            i,
            write_interface ms i,
            rw found,
            rw (by_id-write_some ms s.interfaces i.id i found),
            k.same_index,
            k.same_kind,
            rw change (set_planned-matches preferred (route_metric + 5) i),
          )

  written-present : interface (written s ms) preferred ≡ ok (write_interface ms selected)
  unfolding written
  written-present = rw (by_id-write_some ms s.interfaces preferred selected present_by_id)

-- A plan that the system carries out as written passes the check that follows the operation: the
-- reading is valid, every change is confirmed, and the preferred interface is the best default route
-- with no rival.
pub plan-verify_after :
    (s : Snapshot) (preferred : ℕ) (managed : List ℕ) (ms : List Metric)
    → plan s preferred managed ≡ ok ms
    → verify_after
        (record { expected = s; changes = ms; preferred_interface = some preferred })
        (written s ms)
      ≡ ok tt
unfolding verify_after
plan-verify_after s preferred managed ms h =
    let p = plan-IsPlan s preferred managed ms h in
    let valid = (validate_iff (written s ms)).1 (written-IsConsistent ms s p.consistent) in
    let confirms = confirm_complete s (written s ms) ms (plan-Confirmed s preferred managed ms p) in
    let there : interface (written s ms) preferred ≡ ok (write_interface ms p.selected) =
      written-present s preferred managed ms p in
    rw (valid, confirms, there, plan-wins s preferred managed ms p, verify_after, ◌>>=◌)
