-- ===== src/DefaultConnection/Requests.antt =====
-- `impl Request` of crates/netlane-core/src/default_connection.rs.
pub mod Planned
use netlane.Prelude.{
  ℕ, Bool, true, false, not, ◌&&◌, ◌||◌, List, [], ◌∷◌, map, Option, none, some, text, any, ltb,
  leb, ◌==◌, Result, ok, ◌>>=◌, ◌>>◌, ensure,
}
use netlane.Prelude.Sorting.{sort_by}
use netlane.DefaultConnection.{
  Interface, Route, total, Snapshot, Metric, Request, kind_eq, option_nat_eq, metrics_eq,
}
use netlane.DefaultConnection.Plan.{
  validate, validate_metrics, best, interface, metric_of, matches, plan,
}
use netlane.Model.{bool_eq}

-- The loop of `Request::verify_after`.
pub confirm : Snapshot → Snapshot → List Metric → Result (Unit {0})
confirm expected after [] = ok tt
confirm expected after (m ∷ ms) =
    (do
      original ← interface expected m.id
      actual ← interface after m.id
      ensure
          (actual.index == original.index && kind_eq actual.kind original.kind && matches m actual)
          (text "O Windows não confirmou a identidade e as prioridades solicitadas."))
    >> confirm expected after ms

-- The interface is connected, and the best route leaves by it with no rival at its total.
abbrev pub wins : Snapshot → Interface → Option Route → Bool
wins after i none = false
wins after i (some r) =
    i.connected
    && r.index == i.index
    && not (any (λ other. not (other.index == i.index) && leb (total other) (total r)) after.routes)

abbrev pub confirm_preferred : Snapshot → Option ℕ → Result (Unit {0})
confirm_preferred after none = ok tt
confirm_preferred after (some preferred) = interface after preferred >>= λ i.
    ensure (wins after i (best after.routes))
      (text "A conexão escolhida não se tornou a rota padrão IPv4.")

-- `Request::verify_after`
unfoldable pub verify_after : Request → Snapshot → Result (Unit {0})
unfolding confirm
verify_after q after = do
  validate after
  confirm q.expected after q.changes
  confirm_preferred after q.preferred_interface

-- The tuples of the routes, in their derived order.
abbrev pub Row : Type 0
Row = ℕ × ℕ × ℕ

abbrev pub row_le : Row → Row → Bool
row_le (a, b, c) (x, y, z) = ltb a x || a == x && (ltb b y || b == y && leb c z)

abbrev pub rows_eq : List Row → List Row → Bool
rows_eq [] [] = true
rows_eq ((a, b, c) ∷ rs) ((x, y, z) ∷ ss) = a == x && b == y && c == z && rows_eq rs ss
rows_eq _ _ = false

-- The closure `routes` of `Request::validate_against`.
unfoldable pub rows : Snapshot → List Row
rows s = sort_by row_le (map (λ r. (r.index, r.interface_metric, r.route_metric)) s.routes)

-- Its loop.
pub unchanged : Snapshot → Snapshot → List Metric → Result (Unit {0})
unchanged actual expected [] = ok tt
unchanged actual expected (m ∷ ms) =
    (do
      a ← interface actual m.id
      e ← interface expected m.id
      ensure
          (a.index == e.index
            && kind_eq a.kind e.kind
            && bool_eq a.connected e.connected
            && option_nat_eq a.default_route_metric e.default_route_metric
            && matches (metric_of e) a)
          (text "A configuração mudou. Atualize a leitura e tente novamente."))
    >> unchanged actual expected ms

abbrev pub by_id : Metric → Metric → Bool
by_id a b = leb a.id b.id

abbrev pub same_plan : Snapshot → List Metric → Option ℕ → Result (Unit {0})
same_plan actual changes none = ok tt
same_plan actual changes (some selected) =
    plan actual selected (map (λ m. m.id) changes) >>= λ expected.
    ensure (metrics_eq (sort_by by_id expected) (sort_by by_id changes))
      (text "Alteração não corresponde à conexão escolhida.")

-- `Request::validate_against`
unfoldable pub validate_against : Request → Snapshot → Result (Unit {0})
unfolding unchanged
validate_against q actual = do
  validate actual
  validate q.expected
  validate_metrics q.changes true
  ensure (rows_eq (rows actual) (rows q.expected))
      (text "As rotas mudaram. Atualize a leitura e tente novamente.")
  unchanged actual q.expected q.changes
  same_plan actual q.changes q.preferred_interface
