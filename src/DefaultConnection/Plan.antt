-- ===== src/DefaultConnection/Plan.antt =====
-- The checks of a reading and the plan of new priorities:
-- crates/netlane-core/src/default_connection.rs.
pub mod Valid
pub mod Shape
pub mod Written
pub mod Lookup
pub mod Best
use netlane.Prelude.{
  ℕ, ◌+◌, ◌-◌, ◌^◌, ◌%◌, Bool, true, false, not, ◌&&◌, ◌||◌, List, [], ◌∷◌, ◌++◌, map, Option, none,
  some, Text, text, len, is_control, length, is_empty, all, any, find, select, contains, ltb, leb,
  ◌==◌, if◌then◌else◌, Result, ok, err, ◌>>=◌, ◌>>◌, ensure, ok_or,
}
use netlane.Model.{bool_eq}
use netlane.DefaultConnection.{Interface, Route, total, Snapshot, Metric, option_nat_eq}

-- `LIMIT`
abbrev pub limit : ℕ
limit = 64

-- The closure `valid_name` of `Snapshot::validate`.
unfoldable pub valid_name : Text → Bool
valid_name s = not (is_empty s) && leb (len s) 1024 && not (any is_control s)

-- The first loop of `Snapshot::validate`, over the identifiers and indices seen so far.
pub check_interfaces : List ℕ → List ℕ → List Interface → Result (Unit {0})
check_interfaces ids indices [] = ok tt
check_interfaces ids indices (i ∷ is) =
    ensure
      (not (i.id == 0)
        && not (i.index == 0)
        && valid_name i.name
        && not (contains ids i.id)
        && not (contains indices i.index))
      (text "Inventário de conexões inválido.")
    >> check_interfaces (i.id ∷ ids) (i.index ∷ indices) is

-- `self.interfaces.iter().find(|i| i.index == r.index)`
abbrev pub by_index : List Interface → ℕ → Option Interface
by_index is n = find (λ i. i.index == n) is

-- The test of a route against the interface that it leaves by.
abbrev pub agrees : Route → Option Interface → Bool
agrees r none = true
agrees r (some i) = i.connected && i.metric == r.interface_metric

-- The second loop.
pub check_routes : List Interface → List Route → Result (Unit {0})
check_routes is [] = ok tt
check_routes is (r ∷ rs) =
    ensure (not (r.index == 0) && valid_name r.name) (text "Rota padrão inválida.")
    >> ensure (agrees r (by_index is r.index))
        (text "Leitura inconsistente da prioridade IPv4. Atualize a leitura.")
    >> check_routes is rs

-- `Iterator::min`
abbrev pub minimum : List ℕ → Option ℕ
minimum [] = none
minimum (n ∷ ns) = elim (minimum ns) [ none ↦ some n | some m ↦ some (if leb n m then n else m) ]

-- The lowest route metric of the routes by one interface.
abbrev pub lowest : List Route → ℕ → Option ℕ
lowest rs n = minimum (map (λ r. r.route_metric) (select (λ r. r.index == n) rs))

-- The third loop.
pub check_minimums : List Route → List Interface → Result (Unit {0})
check_minimums rs [] = ok tt
check_minimums rs (i ∷ is) =
    ensure (not i.connected || option_nat_eq i.default_route_metric (lowest rs i.index))
      (text "Leitura inconsistente das rotas padrão. Atualize a leitura.")
    >> check_minimums rs is

-- `Snapshot::validate`
unfoldable pub validate : Snapshot → Result (Unit {0})
unfolding check_interfaces check_routes check_minimums
validate s = do
  ensure (leb (length s.interfaces) limit && leb (length s.routes) 256)
      (text "Inventário de conexões excede o limite.")
  check_interfaces [] [] s.interfaces
  check_routes s.interfaces s.routes
  check_minimums s.routes s.interfaces

-- `self.routes.iter().min_by_key(|r| r.total())`: the first of the routes with the least total.
unfoldable pub best : List Route → Option Route
best [] = none
best (r ∷ rs) = elim (best rs) [
  | none ↦ some r
  | some q ↦ some (if leb (total r) (total q) then r else q)
]

-- `Snapshot::current_label`
pub current_label : Snapshot → Text
unfolding best
current_label s = elim (best s.routes) [
  | none ↦ text "Sem rota padrão IPv4 disponível"
  | some b ↦
      if any (λ r. not (r.index == b.index) && total r == total b) s.routes
      then text "Prioridades iguais — Windows decide"
      else text "Atual: " ++ b.name
]

-- `Snapshot::interface`
abbrev pub interface : Snapshot → ℕ → Result Interface
interface s n =
    ok_or (find (λ i. i.id == n) s.interfaces)
      (text "Uma interface anterior está indisponível. Reconecte-a antes de continuar.")

-- `Metric::of`
abbrev pub metric_of : Interface → Metric
metric_of i = record { id = i.id; automatic_metric = i.automatic_metric; metric = i.metric }

-- `is_none_or(|m| m == 0)`
abbrev pub unset : Option ℕ → Bool
unset none = true
unset (some n) = n == 0

-- `Metric::matches`
abbrev pub matches : Metric → Interface → Bool
matches m i =
    m.id == i.id
    && bool_eq m.automatic_metric i.automatic_metric
    && (if m.automatic_metric
        then unset i.saved_metric
        else (m.metric == i.metric && option_nat_eq i.saved_metric (some m.metric)))

-- The loop of `validate_metrics`, over the identifiers seen so far.
pub valid_metrics : List ℕ → List Metric → Bool
valid_metrics ids [] = true
valid_metrics ids (m ∷ ms) =
    not (m.id == 0)
    && (m.automatic_metric || ltb 0 m.metric)
    && not (contains ids m.id)
    && valid_metrics (m.id ∷ ids) ms

-- `validate_metrics`
unfoldable pub validate_metrics : List Metric → Bool → Result (Unit {0})
unfolding valid_metrics
validate_metrics ms nonempty =
    ensure (leb (length ms) limit && (not nonempty || not (is_empty ms)) && valid_metrics [] ms)
      (text "Lista de prioridades inválida.")

abbrev pub is_some : Option ℕ → Bool
is_some none = false
is_some (some n) = true

-- The interfaces that a plan changes.
abbrev pub is_affected : ℕ → List ℕ → Interface → Bool
is_affected preferred managed i =
    i.id == preferred || is_some i.default_route_metric || contains managed i.id

-- The change of one interface, by the total that the preferred one will have.
abbrev pub planned : ℕ → ℕ → Interface → Metric
planned preferred t i = record {
  id = i.id;
  automatic_metric = false;
  metric = if i.id == preferred then 5 else (t + 50) % 2 ^ 32;
}

-- The route of another program that would still win.
abbrev pub rivals : List Interface → ℕ → Route → Bool
rivals affected t r = not (any (λ i. i.index == r.index) affected) && leb (total r) t

-- `plan` from `selected` on, once its route metric is known.
pub plan_for : Snapshot → ℕ → List Interface → ℕ → Result (List Metric)
plan_for s preferred affected route_metric = do
  ensure (all (λ i. matches (metric_of i) i) affected) (
      text
        "A prioridade ativa difere da configuração salva no Windows. Essa configuração foi preservada; confira antes de aplicar.")
  ensure (leb (route_metric + 5 + 50) (2 ^ 32 - 1))
      (text "A prioridade dessa rota não pode ser ajustada.")
  ensure (not (any (rivals affected (route_metric + 5)) s.routes)) (
      text
        "Outra conexão, como uma VPN, tem prioridade. Ajuste essa conexão antes de escolher o padrão.")
  ok (map (planned preferred (route_metric + 5)) affected)

abbrev pub route_metric_of : Interface → Result ℕ
route_metric_of i =
    if i.connected
    then ok_or i.default_route_metric
        (text "Conecte a interface escolhida à rede antes de aplicar.")
    else err (text "Conecte a interface escolhida à rede antes de aplicar.")

-- `plan`
unfoldable pub plan : Snapshot → ℕ → List ℕ → Result (List Metric)
unfolding plan_for
plan s preferred managed = do
  validate s
  selected ← interface s preferred
  route_metric ← route_metric_of selected
  plan_for s preferred (select (is_affected preferred managed) s.interfaces) route_metric
