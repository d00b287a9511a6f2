-- ===== src/DefaultConnection/Journals.antt =====
-- `impl Journal` of crates/netlane-core/src/default_connection.rs.
use netlane.Prelude.{
  ℕ, Bool, true, false, not, ◌&&◌, List, [], ◌∷◌, ◌++◌, map, Option, none, some, text, all, any,
  select, is_empty, ◌==◌, if◌then◌else◌, Result, ok, err, ◌>>=◌, ◌>>◌, ensure,
}
use netlane.Prelude.Sorting.{sort_by}
use netlane.DefaultConnection.{Interface, Snapshot, Metric, Request, Journal}
use netlane.DefaultConnection.Plan.{validate, validate_metrics, interface, metric_of, matches, plan}
use netlane.DefaultConnection.Requests.{by_id}

abbrev pub has_id : ℕ → List Metric → Bool
has_id n = any λ o. o.id == n

-- `Journal::validate`
pub validate_journal : {V : Type 0} → Journal V → Result (Unit {0})
validate_journal j = do
  validate_metrics j.original true
  validate_metrics j.applied false
  validate_metrics j.previous false
  ensure (all (λ m. has_id m.id j.original) (j.applied ++ j.previous))
      (text "Registro de restauração incompleto.")

-- One of the priorities that the journal knows stands on the interface.
abbrev pub is_known : {V : Type 0} → Journal V → Metric → Interface → Bool
is_known j o i = any (λ m. m.id == o.id && matches m i) (j.applied ++ j.previous ++ j.original)

-- The loop of `Journal::check_known`.
pub all_known : {V : Type 0} → Journal V → Snapshot → List Metric → Result (Unit {0})
all_known j s [] = ok tt
all_known j s (o ∷ os) =
    (do
      i ← interface s o.id
      ensure (is_known j o i) (
          text
            "A prioridade foi alterada fora do NetLane. A configuração externa foi preservada; confira antes de restaurar."))
    >> all_known j s os

-- `Journal::check_known`
pub check_known : {V : Type 0} → Journal V → Snapshot → Result (Unit {0})
unfolding all_known
check_known j s = do validate_journal j; validate s; all_known j s j.original

-- `upsert`
unfoldable pub upsert : List Metric → Metric → List Metric
upsert ms m = sort_by by_id (select (λ o. not (o.id == m.id)) ms ++ m ∷ [])

-- The first loop of `Journal::prepare`: what is not recorded yet is.
pub record_all : Snapshot → List Metric → List Metric → Result (List Metric)
record_all s original [] = ok original
record_all s original (c ∷ cs) = interface s c.id >>= λ i.
    record_all s (if has_id c.id original then original else original ++ metric_of i ∷ []) cs

-- The second loop, over `previous` and `applied`.
pub stage_all :
    Snapshot → List Metric → List Metric → List Metric → Result (List Metric × List Metric)
stage_all s previous applied [] = ok (previous, applied)
stage_all s previous applied (c ∷ cs) =
    interface s c.id >>= λ i. stage_all s (upsert previous (metric_of i)) (upsert applied c) cs

abbrev pub check_existing : {V : Type 0} → Option (Journal V) → Snapshot → Result (Unit {0})
check_existing none s = ok tt
check_existing (some j) s = check_known j s

-- `existing.cloned().unwrap_or_default()`
abbrev pub or_default : {V : Type 0} → Option (Journal V) → Journal V
or_default none = record { original = []; applied = []; previous = []; extra = [] }
or_default (some j) = j

-- `Journal::prepare`
pub prepare : {V : Type 0} → Snapshot → ℕ → Option (Journal V) → Result (Journal V × Request)
unfolding record_all stage_all
prepare {V} s preferred existing = do
  check_existing existing s
  let journal : Journal V = or_default existing
  changes ← plan s preferred (map (λ m. m.id) journal.original)
  original ← record_all s journal.original changes
  staged ← stage_all s journal.applied journal.applied changes
  let next = record journal { original = original; applied = staged.1; previous = staged.0 }
  validate_journal next
  ok (next, record { expected = s; changes = changes; preferred_interface = some preferred })

-- The test of the filter of `Journal::restoration`; its `expect` cannot fail after `check_known`.
abbrev pub needs_restoring : Snapshot → Metric → Bool
needs_restoring s m = elim (interface s m.id) [ ok i ↦ not (matches m i) | err e ↦ false ]

-- `Journal::restoration`
pub restoration : {V : Type 0} → Journal V → Snapshot → Result (Option Request)
restoration j s = do
  check_known j s
  let changes = select (needs_restoring s) j.original
  ok (
      if is_empty changes
      then none
      else some (record { expected = s; changes = changes; preferred_interface = none }))

abbrev pub stands : Snapshot → Metric → Bool
stands s m = elim (interface s m.id) [ ok i ↦ matches m i | err e ↦ false ]

-- `Journal::confirmed`
pub confirmed : {V : Type 0} → Journal V → Snapshot → Result (Journal V)
confirmed j s = do
  validate s
  ensure (all (stands s) j.applied) (text "A aplicação não foi confirmada; recuperação preservada.")
  ok (record j { previous = [] })
