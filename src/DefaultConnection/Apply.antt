-- ===== src/DefaultConnection/Apply.antt =====
-- `Receipt::revert` and `apply` of crates/netlane-core/src/default_connection.rs. The state `W` is
-- the settings of the system with everything around them, so that other programs may change it
-- between two calls.
pub mod Priority
pub mod Guard
pub mod Recovery
pub mod Foreign
pub mod Touched
use netlane.Prelude.{
  ℕ, Bool, true, false, not, ◌&&◌, ◌||◌, List, [], ◌∷◌, ◌++◌, reverse, Option, none, some, Text,
  text, all, find, is_empty, ◌==◌, if◌then◌else◌, Result, ok, err, ensure, ok_or,
}
use netlane.Prelude.Actions.{Action, ◌>>=◌, ◌>>◌, pure, lift}
use netlane.Prelude.Sorting.{sort_by}
use netlane.DefaultConnection.{
  Interface, Snapshot, Metric, Request, Receipt, kind_eq, option_nat_eq,
}
use netlane.DefaultConnection.Plan.{validate, interface, metric_of, matches, unset}
use netlane.DefaultConnection.Requests.{verify_after, validate_against}
use netlane.Model.{bool_eq}

-- `trait Settings`, and the `alive` that `apply` is given.
pub record Settings (W : Type 0) : Type 0 where
  pub read : Action W Snapshot
  pub write : Metric → Action W (Unit {0})
  pub alive : W → Bool × W

-- The closures `active_matches` and `saved_matches` of `Receipt::revert`.
abbrev pub active_matches : Interface → Metric → Bool
active_matches i m =
    bool_eq m.automatic_metric i.automatic_metric && (m.automatic_metric || m.metric == i.metric)

abbrev pub saved_matches : Interface → Metric → Bool
saved_matches i m =
    if m.automatic_metric
    then unset i.saved_metric
    else option_nat_eq i.saved_metric (some m.metric)

-- Nothing but the original value and the change stands in the active and the saved store.
abbrev pub is_ours : Interface → Metric → Metric → Bool
is_ours i original change =
    (active_matches i original || active_matches i change)
    && (saved_matches i original || saved_matches i change)

-- `errors.join(" | ")`
pub join : List Text → Text
join [] = []
join (e ∷ []) = e
join (e ∷ f ∷ es) = e ++ text " | " ++ join (f ∷ es)

-- The test that ends a revert.
abbrev pub is_restored : Snapshot → Interface → Bool
is_restored s m = elim (interface s m.id) [
  | ok i ↦ i.index == m.index && kind_eq i.kind m.kind && matches (metric_of m) i
  | err e ↦ false
]

module _ {W : Type 0} (settings : Settings W) where
  -- One round of the loop from `metric.matches(i)` on.
  unfoldable pub revert_if_ours : List Metric → Interface → Interface → Action W (Unit {0})
  revert_if_ours changes original i =
      if matches (metric_of original) i
      then pure tt
      else (lift (ok_or (find (λ m. m.id == original.id) changes) (text "touched change exists"))
          >>= λ change.
              lift (
                ensure (is_ours i (metric_of original) change)
                  (text "Prioridade alterada externamente durante a operação."))
              >> settings.write (metric_of original))

  -- One round of the loop. Its `expect` is read as an error; every touched interface has a change.
  unfoldable pub revert_one : List Metric → Interface → Action W (Unit {0})
  unfolding revert_if_ours
  revert_one changes original = do
    now ← settings.read
    lift (validate now)
    i ← lift (interface now original.id)
    lift (
        ensure (i.index == original.index && kind_eq i.kind original.kind)
          (text "A identidade da interface mudou durante a operação."))
    revert_if_ours changes original i

  -- The loop, over the errors so far.
  unfoldable pub revert_all : List Metric → List Interface → List Text → W → List Text × W
  revert_all changes [] errors w = (errors, w)
  revert_all changes (o ∷ os) errors w =
      let (r, v) = revert_one changes o w in
      revert_all changes os (elim r [ ok _ ↦ errors | err e ↦ errors ++ e ∷ [] ]) v

  -- `settings.read().and_then(|s| { s.validate()?; Ok(s) })`
  unfoldable pub read_valid : Action W Snapshot
  read_valid = settings.read >>= λ s. lift (validate s) >> pure s

  -- The snapshot and the errors after the last reading.
  abbrev pub checked : List Interface → List Text → Result Snapshot → Snapshot × List Text
  checked original errors (ok s) = (
    s,
    if all (is_restored s) original
        then errors
        else errors ++ text "Restauração não confirmada." ∷ [],
  )
  checked original errors (err e) = (
    record { interfaces = []; routes = [] },
    errors ++ (text "Não foi possível conferir a restauração: " ++ e) ∷ [],
  )

  abbrev pub reverted : Receipt → Snapshot × List Text → Receipt
  reverted receipt (s, errors) = record receipt {
    result = record {
      snapshot = s;
      success = false;
      rollback_confirmed = is_empty errors;
      detail =
          receipt.result.detail
          ++ (if is_empty errors
              then text " Alteração revertida."
              else text " Restauração incompleta: " ++ join errors);
    };
    original = [];
  }

  -- `Receipt::revert`
  unfoldable pub revert : Receipt → W → Receipt × W
  unfolding revert_all revert_one
  revert receipt w =
      let (errors, v) = revert_all receipt.changes (reverse receipt.original) [] w in
      let (r, u) = read_valid v in (reverted receipt (checked receipt.original errors r), u)

  -- `ensure!(alive(), …)`
  pub check_alive : Action W (Unit {0})
  check_alive w =
      let (b, v) = settings.alive w in
      (ensure b (text "A janela controladora encerrou a operação."), v)

  -- The loop of `apply` pushes each touched interface on `receipt.original`, which outlives an
  -- error, so its state is that list beside the system's.
  abbrev pub Attempt : Type 0 → Type 0
  Attempt = Action (List Interface × W)

  abbrev pub on_system : {A : Type 0} → Action W A → Attempt A
  on_system m (touched, w) = let (r, v) = m w in (r, (touched, v))

  abbrev pub touch : Interface → Attempt (Unit {0})
  touch i (touched, w) = (ok tt, (touched ++ i ∷ [], w))

  -- One round of the loop of `apply`.
  pub write_one : Snapshot → Metric → Attempt (Unit {0})
  unfolding check_alive
  write_one before m = do
    on_system check_alive
    original ← lift (interface before m.id)
    current ← on_system settings.read
    lift (validate current)
    actual ← lift (interface current m.id)
    lift (
        ensure
          (actual.index == original.index
            && kind_eq actual.kind original.kind
            && matches (metric_of original) actual)
          (text "A prioridade mudou durante a operação. A configuração externa foi preservada."))
    on_system check_alive
    touch original
    on_system (settings.write m)

  pub write_all : Snapshot → List Metric → Attempt (Unit {0})
  write_all before [] = pure tt
  write_all before (m ∷ ms) = write_one before m >> write_all before ms

  -- `ordered`: the preferred interface last.
  abbrev pub is_preferred : Option ℕ → Metric → Bool
  is_preferred none m = false
  is_preferred (some n) m = m.id == n

  unfoldable pub ordered : Request → List Metric
  ordered q =
      sort_by
        (λ a b. not (is_preferred q.preferred_interface a) || is_preferred q.preferred_interface b)
        q.changes

  -- The closure `attempt` of `apply`, up to the snapshot that it confirms.
  unfoldable pub attempt : Request → Snapshot → Attempt Snapshot
  unfolding write_all write_one
  attempt q before = do
    write_all before (ordered q)
    on_system check_alive
    after ← on_system settings.read
    lift (verify_after q after)
    pure after

  abbrev pub applied_detail : Option ℕ → Text
  applied_detail none = text "Configuração anterior restaurada."
  applied_detail (some n) =
      text "Conexão padrão IPv4 aplicada. A escolha permanece após fechar o NetLane."

  -- The match on the attempt's result.
  unfoldable pub settle : Request → Snapshot → Result Snapshot × (List Interface × W) → Receipt × W
  settle q before (ok after, (touched, w)) = (
    record {
      result = record {
        snapshot = after;
        success = true;
        detail = applied_detail q.preferred_interface;
        rollback_confirmed = false;
      };
      original = touched;
      changes = q.changes;
    },
    w,
  )
  settle q before (err e, (touched, w)) =
      revert
        (record {
          result = record {
            snapshot = before;
            success = false;
            detail = e;
            rollback_confirmed = false;
          };
          original = touched;
          changes = q.changes;
        })
        w

  -- `apply`
  unfoldable pub apply : Request → Action W Receipt
  apply q = do
    before ← settings.read
    lift (validate_against q before)
    λ w. let (receipt, v) = settle q before (attempt q before ([], w)) in (ok receipt, v)
