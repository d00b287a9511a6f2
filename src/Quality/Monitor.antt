-- ===== src/Quality/Monitor.antt =====
-- `Monitor` of crates/netlane-core/src/quality.rs. A hash map is a list of entries, a set a list of
-- its elements. A cancellation flag, shared with the requests, is its place in a list of flags.
-- A panic (`unwrap`) is `none`.
mod Types
pub mod Reachable
pub mod Sessions
pub mod History
pub use Types.*
use netlane.Prelude.{
  ℕ, zero, suc, ◌+◌, ◌-◌, ◌%◌, ◌^◌, Bool, true, false, not, ◌&&◌, ◌||◌, List, [], ◌∷◌, ◌++◌, length,
  is_empty, any, select, take, get_elem?, Option, none, some, Text, text, str_eq, leb, ltb, ◌==◌,
  if◌then◌else◌, is_in,
}
use netlane.Prelude.Sorting.{sort_by}
use netlane.Model.{Adapter}
use netlane.Quality.Window.{
  Floats, Mode, Outcome, Rating, ProbeResult, Summary, Sample, add_sample, summarize, is_measured,
}

-- `store(true)`
abbrev pub set : List Bool → ℕ → List Bool
set [] i = []
set (b ∷ bs) zero = true ∷ bs
set (b ∷ bs) (suc i) = b ∷ set bs i

abbrev pub load : List Bool → ℕ → Bool
load [] i = true
load (b ∷ bs) zero = b
load (b ∷ bs) (suc i) = load bs i

-- The order of `Option<Duration>`.
abbrev pub option_le : Option ℕ → Option ℕ → Bool
option_le none b = true
option_le (some a) none = false
option_le (some a) (some b) = leb a b

abbrev pub is_due : ℕ → Option ℕ → Bool
is_due now none = true
is_due now (some last) = not (ltb (now - last) 5000000000)

abbrev pub visible : List Adapter → List Text → List Adapter
visible adapters selected = take 128 (select (λ a. is_in selected a.id) adapters)

module _ {F : Type 0} where
  abbrev pub get : Rows F → Text → Option (Row F)
  get [] id = none
  get ((k, r) ∷ rs) id = if str_eq k id then some r else get rs id

  abbrev pub put : Text → Row F → Rows F → Rows F
  put id r [] = (id, r) ∷ []
  put id r ((k, s) ∷ rs) = if str_eq k id then (k, r) ∷ rs else (k, s) ∷ put id r rs

  -- `Monitor::default`
  abbrev pub initial : Monitor F
  initial = record {
    phase = Phase.idle;
    target = none;
    destination = none;
    rows = [];
    generation = 0;
    clock = 0;
    running = [];
    cancel = 0;
    flags = false ∷ [];
  }

  -- `Monitor::stop`
  unfoldable pub stop : Monitor F → Monitor F
  stop m = record m {
    flags = set m.flags m.cancel;
    generation = (m.generation + 1) % 2 ^ 64;
    phase = Phase.idle;
    target = none;
    destination = none;
    rows = [];
  }

  -- `Monitor::begin`
  unfoldable pub begin : Target → Monitor F → ℕ × Monitor F
  unfolding stop
  begin target m =
      let s = stop m in
      (
        s.generation,
        record s {
          phase = Phase.preparing;
          target = some target;
          cancel = length s.flags;
          flags = s.flags ++ false ∷ [];
        },
      )

  -- `Monitor::activate`
  unfoldable pub activate : ℕ → ℕ → Monitor F → Bool × Monitor F
  activate generation destination m =
      if not (generation == m.generation)
        || not (phase_eq m.phase Phase.preparing)
        || load m.flags m.cancel
      then (false, m)
      else (true, record m { destination = some destination; phase = Phase.active })

  abbrev pub no_summary : Summary F
  no_summary = record {
    samples = 0;
    replies = 0;
    latency = none;
    jitter = none;
    failure_percent = none;
    rating = Rating.unknown;
  }

  -- `Row::new`
  abbrev pub new_row : Option Identity → ℕ → Row F
  new_row identity revision = record {
    identity = identity;
    revision = revision;
    ticket = none;
    checked = none;
    window = [];
    last = none;
    summary = no_summary;
    state = elim identity [ none ↦ text "Indisponível" | some _ ↦ text "Aguardando amostras" ];
  }

  abbrev pub is_current : Option Identity → Option (Row F) → Bool
  is_current identity none = false
  is_current identity (some r) = identity_eq r.identity identity

  abbrev pub checked_of : Monitor F → Adapter → Option ℕ
  checked_of m a = elim (get m.rows a.id) [ none ↦ none | some r ↦ r.checked ]

  abbrev pub is_free : ℕ → Row F → Bool
  is_free now r = elim r.identity [
    | none ↦ false
    | some _ ↦ elim r.ticket [ some _ ↦ false | none ↦ is_due now r.checked ]
  ]

  -- The row's new ticket, the running worker and its request.
  abbrev pub start_worker : ℕ → Adapter → Row F → Monitor F → Target → ℕ → Monitor F × Request
  start_worker now a r m target destination =
      let ticket = (m.clock + 1) % 2 ^ 64 in
      (
        record m {
          clock = ticket;
          rows = put a.id (record r { ticket = some ticket; checked = some now }) m.rows;
          running = ticket ∷ m.running;
        },
        record {
          adapter = a;
          target = target;
          destination = destination;
          cancel = m.cancel;
          generation = m.generation;
          ticket = ticket;
          revision = r.revision;
        },
      )

  -- The two `unwrap`s are the cases without a target or a destination.
  abbrev pub issue :
      ℕ → Adapter → Row F → Monitor F → Option Target → Option ℕ → Option (Monitor F × Request)
  issue now a r m (some target) (some destination) =
      some (start_worker now a r m target destination)
  issue now a r m _ _ = none

  -- One round of the loop of `prepare`.
  pub prepare_one : ℕ → Adapter → Monitor F → Option (Monitor F × List Request)
  prepare_one now a m = elim (get m.rows a.id) [
    | none ↦ some (m, [])
    | some r ↦
        if is_free now r
        then elim (issue now a r m m.target m.destination) [
          | none ↦ none
          | some (n, q) ↦ some (n, q ∷ [])
        ]
        else some (m, [])
  ]

  -- The loop of `prepare`, over the requests so far.
  pub prepare_all : ℕ → List Adapter → Monitor F → List Request → Option (List Request × Monitor F)
  unfolding prepare_one
  prepare_all now [] m requests = some (requests, m)
  prepare_all now (a ∷ adapters) m requests =
      let rest = prepare_one now a m in
      if leb 4 (length m.running)
      then some (requests, m)
      else elim rest [ none ↦ none | some (n, qs) ↦ prepare_all now adapters n (requests ++ qs) ]

  -- `prepare` after its call of `sync`.
  pub prepare_synced : ℕ → List Adapter → Monitor F → Option (List Request × Monitor F)
  unfolding prepare_all
  prepare_synced now adapters s =
      if phase_eq s.phase Phase.active
      then prepare_all now (sort_by (λ a b. option_le (checked_of s a) (checked_of s b)) adapters) s
          []
      else some ([], s)

  abbrev pub is_held : Request → Row F → Bool
  is_held q r = r.revision == q.revision && elim r.ticket [ none ↦ false | some t ↦ t == q.ticket ]

  -- The row of an adapter, new where its identity is.
  abbrev pub renew : (Adapter → Option Identity) → Adapter → Monitor F → Monitor F
  renew identity_of a m = if is_current (identity_of a) (get m.rows a.id) then m else record m {
    clock = (m.clock + 1) % 2 ^ 64;
    rows = put a.id (new_row (identity_of a) ((m.clock + 1) % 2 ^ 64)) m.rows;
  }

module _ {F : Type 0} (f : Floats F) where
  -- The summary of a row, and the samples that it keeps.
  abbrev pub refresh : ℕ → Mode → Row F → Row F
  refresh now mode r =
      let (summary, window) = summarize f now mode r.window in
      record r {
        summary = summary;
        window = window;
        state =
            if is_empty r.state && summary.samples == 0
            then text "Aguardando amostras"
            else r.state;
      }

  abbrev pub refresh_row :
      ℕ → Text → Monitor F → Option (Row F) → Option Target → Option (Monitor F)
  refresh_row now id m (some r) (some target) =
      some (record m { rows = put id (refresh now target.mode r) m.rows })
  refresh_row now id m _ _ = none

  -- The state of a row after a result.
  abbrev pub state_of : Outcome → Option F → Text
  state_of Outcome.unavailable v = text "Indisponível"
  state_of Outcome.error v = text "Erro no teste"
  state_of Outcome.no_response v = []
  state_of Outcome.success v = if is_measured f v then [] else text "Erro no teste"

  abbrev pub finish_row : Request → ProbeResult F → ℕ → Row F → Row F
  finish_row q result now r =
      let (summary, window) = summarize f now q.target.mode (add_sample f now result r.window) in
      record r {
        ticket = none;
        state = state_of result.outcome result.milliseconds;
        window = window;
        summary = summary;
        last = some (now, result);
      }

  -- `Monitor::complete`
  pub complete : Request → ProbeResult F → ℕ → Monitor F → Bool × Monitor F
  complete q result now m =
      let n = record m { running = select (λ t. not (t == q.ticket)) m.running } in
      if not (any (λ t. t == q.ticket) m.running)
        || not (phase_eq m.phase Phase.active)
        || not (q.generation == m.generation)
      then (false, n)
      else elim (get m.rows q.adapter.id) [
        | none ↦ (false, n)
        | some r ↦
            if is_held q r
            then (true, record n { rows = put q.adapter.id (finish_row q result now r) m.rows })
            else (false, n)
      ]

module _ {F : Type 0} (f : Floats F) (identity_of : Adapter → Option Identity) where
  -- One round of `sync`; its two `unwrap`s are the cases without a row or a target.
  pub sync_one : ℕ → Adapter → Monitor F → Option (Monitor F)
  sync_one now a m =
      let n = renew identity_of a m in refresh_row f now a.id n (get n.rows a.id) n.target

  pub sync_all : ℕ → List Adapter → Monitor F → Option (Monitor F)
  sync_all now [] m = some m
  sync_all now (a ∷ adapters) m = elim (sync_one now a m) [
    | none ↦ none
    | some n ↦ sync_all now adapters n
  ]

  -- `Monitor::sync`
  pub sync : List Adapter → List Text → ℕ → Monitor F → Option (Monitor F)
  unfolding sync_all
  sync adapters selected now m =
      let shown = visible adapters selected in
      let kept = record m { rows = select (λ e. any (λ a. str_eq a.id e.0) shown) m.rows } in
      if phase_eq m.phase Phase.active then sync_all now shown kept else some m

  -- `Monitor::prepare`
  pub prepare : List Adapter → List Text → ℕ → Monitor F → Option (List Request × Monitor F)
  unfolding prepare_synced sync
  prepare adapters selected now m = elim (sync adapters selected now m) [
    | none ↦ none
    | some s ↦ prepare_synced now adapters s
  ]
