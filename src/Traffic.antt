-- ===== src/Traffic.antt =====
-- crates/netlane-core/src/traffic.rs: the rates and totals of each adapter. A `Duration` is its
-- nanoseconds. The arithmetic of `f64` is a parameter.
pub mod Totals
pub mod Tracked
mod Tests
use netlane.Prelude.{
  ℕ, ◌-◌, ◌+◌, Bool, true, false, not, ◌&&◌, List, [], ◌∷◌, ◌++◌, drop, length, any, select, Option,
  none, some, Text, str_eq, leb, ltb, ◌==◌, if◌then◌else◌,
}
use netlane.Model.{Adapter}

-- What the source uses of `f64`.
pub record Floats (F : Type 0) : Type 0 where
  -- `as f64`
  pub from_u64 : ℕ → F
  -- `Duration::as_secs_f64`
  pub as_secs : ℕ → F
  pub mul : F → F → F
  pub div : F → F → F

-- A reading of the counters and when it was made.
abbrev pub Reading : Type 0
Reading = ℕ × ℕ × ℕ

-- `Usage`
pub record Usage (F : Type 0) : Type 0 where
  pub download_mbps : Option F
  pub upload_mbps : Option F
  pub received : ℕ
  pub sent : ℕ
  pub history : List (Option F × Option F)
  pub previous : Option Reading

-- `TrafficTracker`; the order of the keys is not modelled.
abbrev pub TrafficTracker : Type 0 → Type 0
TrafficTracker F = List (Text × Usage F)

abbrev pub max_u64 : ℕ
max_u64 = 18446744073709551615

abbrev pub saturating_add : ℕ → ℕ → ℕ
saturating_add a b = if leb (a + b) max_u64 then a + b else max_u64

-- The guard on the previous reading.
abbrev pub follows : Reading → Reading → Bool
follows (at, rx, tx) (previous_at, prx, ptx) =
    leb previous_at at
    && not (at - previous_at == 0)
    && leb (at - previous_at) 10000000000
    && leb prx rx
    && leb ptx tx

module _ {F : Type 0} (f : Floats F) where
  open f use {from_u64, as_secs, mul, div}

  -- `Usage::default`
  pub fresh : Usage F
  fresh = record {
    download_mbps = none;
    upload_mbps = none;
    received = 0;
    sent = 0;
    history = [];
    previous = none;
  }

  abbrev pub mbps : ℕ → ℕ → F
  mbps bytes elapsed =
      div (div (mul (from_u64 bytes) (from_u64 8)) (from_u64 1000000)) (as_secs elapsed)

  -- The totals and rates from two readings.
  abbrev pub measure : Usage F → Reading → Option Reading → Usage F
  measure u now none = u
  measure u (at, rx, tx) (some (previous_at, prx, ptx)) =
      if follows (at, rx, tx) (previous_at, prx, ptx)
      then record u {
        download_mbps = some (mbps (rx - prx) (at - previous_at));
        upload_mbps = some (mbps (tx - ptx) (at - previous_at));
        received = saturating_add u.received (rx - prx);
        sent = saturating_add u.sent (tx - ptx);
      }
      else u

  -- What an adapter's counters do to its usage.
  abbrev pub read : Usage F → ℕ → Option ℕ → Option ℕ → Usage F
  read u at (some rx) (some tx) = record (measure u (at, rx, tx) u.previous) {
    previous = some (at, rx, tx);
  }
  read u at _ _ = record u { previous = none }

  abbrev pub push : Usage F → Usage F
  push u =
      let h = u.history ++ (u.download_mbps, u.upload_mbps) ∷ [] in
      record u { history = if ltb 30 (length h) then drop 1 h else h }

  -- One round of the loop of `sample`, on the usage of the adapter.
  pub step : ℕ → Adapter → Usage F → Usage F
  step at a u =
      push (read (record u { download_mbps = none; upload_mbps = none }) at a.received a.sent)

  -- `entry(id).or_default()` and the change of what it finds.
  pub change : Text → (Usage F → Usage F) → TrafficTracker F → TrafficTracker F
  unfolding fresh
  change id g [] = (id, g fresh) ∷ []
  change id g ((k, u) ∷ t) = if str_eq k id then (k, g u) ∷ t else (k, u) ∷ change id g t

  pub sample_all : ℕ → List Adapter → TrafficTracker F → TrafficTracker F
  unfolding step change
  sample_all at [] t = t
  sample_all at (a ∷ adapters) t = sample_all at adapters (change a.id (step at a) t)

  -- `TrafficTracker::sample`
  pub sample : ℕ → List Adapter → TrafficTracker F → TrafficTracker F
  unfolding sample_all
  sample at adapters t =
      sample_all at adapters (select (λ e. any (λ a. str_eq a.id e.0) adapters) t)

  -- `TrafficTracker::reset`
  pub reset : TrafficTracker F → TrafficTracker F
  reset t = []
