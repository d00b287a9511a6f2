-- ===== src/Quality/Monitor/History.antt =====
-- Runs of the monitor of crates/netlane-core/src/quality.rs, call by call.
use netlane.Prelude.{ℕ, List, Option, none, some, Text, ◌≡◌}
use netlane.Model.{Adapter}
use netlane.Quality.Window.{Floats, ProbeResult}
use netlane.Quality.Monitor.{
  Monitor, Request, Target, Identity, stop, begin, activate, sync, prepare, complete,
}

module _ {F : Type 0} (f : Floats F) (identity_of : Adapter → Option Identity) where
  -- One call on the monitor; `sync` and `prepare` where they do not panic.
  pub data Step (m : Monitor F) : Monitor F → Type 0 where
    began : (t : Target) → Step m (begin t m).1
    activated : (generation destination : ℕ) → Step m (activate generation destination m).1
    stopped : Step m (stop m)
    synced :
        (adapters : List Adapter) (selected : List Text) (now : ℕ) (n : Monitor F)
        → sync f identity_of adapters selected now m ≡ some n
        → Step m n
    prepared :
        (adapters : List Adapter) (selected : List Text) (now : ℕ) (qs : List Request)
        (n : Monitor F)
        → prepare f identity_of adapters selected now m ≡ some (qs, n)
        → Step m n
    completed : (q : Request) (r : ProbeResult F) (now : ℕ) → Step m (complete f q r now m).1

  pub data Reachable : Monitor F → Monitor F → Type 0 where
    none_yet : (m : Monitor F) → Reachable m m
    after : (m n o : Monitor F) → Reachable m n → Step n o → Reachable m o

  abbrev unwrap_or : {A : Type 0} → A → Option A → A
  unwrap_or a none = a
  unwrap_or a (some b) = b
