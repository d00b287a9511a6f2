-- ===== src/Quality/Monitor/Types.antt =====
-- The data of the monitor of crates/netlane-core/src/quality.rs.
use netlane.Prelude.{ℕ, Bool, true, false, ◌&&◌, List, Option, none, some, Text, ◌==◌}
use netlane.Model.{Adapter}
use netlane.Quality.Window.{Mode, ProbeResult, Summary, Sample}

-- `Target`
pub record Target : Type 0 where
  pub mode : Mode
  pub host : Text
  pub label : Text
  pub port : ℕ
  pub request_path : Text

-- `Identity`
pub record Identity : Type 0 where
  pub id : ℕ
  pub luid : ℕ
  pub address : ℕ

abbrev pub identity_eq : Option Identity → Option Identity → Bool
identity_eq none none = true
identity_eq (some a) (some b) = a.id == b.id && a.luid == b.luid && a.address == b.address
identity_eq _ _ = false

-- `Row`
pub record Row (F : Type 0) : Type 0 where
  pub identity : Option Identity
  pub revision : ℕ
  pub ticket : Option ℕ
  pub checked : Option ℕ
  pub window : List (Sample F)
  pub last : Option (ℕ × ProbeResult F)
  pub summary : Summary F
  pub state : Text

pub data Phase : Type 0 where
  idle preparing active : Phase

abbrev pub phase_eq : Phase → Phase → Bool
phase_eq Phase.idle Phase.idle = true
phase_eq Phase.preparing Phase.preparing = true
phase_eq Phase.active Phase.active = true
phase_eq _ _ = false

-- `Request`
pub record Request : Type 0 where
  pub adapter : Adapter
  pub target : Target
  pub destination : ℕ
  pub cancel : ℕ
  pub generation : ℕ
  pub ticket : ℕ
  pub revision : ℕ

abbrev pub Rows : Type 0 → Type 0
Rows F = List (Text × Row F)

-- `Monitor`, with the flags that it has made.
pub record Monitor (F : Type 0) : Type 0 where
  pub phase : Phase
  pub target : Option Target
  pub destination : Option ℕ
  pub rows : Rows F
  pub generation : ℕ
  pub clock : ℕ
  pub running : List ℕ
  pub cancel : ℕ
  pub flags : List Bool
