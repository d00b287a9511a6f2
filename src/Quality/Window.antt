-- ===== src/Quality/Window.antt =====
-- The samples of one adapter and their summary (crates/netlane-core/src/quality.rs). The arithmetic
-- of `f64` is a parameter.
pub mod Bounds
use netlane.Prelude.{
  ℕ, ◌-◌, Bool, false, ◌&&◌, ◌||◌, List, [], ◌∷◌, ◌++◌, length, Option, none, some, Text, leb, ltb,
  ◌==◌, if◌then◌else◌,
}

-- What the source uses of `f64`; `start` is the value that `sum` starts from.
pub record Floats (F : Type 0) : Type 0 where
  pub from_usize : ℕ → F
  pub start : F
  pub add : F → F → F
  pub sub : F → F → F
  pub mul : F → F → F
  pub div : F → F → F
  pub abs : F → F
  pub is_finite : F → Bool
  -- `a >= b` and `a > b`
  pub ge : F → F → Bool
  pub gt : F → F → Bool

pub data Mode : Type 0 where
  icmp https : Mode

pub data Outcome : Type 0 where
  success no_response unavailable error : Outcome

pub data Rating : Type 0 where
  unknown collecting good fair poor no_reply : Rating

-- `ProbeResult`
pub record ProbeResult (F : Type 0) : Type 0 where
  pub outcome : Outcome
  pub milliseconds : Option F
  pub detail : Text
  pub source : Text
  pub index : ℕ

-- `Summary`
pub record Summary (F : Type 0) : Type 0 where
  pub samples : ℕ
  pub replies : ℕ
  pub latency : Option F
  pub jitter : Option F
  pub failure_percent : Option F
  pub rating : Rating

abbrev pub Sample : Type 0 → Type 0
Sample F = ℕ × Option F

-- `MAX_AGE`
abbrev pub max_age : ℕ
max_age = 60000000000

-- `while self.samples.len() > 12`
unfoldable pub trim_front : {A : Type 0} → List A → List A
trim_front [] = []
trim_front (s ∷ ss) = if ltb 12 (length (s ∷ ss)) then trim_front ss else s ∷ ss

-- `Window::expire`
unfoldable pub expire : {F : Type 0} → ℕ → List (Sample F) → List (Sample F)
expire now [] = []
expire now ((at, v) ∷ ss) = if leb max_age (now - at) then expire now ss else (at, v) ∷ ss

abbrev pub replies_of : {F : Type 0} → List (Sample F) → List F
replies_of [] = []
replies_of ((at, none) ∷ ss) = replies_of ss
replies_of ((at, some v) ∷ ss) = v ∷ replies_of ss

module _ {F : Type 0} (f : Floats F) where
  open f use {from_usize, start, add, sub, mul, div, abs, is_finite, ge, gt}

  abbrev pub is_measured : Option F → Bool
  is_measured none = false
  is_measured (some v) = is_finite v && ge v (from_usize 0)

  -- The match of `add`.
  abbrev pub append : ℕ → Outcome → Option F → List (Sample F) → List (Sample F)
  append now Outcome.success v ss = if is_measured v then ss ++ (now, v) ∷ [] else []
  append now Outcome.no_response v ss = ss ++ (now, none) ∷ []
  append now _ v ss = []

  -- `Window::add`
  unfoldable pub add_sample : ℕ → ProbeResult F → List (Sample F) → List (Sample F)
  unfolding trim_front expire
  add_sample now r ss = expire now (trim_front (append now r.outcome r.milliseconds ss))

  abbrev pub difference : Option F → Option F → List F → List F
  difference (some a) (some b) rest = abs (sub a b) ∷ rest
  difference _ _ rest = rest

  -- From each sample to the next.
  pub differences : List (Sample F) → List F
  differences [] = []
  differences ((_, a) ∷ []) = []
  differences ((_, a) ∷ (at, b) ∷ ss) = difference a b (differences ((at, b) ∷ ss))

  pub sum_from : F → List F → F
  sum_from acc [] = acc
  sum_from acc (x ∷ xs) = sum_from (add acc x) xs

  abbrev pub mean : List F → Option F
  mean [] = none
  mean (x ∷ xs) = some (div (sum_from start (x ∷ xs)) (from_usize (length (x ∷ xs))))

  -- `a >= Some(x)` and `a > Some(x)`
  abbrev pub at_least : Option F → ℕ → Bool
  at_least none x = false
  at_least (some a) x = ge a (from_usize x)

  abbrev pub above : Option F → ℕ → Bool
  above none x = false
  above (some a) x = gt a (from_usize x)

  abbrev pub fair_latency : Mode → ℕ
  fair_latency Mode.icmp = 80
  fair_latency Mode.https = 500

  abbrev pub poor_latency : Mode → ℕ
  poor_latency Mode.icmp = 150
  poor_latency Mode.https = 1500

  abbrev pub fair_jitter : Mode → ℕ
  fair_jitter Mode.icmp = 15
  fair_jitter Mode.https = 150

  abbrev pub poor_jitter : Mode → ℕ
  poor_jitter Mode.icmp = 40
  poor_jitter Mode.https = 400

  -- The chain that chooses the rating.
  abbrev pub rate : Mode → ℕ → ℕ → Option F → Option F → Option F → Rating
  rate mode samples replies failure latency jitter =
      if samples == 0
      then Rating.unknown
      else if ltb samples 5
      then Rating.collecting
      else if replies == 0
      then Rating.no_reply
      else if at_least failure 20
          || at_least latency (poor_latency mode)
          || at_least jitter (poor_jitter mode)
      then Rating.poor
      else if above failure 0
          || at_least latency (fair_latency mode)
          || at_least jitter (fair_jitter mode)
      then Rating.fair
      else Rating.good

  abbrev pub failure_of : ℕ → ℕ → Option F
  failure_of samples replies =
      if samples == 0
      then none
      else some (div (mul (from_usize 100) (from_usize (samples - replies))) (from_usize samples))

  -- `summarize`, once the old samples are gone.
  pub summary_of : Mode → List (Sample F) → Summary F
  unfolding differences sum_from
  summary_of mode ss = record {
    samples = length ss;
    replies = length (replies_of ss);
    latency = mean (replies_of ss);
    jitter = mean (differences ss);
    failure_percent = failure_of (length ss) (length (replies_of ss));
    rating =
        rate mode (length ss) (length (replies_of ss))
          (failure_of (length ss) (length (replies_of ss))) (mean (replies_of ss))
          (mean (differences ss));
  }

  -- `Window::summarize`, and the samples that stay.
  abbrev pub summarize : ℕ → Mode → List (Sample F) → Summary F × List (Sample F)
  summarize now mode ss = (summary_of mode (expire now ss), expire now ss)
