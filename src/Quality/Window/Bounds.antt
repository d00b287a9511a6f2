-- ===== src/Quality/Window/Bounds.antt =====
-- The size and the age of the window of crates/netlane-core/src/quality.rs.
use netlane.Prelude.{
  ℕ, ◌-◌, ◌≤◌, ◌<◌, List, [], ◌∷◌, ◌++◌, length, Option, none, arith, All, leb, ltb, Bool-cases,
  inl, inr,
}
use netlane.Quality.Window.{
  Floats, Outcome, ProbeResult, Sample, max_age, trim_front, expire, append, add_sample,
  is_measured,
}

module _ {F : Type 0} (now : ℕ) where
  -- Samples in the order of their times, between two times.
  abbrev pub Ordered : ℕ → List (Sample F) → Type 0
  Ordered low [] = Unit
  Ordered low ((at, v) ∷ ss) = (low ≤ at) × (at ≤ now) × Ordered at ss

  -- Younger than 60 seconds.
  abbrev pub Recent : List (Sample F) → Type 0
  Recent = All (λ s. now - s.0 < max_age)

  Ordered-weaken :
      (low high : ℕ) (ss : List (Sample F)) → low ≤ high → Ordered high ss → Ordered low ss
  Ordered-weaken low high [] h o = tt
  Ordered-weaken low high ((at, v) ∷ ss) h (a, b, o) = (omega (arith, h, a), b, o)

  Ordered-append :
      (low : ℕ) (v : Option F) (ss : List (Sample F))
      → low ≤ now
      → Ordered low ss
      → Ordered low (ss ++ (now, v) ∷ [])
  Ordered-append low v [] h o = (h, omega arith, tt)
  Ordered-append low v ((at, w) ∷ ss) h (a, b, o) = (a, b, Ordered-append at v ss b o)

  trim_front-Ordered :
      (low : ℕ) (ss : List (Sample F)) → Ordered low ss → Ordered low (trim_front ss)
  unfolding trim_front
  trim_front-Ordered low [] o = tt
  trim_front-Ordered low ((at, v) ∷ ss) (a, b, o) =
      elim (Bool-cases (ltb 12 (length ((at, v) ∷ ss)))) [
        | inl e ↦ rw (e, trim_front) (trim_front-Ordered low ss (Ordered-weaken low at ss a o))
        | inr e ↦ rw (e, trim_front) (a, b, o)
      ]

  expire-Ordered : (low : ℕ) (ss : List (Sample F)) → Ordered low ss → Ordered low (expire now ss)
  unfolding expire
  expire-Ordered low [] o = tt
  expire-Ordered low ((at, v) ∷ ss) (a, b, o) = elim (Bool-cases (leb max_age (now - at))) [
    | inl e ↦ rw (e, expire) (expire-Ordered low ss (Ordered-weaken low at ss a o))
    | inr e ↦ rw (e, expire) (a, b, o)
  ]

  Ordered-Recent :
      (low : ℕ) (ss : List (Sample F)) → now - low < max_age → Ordered low ss → Recent ss
  Ordered-Recent low [] h o = tt
  Ordered-Recent low ((at, v) ∷ ss) h (a, b, o) =
      let young : now - at < max_age = omega (arith, h, a) in (young, Ordered-Recent at ss young o)

  expire-Recent : (low : ℕ) (ss : List (Sample F)) → Ordered low ss → Recent (expire now ss)
  unfolding expire
  expire-Recent low [] o = tt
  expire-Recent low ((at, v) ∷ ss) (a, b, o) = elim (Bool-cases (leb max_age (now - at))) [
    | inl e ↦ rw (e, expire) (expire-Recent at ss o)
    | inr e ↦
        let young : now - at < max_age = ground (arith, e) in
        rw (e, expire) (young, Ordered-Recent at ss young o)
  ]

  length-expire-le : (ss : List (Sample F)) → length (expire now ss) ≤ length ss
  unfolding expire
  length-expire-le [] = omega arith
  length-expire-le ((at, v) ∷ ss) = ground (arith, length-expire-le ss)

  length-trim_front-le : (ss : List (Sample F)) → length (trim_front ss) ≤ 12
  unfolding trim_front
  length-trim_front-le [] = omega arith
  length-trim_front-le (s ∷ ss) = ground (arith, length-trim_front-le ss)

module _ {F : Type 0} (f : Floats F) where
  append-Ordered :
      (now : ℕ) (o : Outcome) (v : Option F) (ss : List (Sample F))
      → Ordered now 0 ss
      → Ordered now 0 (append f now o v ss)
  append-Ordered now Outcome.success v ss h = elim (Bool-cases (is_measured f v)) [
    | inl e ↦ rw e (Ordered-append now 0 v ss (omega arith) h)
    | inr e ↦ rw e tt
  ]
  append-Ordered now Outcome.no_response v ss h = Ordered-append now 0 none ss (omega arith) h
  append-Ordered now Outcome.unavailable v ss h = tt
  append-Ordered now Outcome.error v ss h = tt

  -- A result added to samples in the order of their times, none later than now, leaves at most 12
  -- samples, in that order, all younger than 60 seconds.
  pub add_sample-Recent :
      (now : ℕ) (r : ProbeResult F) (ss : List (Sample F))
      → Ordered now 0 ss
      → (length (add_sample f now r ss) ≤ 12)
        × Ordered now 0 (add_sample f now r ss)
        × Recent now (add_sample f now r ss)
  unfolding add_sample
  add_sample-Recent now r ss h =
      let kept = trim_front (append f now r.outcome r.milliseconds ss) in
      let o =
        trim_front-Ordered now 0 (append f now r.outcome r.milliseconds ss)
          (append-Ordered now r.outcome r.milliseconds ss h) in
      (
        omega (
          arith,
          length-expire-le now kept,
          length-trim_front-le now (append f now r.outcome r.milliseconds ss),
        ),
        expire-Ordered now 0 kept o,
        expire-Recent now 0 kept o,
      )
