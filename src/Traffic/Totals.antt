-- ===== src/Traffic/Totals.antt =====
-- The usage of one adapter over any number of rounds (crates/netlane-core/src/traffic.rs).
use netlane.Prelude.{
  ℕ, ◌+◌, ◌-◌, ◌≤◌, List, [], ◌∷◌, Option, none, some, ◌≡◌, ◌∙◌, refl, arith, if◌then◌else◌,
  Bool-cases, inl, inr,
}
use netlane.Model.{Adapter}
use netlane.Traffic.{Floats, Usage, Reading, max_u64, saturating_add, follows, measure, read, step}

-- The counters of one round, if the system gave both.
abbrev pub reading_of : ℕ → Option ℕ → Option ℕ → Option Reading
reading_of at (some rx) (some tx) = some (at, rx, tx)
reading_of at _ _ = none

abbrev pub Round : Type 0
Round = ℕ × Adapter

abbrev pub received_since : Option Reading → Option Reading → ℕ
received_since (some (previous_at, prx, ptx)) (some (at, rx, tx)) =
    if follows (at, rx, tx) (previous_at, prx, ptx) then rx - prx else 0
received_since _ _ = 0

abbrev pub sent_since : Option Reading → Option Reading → ℕ
sent_since (some (previous_at, prx, ptx)) (some (at, rx, tx)) =
    if follows (at, rx, tx) (previous_at, prx, ptx) then tx - ptx else 0
sent_since _ _ = 0

-- The bytes of the rounds that count: those whose reading follows the one of the round before.
abbrev pub total : (Option Reading → Option Reading → ℕ) → Option Reading → List Round → ℕ
total since previous [] = 0
total since previous ((at, a) ∷ rounds) =
    since previous (reading_of at a.received a.sent)
    + total since (reading_of at a.received a.sent) rounds

saturating_add-le : (a b : ℕ) → saturating_add a b ≤ max_u64
saturating_add-le a b = ground arith

saturating_add_twice :
    (a b c : ℕ) → saturating_add (saturating_add a b) c ≡ saturating_add a (b + c)
saturating_add_twice a b c = ground arith

module _ {F : Type 0} (f : Floats F) where
  abbrev pub run : Usage F → List Round → Usage F
  run u [] = u
  run u ((at, a) ∷ rounds) = run (step f at a u) rounds

  measure-received :
      (u : Usage F) (now : Reading) (previous : Option Reading)
      → u.received ≤ max_u64
      → (measure f u now previous).received
        ≡ saturating_add u.received (received_since previous (some now))
  measure-received u now none h = ground (arith, h)
  measure-received u now (some r) h = elim (Bool-cases (follows now r)) [
    | inl e ↦ rw e refl
    | inr e ↦ rw e (ground (arith, h))
  ]

  measure-sent :
      (u : Usage F) (now : Reading) (previous : Option Reading)
      → u.sent ≤ max_u64
      → (measure f u now previous).sent ≡ saturating_add u.sent (sent_since previous (some now))
  measure-sent u now none h = ground (arith, h)
  measure-sent u now (some r) h = elim (Bool-cases (follows now r)) [
    | inl e ↦ rw e refl
    | inr e ↦ rw e (ground (arith, h))
  ]

  since_none : (r : Option Reading) → (received_since r none ≡ 0) × (sent_since r none ≡ 0)
  since_none none = (refl, refl)
  since_none (some r) = (refl, refl)

  -- What a round does to the totals and to the reading that the next one is compared with.
  abbrev Adds : Usage F → Usage F → Option Reading → Type 0
  Adds u v now =
      (v.received ≡ saturating_add u.received (received_since u.previous now))
      × (v.sent ≡ saturating_add u.sent (sent_since u.previous now))
      × (v.previous ≡ now)

  ignored :
      (u : Usage F)
      → u.received ≤ max_u64
      → u.sent ≤ max_u64
      → Adds u (record u { previous = none }) none
  ignored u h k = (
    ground (arith, h, (since_none u.previous).0),
    ground (arith, k, (since_none u.previous).1),
    refl,
  )

  read-Adds :
      (u : Usage F) (at : ℕ) (rx tx : Option ℕ)
      → u.received ≤ max_u64
      → u.sent ≤ max_u64
      → Adds u (read f u at rx tx) (reading_of at rx tx)
  read-Adds u at (some rx) (some tx) h k =
      (measure-received u (at, rx, tx) u.previous h, measure-sent u (at, rx, tx) u.previous k, refl)
  read-Adds u at (some rx) none h k = ignored u h k
  read-Adds u at none (some tx) h k = ignored u h k
  read-Adds u at none none h k = ignored u h k

  step-Adds :
      (at : ℕ) (a : Adapter) (u : Usage F)
      → u.received ≤ max_u64
      → u.sent ≤ max_u64
      → Adds u (step f at a u) (reading_of at a.received a.sent)
  unfolding step
  step-Adds at a u h k =
      read-Adds (record u { download_mbps = none; upload_mbps = none }) at a.received a.sent h k

  -- Over any number of rounds the totals of an adapter grow by the bytes of the rounds whose reading
  -- follows the one before, at most ten seconds later and with neither counter reset, and stop at the largest `u64`.
  pub run-totals :
      (rounds : List Round) (u : Usage F)
      → u.received ≤ max_u64
      → u.sent ≤ max_u64
      → ((run u rounds).received
          ≡ saturating_add u.received (total received_since u.previous rounds))
        × ((run u rounds).sent ≡ saturating_add u.sent (total sent_since u.previous rounds))
  run-totals [] u h k = (ground (arith, h), ground (arith, k))
  run-totals ((at, a) ∷ rounds) u h k =
      let (r, s, p) = step-Adds at a u h k in
      let (rs, ss) =
        run-totals rounds (step f at a u) (rw r (saturating_add-le u.received _))
          (rw s (saturating_add-le u.sent _)) in
      (
        rs ∙ rw (r, p) (saturating_add_twice u.received _ _),
        ss ∙ rw (s, p) (saturating_add_twice u.sent _ _),
      )
