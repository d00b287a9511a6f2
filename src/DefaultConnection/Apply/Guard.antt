-- ===== src/DefaultConnection/Apply/Guard.antt =====
-- One round of `Receipt::revert` of crates/netlane-core/src/default_connection.rs: what it writes.
use netlane.Prelude.{
  true, false, ◌&&◌, List, some, ◌≡◌, ◌⊎◌, inl, inr, arith, find, ◌==◌, Result, ok, Bool-cases,
  Option-cases, Result-cases,
}
use netlane.Prelude.Actions.{◌>>=◌}
use netlane.DefaultConnection.{Interface, Snapshot, Metric, kind_eq}
use netlane.DefaultConnection.Plan.{validate, interface, metric_of, matches}
use netlane.DefaultConnection.Apply.{Settings, is_ours, revert_if_ours, revert_one}

module _ {W : Type 0} (settings : Settings W) where
  -- What a round of the revert writes, if it writes: the original priority of an interface of the
  -- same identity that is not back at it, and whose active and saved priorities are the original's
  -- or the change's.
  pub record Overwrites (changes : List Metric) (o : Interface) (now : Snapshot) : Type 0 where
    pub found : Interface
    pub change : Metric
    pub present : interface now o.id ≡ ok found
    pub same_index : found.index ≡ o.index
    pub same_kind : kind_eq found.kind o.kind ≡ true
    pub moved : matches (metric_of o) found ≡ false
    pub known : find (λ m. m.id == o.id) changes ≡ some change
    pub ours : is_ours found (metric_of o) change ≡ true

  abbrev pub Guarded : List Metric → Interface → W → Result (Unit {0}) × W → Type 0
  Guarded changes o w (r, v) =
      (v ≡ (settings.read w).1)
      ⊎ (now : Snapshot) × ((settings.read w).0 ≡ ok now)
        × Overwrites changes o now
        × ((r, v) ≡ settings.write (metric_of o) (settings.read w).1)

  revert_if_ours_cases :
      (changes : List Metric) (o i : Interface) (v : W)
      → ((revert_if_ours settings changes o i v).1 ≡ v)
        ⊎ (change : Metric) × (matches (metric_of o) i ≡ false)
          × (find (λ m. m.id == o.id) changes ≡ some change)
          × (is_ours i (metric_of o) change ≡ true)
          × (revert_if_ours settings changes o i v ≡ settings.write (metric_of o) v)
  unfolding revert_if_ours
  revert_if_ours_cases changes o i v = elim (Bool-cases (matches (metric_of o) i)) [
    | inl back ↦ inl (rw (back, revert_if_ours))
    | inr moved ↦ elim (Option-cases (find (λ m. m.id == o.id) changes)) [
      | inl unknown ↦ inl (rw (moved, unknown, revert_if_ours, ◌>>=◌))
      | inr (change, known) ↦ elim (Bool-cases (is_ours i (metric_of o) change)) [
        | inl ours ↦
            inr (change, moved, known, ours, rw (moved, known, ours, revert_if_ours, ◌>>=◌))
        | inr foreign ↦ inl (rw (moved, known, foreign, revert_if_ours, ◌>>=◌))
      ]
    ]
  ]

  -- A round of the revert writes nothing, or the original priority over an interface whose reading in
  -- this round had what the operation may have left.
  pub revert_one-Guarded :
      (changes : List Metric) (o : Interface) (w : W)
      → Guarded changes o w (revert_one settings changes o w)
  unfolding revert_one
  revert_one-Guarded changes o w = elim (Result-cases (settings.read w).0) [
    | inr (e, unread) ↦ inl (rw (unread, revert_one, ◌>>=◌))
    | inl (now, seen) ↦ elim (Result-cases (validate now)) [
      | inr (e, bad) ↦ inl (rw (seen, bad, revert_one, ◌>>=◌))
      | inl (_, good) ↦ elim (Result-cases (interface now o.id)) [
        | inr (e, gone) ↦ inl (rw (seen, good, gone, revert_one, ◌>>=◌))
        | inl (i, there) ↦ matched now seen good i there
      ]
    ]
  ]
    where
      v : W
      v = (settings.read w).1

      matched :
          (now : Snapshot)
          → (settings.read w).0 ≡ ok now
          → validate now ≡ ok tt
          → (i : Interface) → interface now o.id ≡ ok i
          → Guarded changes o w (revert_one settings changes o w)
      matched now seen good i there =
          elim (Bool-cases (i.index == o.index && kind_eq i.kind o.kind)) [
            | inr other ↦ inl (rw (seen, good, there, other, revert_one, ◌>>=◌))
            | inl same ↦ elim (revert_if_ours_cases changes o i v) [
              | inl kept ↦ inl (rw (seen, good, there, same, revert_one, ◌>>=◌) kept)
              | inr (change, moved, known, ours, e) ↦ inr (
                now,
                seen,
                record {
                  found = i;
                  change = change;
                  present = there;
                  same_index = ground arith;
                  same_kind = ground arith;
                  moved = moved;
                  known = known;
                  ours = ours;
                },
                rw (seen, good, there, same, revert_one, ◌>>=◌) e,
              )
            ]
          ]
