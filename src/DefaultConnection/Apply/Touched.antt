-- ===== src/DefaultConnection/Apply/Touched.antt =====
-- The interfaces that `apply` of crates/netlane-core/src/default_connection.rs touches.
use netlane.Prelude.{
  ℕ, Bool, ◌&&◌, List, [], ◌∷◌, ◌++◌, some, ◌≡◌, ◌⊎◌, inl, inr, arith, find, All, All-append,
  All-map, ◌==◌, ok, Result, Bool-cases, Result-cases,
}
use netlane.Prelude.Actions.{◌>>=◌}
use netlane.Prelude.Sorting.{sort_by-All}
use netlane.DefaultConnection.{Interface, Snapshot, Metric, Request, kind_eq}
use netlane.DefaultConnection.Plan.{validate, interface, metric_of, matches}
use netlane.DefaultConnection.Requests.{verify_after}
use netlane.DefaultConnection.Apply.{Settings, write_one, write_all, ordered, attempt, check_alive}

-- The search that `revert` expects to succeed.
abbrev pub HasChange : List Metric → ℕ → Type 0
HasChange changes n = (c : Metric) × (find (λ m. m.id == n) changes ≡ some c)

interface-id : (s : Snapshot) (n : ℕ) (i : Interface) → interface s n ≡ ok i → i.id ≡ n
interface-id s n i h = go s.interfaces h
  where
    go : (is : List Interface) → interface (record s { interfaces = is }) n ≡ ok i → i.id ≡ n
    go [] e = cc
    go (j ∷ is) e = ground (arith, go is)

module _ {W : Type 0} (settings : Settings W) where
  -- A round touches the interface of its change, or none.
  write_one_cases :
      (before : Snapshot) (m : Metric) (touched : List Interface) (w : W)
      → let after = (write_one settings before m (touched, w)).1.0 in
        (after ≡ touched)
        ⊎ (o : Interface) × (interface before m.id ≡ ok o) × (after ≡ touched ++ o ∷ [])
  unfolding write_one check_alive
  write_one_cases before m touched w = elim (Bool-cases (settings.alive w).0) [
    | inr dead ↦ inl (rw (dead, write_one, ◌>>=◌))
    | inl alive ↦ elim (Result-cases (interface before m.id)) [
      | inr (e, gone) ↦ inl (rw (alive, gone, write_one, ◌>>=◌))
      | inl (o, there) ↦ elim (Result-cases (settings.read v).0) [
        | inr (e, unread) ↦ inl (rw (alive, there, unread, write_one, ◌>>=◌))
        | inl (now, seen) ↦ elim (Result-cases (validate now)) [
          | inr (e, bad) ↦ inl (rw (alive, there, seen, bad, write_one, ◌>>=◌))
          | inl (_, good) ↦ elim (Result-cases (interface now m.id)) [
            | inr (e, lost) ↦ inl (rw (alive, there, seen, good, lost, write_one, ◌>>=◌))
            | inl (i, found) ↦ elim (Bool-cases (is_same o i)) [
              | inr moved ↦ inl (rw (alive, there, seen, good, found, moved, write_one, ◌>>=◌))
              | inl same ↦ elim (Bool-cases (settings.alive u).0) [
                | inr late ↦
                    inl (rw (alive, there, seen, good, found, same, late, write_one, ◌>>=◌))
                | inl still ↦
                    inr (
                      o,
                      there,
                      rw (alive, there, seen, good, found, same, still, write_one, ◌>>=◌),
                    )
              ]
            ]
          ]
        ]
      ]
    ]
  ]
    where
      v : W
      v = (settings.alive w).1

      u : W
      u = (settings.read v).1

      is_same : Interface → Interface → Bool
      is_same o i = i.index == o.index && kind_eq i.kind o.kind && matches (metric_of o) i

  module _ (changes : List Metric) where
    abbrev pub AllHaveChanges : List Interface → Type 0
    AllHaveChanges = All λ o. HasChange changes o.id

    write_one-AllHaveChanges :
        (before : Snapshot) (m : Metric) (touched : List Interface) (w : W)
        → HasChange changes m.id
        → AllHaveChanges touched
        → AllHaveChanges (write_one settings before m (touched, w)).1.0
    write_one-AllHaveChanges before m touched w c h = elim (write_one_cases before m touched w) [
      | inl e ↦ rw e h
      | inr (o, there, e) ↦ rw e (
          All-append (λ o. HasChange changes o.id) touched (o ∷ []) h
            (rw (interface-id before m.id o there) c, tt))
    ]

    write_all-AllHaveChanges :
        (before : Snapshot) (ms : List Metric) (touched : List Interface) (w : W)
        → All (λ m. HasChange changes m.id) ms
        → AllHaveChanges touched
        → AllHaveChanges (write_all settings before ms (touched, w)).1.0
    unfolding write_all
    write_all-AllHaveChanges before [] touched w c h = h
    write_all-AllHaveChanges before (m ∷ ms) touched w c h =
        let (t, v) = (write_one settings before m (touched, w)).1 in
        let one : AllHaveChanges t = write_one-AllHaveChanges before m touched w c.0 h in
        elim (Result-cases (write_one settings before m (touched, w)).0) [
          | inl (_, e) ↦ rw (e, write_all, ◌>>=◌) (write_all-AllHaveChanges before ms t v c.1 one)
          | inr (x, e) ↦ rw (e, write_all, ◌>>=◌) one
        ]

HasChange-cons : (c : Metric) (ms : List Metric) (n : ℕ) → HasChange ms n → HasChange (c ∷ ms) n
HasChange-cons c ms n (x, e) = elim (Bool-cases (c.id == n)) [
  | inl hit ↦ (c, rw hit)
  | inr miss ↦ (x, rw miss e)
]

-- Every change is found by its own identifier.
changes-HasChange : (ms : List Metric) → All (λ m. HasChange ms m.id) ms
changes-HasChange [] = tt
changes-HasChange (c ∷ ms) = (
  (c, ground arith),
  All-map (λ m. HasChange ms m.id) (λ m. HasChange (c ∷ ms) m.id) ms
      (λ m h. HasChange-cons c ms m.id h) (changes-HasChange ms),
)

ordered-HasChange :
    {W : Type 0} (settings : Settings W) (q : Request)
    → All (λ m. HasChange q.changes m.id) (ordered settings q)
unfolding ordered
ordered-HasChange settings q =
    sort_by-All _ (λ m. HasChange q.changes m.id) q.changes (changes-HasChange q.changes)

attempt-touched :
    {W : Type 0} (settings : Settings W) (q : Request) (before : Snapshot) (w : W)
    → (attempt settings q before ([], w)).1.0
      ≡ (write_all settings before (ordered settings q) ([], w)).1.0
unfolding attempt check_alive
attempt-touched {W} settings q before w = elim (Result-cases written.0) [
  | inr (e, x) ↦ rw (x, attempt, ◌>>=◌)
  | inl (_, x) ↦ elim (Bool-cases (settings.alive written.1.1).0) [
    | inr dead ↦ rw (x, dead, attempt, ◌>>=◌)
    | inl alive ↦ elim (Result-cases (settings.read (settings.alive written.1.1).1).0) [
      | inr (e, unread) ↦ rw (x, alive, unread, attempt, ◌>>=◌)
      | inl (after, seen) ↦ elim (Result-cases (verify_after q after)) [
        | inr (e, bad) ↦ rw (x, alive, seen, bad, attempt, ◌>>=◌)
        | inl (_, good) ↦ rw (x, alive, seen, good, attempt, ◌>>=◌)
      ]
    ]
  ]
]
  where
    written : Result (Unit {0}) × (List Interface × W)
    written = write_all settings before (ordered settings q) ([], w)

-- In every operation, each interface that has been touched when the attempt ends has a change: the
-- `expect` of the revert cannot panic.
pub attempt-HasChange :
    {W : Type 0} (settings : Settings W) (q : Request) (before : Snapshot) (w : W)
    → All (λ o. HasChange q.changes o.id) (attempt settings q before ([], w)).1.0
attempt-HasChange settings q before w = rw (attempt-touched settings q before w) (
    write_all-AllHaveChanges settings q.changes before (ordered settings q) [] w
      (ordered-HasChange settings q) tt)
