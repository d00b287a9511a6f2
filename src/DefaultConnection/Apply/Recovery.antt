-- ===== src/DefaultConnection/Apply/Recovery.antt =====
-- What `apply` and `Receipt::revert` of crates/netlane-core/src/default_connection.rs promise.
use netlane.Prelude.{
  true, false, List, [], ◌∷◌, ◌++◌, ◌≡◌, refl, sym, ap, ◌∙◌, inl, inr, arith, ◌==◌, ◌&&◌, Text,
  text, all, All, Result, ok, err, Bool-cases, Result-cases, is_empty, reverse,
}
use netlane.Prelude.Actions.{Action, ◌>>=◌, ◌>>◌, pure, lift, bind_inversion, checked_end}
use netlane.DefaultConnection.{kind_eq, Interface, Snapshot, Request, Receipt}
use netlane.DefaultConnection.Plan.{validate, interface, metric_of, matches}
use netlane.DefaultConnection.Apply.Priority.{HoldsActive, HoldsSaved, matches-Holds, kind_eq_sound}
use netlane.DefaultConnection.Requests.{verify_after, validate_against}
use netlane.DefaultConnection.Apply.{
  Settings, is_restored, revert_all, read_valid, revert, checked, apply, settle, attempt, Attempt,
  write_all, ordered, on_system, check_alive,
}

-- The interface is back: of the same identity, with its original priority in both stores.
abbrev pub IsBack : Snapshot → Interface → Type 0
IsBack s o =
    (i : Interface) × (interface s o.id ≡ ok i)
    × (i.index ≡ o.index)
    × (i.kind ≡ o.kind)
    × HoldsActive (metric_of o) i
    × HoldsSaved (metric_of o) i

is_restored-IsBack : (s : Snapshot) (o : Interface) → is_restored s o ≡ true → IsBack s o
is_restored-IsBack s o h = elim (Result-cases (interface s o.id)) [
  | inr (e, gone) ↦ absurd (ground (arith, h, gone))
  | inl (i, there) ↦
      let k : (i.index == o.index && kind_eq i.kind o.kind && matches (metric_of o) i) ≡ true =
        ground (arith, h, there) in
      let (active, saved) = matches-Holds (metric_of o) i (ground (arith, k)) in
      (i, there, ground (arith, k), kind_eq_sound i.kind o.kind (ground (arith, k)), active, saved)
]

all-IsBack :
    (s : Snapshot) (os : List Interface) → all (is_restored s) os ≡ true → All (IsBack s) os
all-IsBack s [] h = tt
all-IsBack s (o ∷ os) h =
    (is_restored-IsBack s o (ground (arith, h)), all-IsBack s os (ground (arith, h)))

is_empty_sound : (errors : List Text) → is_empty errors ≡ true → errors ≡ []
is_empty_sound [] h = refl
is_empty_sound (e ∷ errors) h = cc

module _ {W : Type 0} (settings : Settings W) where
  read_valid-validate :
      (w : W) (s : Snapshot) → (read_valid settings w).0 ≡ ok s → validate s ≡ ok tt
  unfolding read_valid
  read_valid-validate w s h = checked_end settings.read validate w s h

  -- A valid reading is a reading, and validating it leaves the system alone.
  read_valid-reading :
      (w : W) (s : Snapshot) → (read_valid settings w).0 ≡ ok s → (settings.read w).0 ≡ ok s
  unfolding read_valid
  read_valid-reading w s h = elim (Result-cases (settings.read w).0) [
    | inr (m, e) ↦ absurd (ground (arith, e, h))
    | inl (t, e) ↦ elim (Result-cases (validate t)) [
      | inr (m, f) ↦ absurd (ground (arith, e, f, h))
      | inl (_, f) ↦ ground (arith, e, f, h)
    ]
  ]

  pub read_valid-state : (w : W) → (read_valid settings w).1 ≡ (settings.read w).1
  unfolding read_valid
  read_valid-state w = elim (Result-cases (settings.read w).0) [
    | inr (m, e) ↦ rw (e, read_valid, ◌>>=◌)
    | inl (t, e) ↦ elim (Result-cases (validate t)) [
      | inr (m, f) ↦ rw (e, f, read_valid, ◌>>=◌)
      | inl (_, f) ↦ rw (e, f, read_valid, ◌>>=◌)
    ]
  ]

  more_errors : (errors : List Text) (e : Text) → is_empty (errors ++ e ∷ []) ≡ false
  more_errors [] e = refl
  more_errors (x ∷ errors) e = refl

  -- What a confirmed rollback rests on: the rounds made no error, and the reading taken behind them, which is
  -- the snapshot, is valid and has every touched interface back.
  abbrev Rests : List Interface → List Text → Result Snapshot → Snapshot → Type 0
  Rests original errors r s =
      (errors ≡ []) × (r ≡ ok s) × (validate s ≡ ok tt) × All (IsBack s) original

  checked_lem :
      (original : List Interface) (errors : List Text) (r : Result Snapshot)
      → ((s : Snapshot) → r ≡ ok s → validate s ≡ ok tt)
      → let (s, es) = checked settings original errors r in
        is_empty es ≡ true → Rests original errors r s
  checked_lem original errors (ok s) valid h = elim (Bool-cases (all (is_restored s) original)) [
    | inl back ↦ (
      is_empty_sound errors (ground (arith, h, back)),
      refl,
      valid s refl,
      all-IsBack s original back,
    )
    | inr lost ↦ absurd (ground (arith, more_errors errors (text "Restauração não confirmada.")))
  ]
  checked_lem original errors (err e) valid h =
      absurd
        (ground (arith, more_errors errors (text "Não foi possível conferir a restauração: " ++ e)))

  -- A revert ends without success and with nothing left to revert. Its last step is a reading behind all its
  -- rounds, and it confirms the rollback only if no round made an error and this reading, which is then the
  -- result's snapshot, is valid and has every touched interface back: of the same identity, with its original
  -- priority active and saved.
  pub revert-confirmed :
      (receipt : Receipt) (w : W)
      → let (r, u) = revert settings receipt w in
        let (errors, v) = revert_all settings receipt.changes (reverse receipt.original) [] w in
        (r.result.success ≡ false)
        × (r.original ≡ [])
        × (u ≡ (settings.read v).1)
        × (r.result.rollback_confirmed ≡ true
            → (errors ≡ [])
              × ((settings.read v).0 ≡ ok r.result.snapshot)
              × (validate r.result.snapshot ≡ ok tt)
              × All (IsBack r.result.snapshot) receipt.original)
  unfolding revert
  revert-confirmed receipt w = (
    refl,
    refl,
    read_valid-state _,
    let (errors, v) = revert_all settings receipt.changes (reverse receipt.original) [] w in
        λ h.
          let (quiet, read, valid, back) =
            checked_lem receipt.original errors (read_valid settings v).0 (read_valid-validate v)
              h in
          (quiet, read_valid-reading v _ read, valid, back),
  )

  -- A request that is refused before the operation begins has read the system once and written
  -- nothing.
  pub apply_refused :
      (q : Request) (w : W) (e : Text)
      → (apply settings q w).0 ≡ err e
      → (apply settings q w).1 ≡ (settings.read w).1
  unfolding apply
  apply_refused q w e h = elim (Result-cases (settings.read w).0) [
    | inr (m, unread) ↦ rw (unread, apply, ◌>>=◌)
    | inl (before, seen) ↦ elim (Result-cases (validate_against q before)) [
      | inr (m, refused) ↦ rw (seen, refused, apply, ◌>>=◌)
      | inl (_, valid) ↦
          let started : (apply settings q w).0
              ≡ ok
                  (settle settings q before
                    (attempt settings q before ([], (settings.read w).1))).0 =
            rw (seen, valid, apply, ◌>>=◌) in
          ground (arith, started)
    ]
  ]

  attempt-verify_after :
      (q : Request) (before after : Snapshot) (s : List Interface × W)
      → (attempt settings q before s).0 ≡ ok after
      → verify_after q after ≡ ok tt
  unfolding attempt
  attempt-verify_after q before after s h =
      let (_, _, e) = bind_inversion writing (λ _. guarding >> ending) s after h in
      let (_, _, e') =
        bind_inversion guarding (λ _. ending) (writing s).1 after (ap (λ r. r.0) (sym e) ∙ h) in
      checked_end (on_system settings settings.read) (verify_after q) (guarding (writing s).1).1
        after (ap (λ r. r.0) (sym (e ∙ e')) ∙ h)
    where
      writing : Attempt settings (Unit {0})
      writing = write_all settings before (ordered settings q)

      guarding : Attempt settings (Unit {0})
      guarding = on_system settings (check_alive settings)

      ending : Attempt settings Snapshot
      ending = on_system settings settings.read >>= λ a. lift (verify_after q a) >> pure a

  settle-verify_after :
      (q : Request) (before : Snapshot) (r : Result Snapshot) (s : List Interface × W)
      → ((after : Snapshot) → r ≡ ok after → verify_after q after ≡ ok tt)
      → let receipt = (settle settings q before (r, s)).0 in
        receipt.result.success ≡ true → verify_after q receipt.result.snapshot ≡ ok tt
  unfolding settle
  settle-verify_after q before (ok after) (touched, w) verified h = verified after refl
  settle-verify_after q before (err e) (touched, w) verified h =
      ground (arith, (revert-confirmed (failed e touched) w).0)
    where
      failed : Text → List Interface → Receipt
      failed e touched = record {
        result = record {
          snapshot = before;
          success = false;
          detail = e;
          rollback_confirmed = false;
        };
        original = touched;
        changes = q.changes;
      }

  -- An operation that reports success has read back a snapshot that is valid, holds every requested
  -- priority and has the preferred interface as the default route.
  pub apply-verify_after :
      (q : Request) (w : W) (receipt : Receipt)
      → (apply settings q w).0 ≡ ok receipt
      → receipt.result.success ≡ true
      → verify_after q receipt.result.snapshot ≡ ok tt
  unfolding apply
  apply-verify_after q w receipt h done =
      let (before, _, e) =
        bind_inversion settings.read (λ b. lift (validate_against q b) >> operating b) w receipt
          h in
      let (_, _, e') =
        bind_inversion (lift (validate_against q before)) (λ _. operating before)
          (settings.read w).1 receipt (ap (λ r. r.0) (sym e) ∙ h) in
      let s : List Interface × W = ([], (settings.read w).1) in
      let same : ok (settle settings q before (attempt settings q before s)).0 ≡ ok receipt =
        ap (λ r. r.0) (sym (e ∙ e')) ∙ h in
      let is_it : (settle settings q before (attempt settings q before s)).0 ≡ receipt = cc in
      rw (← is_it) (
        settle-verify_after q before (attempt settings q before s).0 (attempt settings q before s).1
          (λ after. attempt-verify_after q before after s) (rw is_it done))
    where
      operating : Snapshot → Action W Receipt
      operating before v =
          let (r, u) = settle settings q before (attempt settings q before ([], v)) in (ok r, u)
