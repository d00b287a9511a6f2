-- ===== src/DefaultConnection/Tests.antt =====
-- Witnesses and tests for crates/netlane-core/src/default_connection.rs.
use netlane.Prelude.{
  true, false, [], ◌∷◌, some, ◌≡◌, ◌≢◌, refl, reverse, ℕ, List, map, ◌==◌, Bool-cases, inl, inr,
  arith, ap, sym, subst, ok_or-eq-ok, ◌↔◌, text, len, ok, err, All,
}
use netlane.DefaultConnection.{Interface, Metric, Request}
use netlane.DefaultConnection.Plan.{validate, validate_metrics, plan, valid_name}
use netlane.DefaultConnection.Plan.Valid.{IsConsistent, validate_iff}
use netlane.DefaultConnection.Plan.Written.{
  written, set_metric, follow, change_of, write_interface, set_metric-Keeps,
}
use netlane.DefaultConnection.Plan.Lookup.{by_id_of}
use netlane.DefaultConnection.Requests.{verify_after, validate_against}
use netlane.DefaultConnection.Requests.Planned.{plan-verify_after}
use netlane.DefaultConnection.Apply.{
  revert, revert_one, revert_all, revert_if_ours, read_valid, apply, attempt,
}
use netlane.DefaultConnection.Memory.{
  wired, wireless, reading, changes, System, system_settings, start, request, outcome,
  confirmed_receipt, request-applies,
}
use netlane.DefaultConnection.Apply.Foreign.{IsWatched, revert-foreign}
use netlane.DefaultConnection.Apply.Recovery.{
  IsBack, revert-confirmed, apply_refused, apply-verify_after,
}
use netlane.DefaultConnection.Apply.Touched.{HasChange, attempt-HasChange}

reading-plan : plan reading 12 [] ≡ ok changes
unfolding plan validate valid_name len text
reading-plan = refl

plan-verify_after_example :
    verify_after
      (record { expected = reading; changes = changes; preferred_interface = some 12 })
      (written reading changes)
    ≡ ok tt
plan-verify_after_example = plan-verify_after reading 12 [] changes reading-plan

validate_iff_example : (validate reading ≡ ok tt) ↔ IsConsistent reading
validate_iff_example = validate_iff reading

apply-verify_after_example : verify_after request outcome ≡ ok tt
apply-verify_after_example =
    apply-verify_after system_settings request start confirmed_receipt request-applies refl

abbrev empty_request : Request
empty_request = record request { changes = [] }

empty_request-refused :
    (apply system_settings empty_request start).0 ≡ err (text "Lista de prioridades inválida.")
unfolding apply validate_against validate validate_metrics valid_name len text
empty_request-refused = refl

apply_refused_example : (apply system_settings empty_request start).1 ≡ start
apply_refused_example =
    apply_refused system_settings empty_request start (text "Lista de prioridades inválida.")
      empty_request-refused

-- The Wi-Fi adapter has been lowered and is put back.
abbrev moved : System
moved = record { now = outcome; writes = 2 }

revert-confirmed_example :
    let (r, u) = revert system_settings confirmed_receipt moved in
    let (errors, v) =
      revert_all system_settings changes (reverse (wired ∷ wireless ∷ [])) [] moved in
    (r.result.success ≡ false)
    × (r.original ≡ [])
    × (u ≡ v)
    × (r.result.rollback_confirmed ≡ true
        → (errors ≡ [])
          × (ok v.now ≡ ok r.result.snapshot)
          × (validate r.result.snapshot ≡ ok tt)
          × All (IsBack r.result.snapshot) (wired ∷ wireless ∷ []))
revert-confirmed_example = revert-confirmed system_settings confirmed_receipt moved

confirmed_test : (revert system_settings confirmed_receipt moved).0.result.rollback_confirmed ≡ true
unfolding revert revert_all revert_one revert_if_ours read_valid validate written set_metric follow
    valid_name len text
confirmed_test = refl

-- Another program has given the Wi-Fi adapter the priority 77 since.
abbrev foreign : Interface
foreign = record wireless { automatic_metric = false; metric = 77; saved_metric = some 77 }

abbrev edited : System
edited = record { now = record outcome { interfaces = wired ∷ foreign ∷ [] }; writes = 2 }

-- A write to one interface leaves the others.
by_id-write_other :
    (m : Metric) (n : ℕ) (is : List Interface)
    → m.id ≢ n
    → by_id_of (map (write_interface (m ∷ [])) is) n ≡ by_id_of is n
unfolding set_metric
by_id-write_other m n [] h = refl
by_id-write_other m n (j ∷ is) h =
    let k = (set_metric-Keeps (change_of (m ∷ []) j.id) j).same_id in
    elim (Bool-cases (j.id == n)) [
      | inl hit ↦
          let not_named : (m.id == j.id) ≡ false = ground (arith, h, hit) in
          let same : write_interface (m ∷ []) j ≡ j = rw (not_named, set_metric) refl in
          simp (k, hit) (ap some same)
      | inr miss ↦ simp (k, miss) (by_id-write_other m n is h)
    ]

wifi-IsWatched : IsWatched system_settings 12
unfolding written
wifi-IsWatched = record {
  row = λ w. by_id_of w.now.interfaces 12;
  read_shows = λ w now i seen there.
      let same : w.now ≡ now = cc in
      subst (λ s. by_id_of s.interfaces 12 ≡ some i) (sym same)
        (ok_or-eq-ok (by_id_of now.interfaces 12) _ i there);
  read_keeps = λ w. refl;
  write_other = λ m w other. by_id-write_other m 12 w.now.interfaces other;
}

revert-foreign_example :
    by_id_of (revert system_settings confirmed_receipt edited).1.now.interfaces 12 ≡ some foreign
unfolding wifi-IsWatched
revert-foreign_example =
    revert-foreign system_settings 12 wifi-IsWatched confirmed_receipt foreign edited refl (
      λ e. absurd (omega (arith, e)),
      (
        λ _. (
          λ e. absurd (omega (arith, e)),
          (
            λ _ ours. elim ours.0 [
              | inl a ↦ let q : false ≡ true = a.0 in cc
              | inr a ↦ let q : 77 ≡ 5 = a.1 refl in absurd (omega (arith, q))
            ],
            tt,
          ),
        ),
        tt,
      ),
    )

attempt-HasChange_example :
    All (λ o. HasChange changes o.id) (attempt system_settings request reading ([], start)).1.0
attempt-HasChange_example = attempt-HasChange system_settings request reading start
