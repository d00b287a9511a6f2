-- ===== src/Model/Policies/Valid.antt =====
-- What `validate_policies` of crates/netlane-core/src/model.rs accepts.
use netlane.Prelude.{
  Bool, true, false, not, ◌≤◌, List, [], ◌∷◌, ◌++◌, Text, text, trim, str_eq, is_in, is_empty,
  length, leb, ◌≡◌, ◌↔◌, refl, arith, All, Result, ok, ensure, ensure-eq-ok, ◌>>◌, >>=-eq-ok,
}
use netlane.Model.Types.{RoutingPolicy}
use netlane.Model.Policies.{
  Library, max_policies, id_passes, key_of, check_policies, validate_policies,
}

three_checks :
    (x y z : Text) (a b c : Bool) (r : Result (Unit {0}))
    → (ensure a x >> ensure b y >> ensure c z >> r) ≡ ok tt
    → (a ≡ true) × (b ≡ true) × (c ≡ true) × (r ≡ ok tt)
three_checks x y z false b c r h = cc
three_checks x y z true false c r h = cc
three_checks x y z true true false r h = cc
three_checks x y z true true true r h = (refl, refl, refl, h)

module _ {V : Type 0} (lib : Library) where
  -- A rule in itself: it names a program, and its adapter, if it has one, is a UUID.
  abbrev pub IsNamed : RoutingPolicy V → Type 0
  IsNamed p = (is_empty (trim p.application_id) ≡ false) × (id_passes lib p.interface_id ≡ true)

  -- The rules name different programs.
  abbrev pub Distinct : List (RoutingPolicy V) → Type 0
  Distinct [] = Unit
  Distinct (p ∷ ps) = All (λ q. str_eq (key_of lib p) (key_of lib q) ≡ false) ps × Distinct ps

  abbrev Unseen : List Text → List (RoutingPolicy V) → Type 0
  Unseen names = All (λ p. is_in names (key_of lib p) ≡ false)

  Unseen-split :
      (k : Text) (names : List Text) (ps : List (RoutingPolicy V))
      → Unseen (k ∷ names) ps
      → All (λ q. str_eq k (key_of lib q) ≡ false) ps × Unseen names ps
  Unseen-split k names [] h = (tt, tt)
  Unseen-split k names (p ∷ ps) h =
      let (a, b) = Unseen-split k names ps h.1 in
      ((ground (arith, h.0), a), (ground (arith, h.0), b))

  Unseen-join :
      (k : Text) (names : List Text) (ps : List (RoutingPolicy V))
      → All (λ q. str_eq k (key_of lib q) ≡ false) ps
      → Unseen names ps
      → Unseen (k ∷ names) ps
  Unseen-join k names [] h g = tt
  Unseen-join k names (p ∷ ps) h g = (ground (arith, h.0, g.0), Unseen-join k names ps h.1 g.1)

  check_policies_sound :
      (names : List Text) (ps : List (RoutingPolicy V))
      → check_policies lib names ps ≡ ok tt
      → All IsNamed ps × Distinct ps × Unseen names ps
  unfolding check_policies
  check_policies_sound names [] h = (tt, tt, tt)
  check_policies_sound names (p ∷ ps) h =
      let (a, b, c, rest) =
        three_checks (text "Toda regra deve identificar um aplicativo.")
          (text "Há mais de uma regra para " ++ p.application_id ++ text ".")
          (text "Identificador de adaptador inválido para " ++ p.application_id ++ text ".")
          (not (is_empty (trim p.application_id))) (not (is_in names (key_of lib p)))
          (id_passes lib p.interface_id) (check_policies lib (key_of lib p ∷ names) ps) h in
      let (named, distinct, unseen) = check_policies_sound (key_of lib p ∷ names) ps rest in
      let (apart, later) = Unseen-split (key_of lib p) names ps unseen in
      (((ground (arith, a), c), named), (apart, distinct), (ground (arith, b), later))

  check_policies_complete :
      (names : List Text) (ps : List (RoutingPolicy V))
      → All IsNamed ps
      → Distinct ps
      → Unseen names ps
      → check_policies lib names ps ≡ ok tt
  unfolding check_policies
  check_policies_complete names [] h d u = refl
  check_policies_complete names (p ∷ ps) h d u =
      rw
        (
          h.0.0,
          u.0,
          h.0.1,
          check_policies_complete (key_of lib p ∷ names) ps h.1 d.1
              (Unseen-join (key_of lib p) names ps d.0 u.1),
        )
        refl

  Unseen-nil : (ps : List (RoutingPolicy V)) → Unseen [] ps
  Unseen-nil [] = tt
  Unseen-nil (p ∷ ps) = (refl, Unseen-nil ps)

  -- `validate_policies` accepts exactly the lists of at most 4096 rules in which every rule names a
  -- program, every adapter identifier that is not blank is a UUID, and no two programs have one name up to
  -- blanks at the ends and case.
  pub validate_policies_iff :
      (ps : List (RoutingPolicy V))
      → (validate_policies lib ps ≡ ok tt) ↔ ((length ps ≤ 4096) × All IsNamed ps × Distinct ps)
  unfolding validate_policies
  validate_policies_iff ps = (
    λ h.
        let (_, a, b) =
          >>=-eq-ok (ensure (leb (length ps) max_policies) (text "Limite de 4096 regras excedido."))
            (λ _. check_policies lib [] ps) h in
        let few = ensure-eq-ok (leb (length ps) max_policies) _ a in
        let (named, distinct, _) = check_policies_sound [] ps b in
        (ground (arith, few), named, distinct),
    λ (few, named, distinct).
        let small : leb (length ps) max_policies ≡ true = ground (arith, few) in
        rw small (check_policies_complete [] ps named distinct (Unseen-nil ps)),
  )
