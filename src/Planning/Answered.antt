-- ===== src/Planning/Answered.antt =====
-- crates/netlane-core/src/planning.rs over a file system whose answers are those of a test.
use netlane.Prelude.{
  Bool, true, false, not, ◌&&◌, List, [], ◌∷◌, map, Option, none, some, ◌≡◌, refl, ap, ◌∙◌, find,
  if◌then◌else◌, is_in, Bool-cases, Option-cases, inl, inr, Text,
}
use netlane.Model.{RouteMode, mode_eq, RoutingPolicy, PlannedRule}
use netlane.Model.Policies.{Library, is_local_path}
use netlane.Planning.{
  Expansion, withdrawn, expands, names, folders, candidate, root_of, add_found, explicit_names,
  expand_related, retire_missing, expand_policies, retire_rules, find_existing,
}
use netlane.Planning as Code
use netlane.Planning.Questions.{answer, answer-bind, done}

abbrev pub is_present : (Text → Bool) → Option Text → Bool
is_present exists none = false
is_present exists (some p) = is_local_path p && exists p

unfoldable pub retire : (Text → Bool) → PlannedRule → PlannedRule
retire exists r =
    if not (mode_eq r.mode RouteMode.automatic) && not (is_present exists r.executable)
    then withdrawn r
    else r

if-not : {A : Type 0} (b : Bool) (x y : A) → (if b then x else y) ≡ (if not b then y else x)
if-not true x y = refl
if-not false x y = refl

module _ (exists : Text → Bool) where
  answer-is_present : (o : Option Text) → answer exists (Code.is_present o) ≡ is_present exists o
  unfolding Code.is_present answer
  answer-is_present none = refl
  answer-is_present (some p) = elim (Bool-cases (is_local_path p)) [
    | inl e ↦ rw (e, Code.is_present, answer) refl
    | inr e ↦ rw (e, Code.is_present, answer) refl
  ]

  answer-retire : (r : PlannedRule) → answer exists (Code.retire r) ≡ retire exists r
  unfolding Code.retire retire answer
  answer-retire r = elim (Bool-cases (mode_eq r.mode RouteMode.automatic)) [
    | inl e ↦ rw (e, Code.retire, retire, answer) refl
    | inr e ↦
        let asked =
          answer-bind exists (Code.is_present r.executable)
            (λ present. done (if present then r else withdrawn r)) in
        rw (e, Code.retire, retire)
          (asked
            ∙ ap (λ b. if b then r else withdrawn r) (answer-is_present r.executable)
            ∙ if-not (is_present exists r.executable) r (withdrawn r))
  ]

  answer-retire_rules :
      (rs : List PlannedRule) → answer exists (retire_rules rs) ≡ map (retire exists) rs
  unfolding retire_rules answer
  answer-retire_rules [] = refl
  answer-retire_rules (r ∷ rs) =
      answer-bind exists (Code.retire r) _
      ∙ answer-bind exists (retire_rules rs) _
      ∙ ap (λ q. q ∷ answer exists (retire_rules rs)) (answer-retire r)
      ∙ ap (λ qs. retire exists r ∷ qs) (answer-retire_rules rs)

  pub retire_missing-map :
      (rs : List PlannedRule) → retire_missing rs exists ≡ map (retire exists) rs
  unfolding retire_missing
  retire_missing-map rs = answer-retire_rules rs

  answer-find_existing : (cs : List Text) → answer exists (find_existing cs) ≡ find exists cs
  unfolding find_existing answer
  answer-find_existing [] = refl
  answer-find_existing (c ∷ cs) = elim (Bool-cases (exists c)) [
    | inl e ↦ rw (e, answer) refl
    | inr e ↦ rw (e, answer) (answer-find_existing cs)
  ]

  module _ {V : Type 0} where
    unfoldable pub add_helper : RoutingPolicy V → Text → Text → Expansion V → Expansion V
    add_helper p root name e =
        if is_in e.1 name
        then e
        else add_found p name e (find exists (map (candidate root name) (folders name)))

    unfoldable pub add_helpers : RoutingPolicy V → Text → List Text → Expansion V → Expansion V
    add_helpers p root [] e = e
    add_helpers p root (n ∷ ns) e = add_helpers p root ns (add_helper p root n e)

    unfoldable pub expand_one : RoutingPolicy V → Option Text → Expansion V → Expansion V
    expand_one p none e = e
    expand_one p (some path) e =
        if expands p path
        then elim (root_of path) [ none ↦ e | some root ↦ add_helpers p root names e ]
        else e

    unfoldable pub expand_all : List (RoutingPolicy V) → Expansion V → Expansion V
    expand_all [] e = e
    expand_all (p ∷ ps) e = expand_all ps (expand_one p p.executable_path e)

    answer-add_helper :
        (p : RoutingPolicy V) (root name : Text) (e : Expansion V)
        → answer exists (Code.add_helper p root name e) ≡ add_helper p root name e
    unfolding Code.add_helper add_helper answer
    answer-add_helper p root name e = elim (Bool-cases (is_in e.1 name)) [
      | inl h ↦ rw (h, Code.add_helper, add_helper, answer) refl
      | inr h ↦
          let search = find_existing (map (candidate root name) (folders name)) in
          rw (h, Code.add_helper, add_helper)
            (answer-bind exists search (λ found. done (add_found p name e found))
              ∙ ap (add_found p name e)
                  (answer-find_existing (map (candidate root name) (folders name))))
    ]

    answer-add_helpers :
        (p : RoutingPolicy V) (root : Text) (ns : List Text) (e : Expansion V)
        → answer exists (Code.add_helpers p root ns e) ≡ add_helpers p root ns e
    unfolding Code.add_helpers add_helpers answer
    answer-add_helpers p root [] e = refl
    answer-add_helpers p root (n ∷ ns) e =
        answer-bind exists (Code.add_helper p root n e) (Code.add_helpers p root ns)
        ∙ ap (λ x. answer exists (Code.add_helpers p root ns x)) (answer-add_helper p root n e)
        ∙ answer-add_helpers p root ns (add_helper p root n e)

    answer-expand_one :
        (p : RoutingPolicy V) (o : Option Text) (e : Expansion V)
        → answer exists (Code.expand_one p o e) ≡ expand_one p o e
    unfolding Code.expand_one expand_one answer
    answer-expand_one p none e = refl
    answer-expand_one p (some path) e = elim (Bool-cases (expands p path)) [
      | inr shut ↦ rw (shut, Code.expand_one, expand_one, answer) refl
      | inl passes ↦ elim (Option-cases (root_of path)) [
        | inl none_there ↦ rw (passes, none_there, Code.expand_one, expand_one, answer) refl
        | inr (root, there) ↦
            rw (passes, there, Code.expand_one, expand_one) (answer-add_helpers p root names e)
      ]
    ]

    answer-expand_all :
        (ps : List (RoutingPolicy V)) (e : Expansion V)
        → answer exists (Code.expand_all ps e) ≡ expand_all ps e
    unfolding Code.expand_all expand_all answer
    answer-expand_all [] e = refl
    answer-expand_all (p ∷ ps) e =
        answer-bind exists (Code.expand_one p p.executable_path e) (Code.expand_all ps)
        ∙ ap (λ x. answer exists (Code.expand_all ps x)) (answer-expand_one p p.executable_path e)
        ∙ answer-expand_all ps (expand_one p p.executable_path e)

    pub expand_related-expand_all :
        (lib : Library) (policies : List (RoutingPolicy V))
        → expand_related lib policies exists
          ≡ (expand_all policies (policies, explicit_names lib policies)).0
    unfolding expand_related expand_policies
    expand_related-expand_all lib policies =
        ap (λ e. e.0) (answer-expand_all policies (policies, explicit_names lib policies))
