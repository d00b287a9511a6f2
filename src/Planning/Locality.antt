-- ===== src/Planning/Locality.antt =====
-- Which paths planning.rs asks the file system about (crates/netlane-core/src/planning.rs).
use netlane.Prelude.{
  Bool, true, false, List, [], ◌∷◌, ◌++◌, map, Option, none, some, ◌≡◌, ap, arith, All, All-map,
  All-of_map, if◌then◌else◌, inl, inr, Bool-cases, Option-cases, Text, text, is_in,
}
use netlane.Model.{RouteMode, mode_eq, RoutingPolicy, PlannedRule}
use netlane.Model.Policies.{Library, is_local_path}
use netlane.Planning.{
  Expansion, expands, names, folders, candidate, root_of, add_helper, add_helpers, expand_one,
  expand_all, explicit_names, expand_policies, expand_related, find_existing, retire, retire_rules,
  retire_missing, is_present,
}
use netlane.Planning.Questions.{AllAsked, bind-AllAsked, answer_agree, done}
use netlane.Planning.Local.{
  Clean, IsLocal, root_of-local, candidate-local, names-Clean, folders-Clean,
}

is_present-AllAsked : (o : Option Text) → AllAsked IsLocal (is_present o)
unfolding is_present
is_present-AllAsked none = tt
is_present-AllAsked (some t) = elim (Bool-cases (is_local_path t)) [
  | inl e ↦ rw (e, is_present) (e, λ _. tt)
  | inr e ↦ rw (e, is_present) tt
]

retire-AllAsked : (r : PlannedRule) → AllAsked IsLocal (retire r)
unfolding retire
retire-AllAsked r = elim (Bool-cases (mode_eq r.mode RouteMode.automatic)) [
  | inl e ↦ rw (e, retire) tt
  | inr e ↦
      rw (e, retire)
        (bind-AllAsked IsLocal (is_present r.executable) _ (is_present-AllAsked r.executable)
          (λ _. tt))
]

retire_rules-AllAsked : (rs : List PlannedRule) → AllAsked IsLocal (retire_rules rs)
unfolding retire_rules
retire_rules-AllAsked [] = tt
retire_rules-AllAsked (r ∷ rs) =
    bind-AllAsked IsLocal (retire r) _ (retire-AllAsked r)
      (λ _. bind-AllAsked IsLocal (retire_rules rs) _ (retire_rules-AllAsked rs) (λ _. tt))

-- Behind the answer to the first question.
found-AllAsked :
    (c : Text) (cs : List Text)
    → AllAsked IsLocal (find_existing cs)
    → (b : Bool) → AllAsked IsLocal (if b then done (some c) else find_existing cs)
found-AllAsked c cs h true = tt
found-AllAsked c cs h false = h

find_existing-AllAsked : (cs : List Text) → All IsLocal cs → AllAsked IsLocal (find_existing cs)
unfolding find_existing
find_existing-AllAsked [] h = tt
find_existing-AllAsked (c ∷ cs) h = (h.0, found-AllAsked c cs (find_existing-AllAsked cs h.1))

module _ {V : Type 0} where
  add_helper-AllAsked :
      (p : RoutingPolicy V) (root name : Text) (e : Expansion V)
      → is_local_path (root ++ text "\\") ≡ true
      → Clean name
      → AllAsked IsLocal (add_helper p root name e)
  unfolding add_helper
  add_helper-AllAsked p root name e h n = elim (Bool-cases (is_in e.1 name)) [
    | inl seen ↦ rw (seen, add_helper) tt
    | inr fresh ↦
        let candidates = map (candidate root name) (folders name) in
        let locals : All IsLocal candidates =
          All-of_map IsLocal (candidate root name) (folders name) (
            All-map Clean (λ d. IsLocal (candidate root name d)) (folders name)
              (λ d c. candidate-local root name d h n c) (folders-Clean name)) in
        rw (fresh, add_helper)
          (bind-AllAsked IsLocal (find_existing candidates) _
            (find_existing-AllAsked candidates locals) (λ _. tt))
  ]

  add_helpers-AllAsked :
      (p : RoutingPolicy V) (root : Text) (ns : List Text) (e : Expansion V)
      → is_local_path (root ++ text "\\") ≡ true
      → All Clean ns
      → AllAsked IsLocal (add_helpers p root ns e)
  unfolding add_helpers
  add_helpers-AllAsked p root [] e h n = tt
  add_helpers-AllAsked p root (x ∷ xs) e h n =
      bind-AllAsked IsLocal (add_helper p root x e) (add_helpers p root xs)
        (add_helper-AllAsked p root x e h n.0) (λ u. add_helpers-AllAsked p root xs u h n.1)

  expand_one-AllAsked :
      (p : RoutingPolicy V) (o : Option Text) (e : Expansion V)
      → AllAsked IsLocal (expand_one p o e)
  unfolding expand_one
  expand_one-AllAsked p none e = tt
  expand_one-AllAsked p (some path) e = elim (Bool-cases (expands p path)) [
    | inr shut ↦ rw (shut, expand_one) tt
    | inl passes ↦ elim (Option-cases (root_of path)) [
      | inl none_there ↦ rw (passes, none_there, expand_one) tt
      | inr (root, there) ↦
          rw (passes, there, expand_one)
            (add_helpers-AllAsked p root names e
              (root_of-local path root (ground (arith, passes)) there) names-Clean)
    ]
  ]

  expand_all-AllAsked :
      (ps : List (RoutingPolicy V)) (e : Expansion V) → AllAsked IsLocal (expand_all ps e)
  unfolding expand_all
  expand_all-AllAsked [] e = tt
  expand_all-AllAsked (p ∷ ps) e =
      bind-AllAsked IsLocal (expand_one p p.executable_path e) (expand_all ps)
        (expand_one-AllAsked p p.executable_path e) (expand_all-AllAsked ps)

-- Whatever the answers, `expand_related` and `retire_missing` ask the file system about local paths only. So
-- what a test would answer about another path makes no difference: two tests that agree on local paths give
-- the same policies and the same rules.
pub exists-IsLocal :
    {V : Type 0} (lib : Library) (policies : List (RoutingPolicy V)) (rules : List PlannedRule)
    → AllAsked IsLocal (expand_policies lib policies)
      × AllAsked IsLocal (retire_rules rules)
      × ((f g : Text → Bool)
          → ((t : Text) → is_local_path t ≡ true → f t ≡ g t)
          → (expand_related lib policies f ≡ expand_related lib policies g)
            × (retire_missing rules f ≡ retire_missing rules g))
unfolding expand_policies expand_related retire_missing
exists-IsLocal lib policies rules =
    let expanding = expand_all-AllAsked policies (policies, explicit_names lib policies) in
    let retiring = retire_rules-AllAsked rules in
    (
      expanding,
      retiring,
      λ f g agree. (
        ap (λ e. e.0) (answer_agree IsLocal f g agree (expand_policies lib policies) expanding),
        answer_agree IsLocal f g agree (retire_rules rules) retiring,
      ),
    )
