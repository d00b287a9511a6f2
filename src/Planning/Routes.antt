-- ===== src/Planning/Routes.antt =====
-- The rules of `plan` and `retire_missing` of crates/netlane-core/src/planning.rs.
use netlane.Prelude.{
  Bool, true, false, map, List, [], ◌∷◌, Option, none, some, ◌≡◌, ◌≢◌, ◌⊎◌, refl, sym, ap, arith,
  All, All-select, find, find-All, find-holds, subst, Mem, All-Mem, Each, is_empty, trim, inl, inr,
  Bool-cases, Option-cases, Text,
}
use netlane.Prelude.Sorting.{sort_by, sort_by-All}
use netlane.Model.{RouteMode, mode_eq, mode_eq_sound, RoutingPolicy, Adapter, PlannedRule}
use netlane.Model.Policies.{
  Library, mode, is_candidate, choose, first, by_name, resolve_interface, same_interface,
}
use netlane.Planning.{is_actionable, rule_of, plan, retire_missing}
use netlane.Planning.Answered.{is_present, retire, retire_missing-map}

-- An adapter that serves a mode: connected and of its kind.
abbrev pub Serves : RouteMode → Adapter → Type 0
Serves m a = (a.connected ≡ true) × (mode a ≡ some m)

is_candidate-Serves : (m : RouteMode) (a : Adapter) → is_candidate m a ≡ true → Serves m a
is_candidate-Serves m a h = elim (Option-cases (mode a)) [
  | inl e ↦ ground arith
  | inr (n, e) ↦ let same : n ≡ m = mode_eq_sound n m (ground arith) in ground arith
]

first-All : {A : Type 0} (P : A → Type 0) (xs : List A) (a : A) → All P xs → first xs ≡ some a → P a
first-All P [] a h e = cc
first-All P (x ∷ xs) a h e = subst P (cc e) h.0

-- The adapter that the policy names, where it names one.
abbrev pub Chosen : Library → Option Text → Adapter → Type 0
Chosen lib none a = Unit
Chosen lib (some id) a = (is_empty (trim id) ≡ true) ⊎ (same_interface lib a.id id ≡ true)

-- An adapter of the list that the policy may use.
abbrev pub Usable : {V : Type 0} → Library → List Adapter → RoutingPolicy V → Adapter → Type 0
Usable lib adapters p a = Mem a adapters × Serves p.route_mode a × Chosen lib p.interface_id a

module _ (lib : Library) where
  choose-Chosen :
      (P : Adapter → Type 0) (id : Option Text) (xs : List Adapter) (a : Adapter)
      → All P xs
      → choose lib id xs ≡ some a
      → P a × Chosen lib id a
  choose-Chosen P none xs a h e =
      (first-All P (sort_by (by_name lib) xs) a (sort_by-All (by_name lib) P xs h) e, tt)
  choose-Chosen P (some id) xs a h e = elim (Bool-cases (is_empty (trim id))) [
    | inl t ↦ (
      first-All P (sort_by (by_name lib) xs) a (sort_by-All (by_name lib) P xs h)
          (ground (arith, e, t)),
      inl t,
    )
    | inr t ↦
        let hit : find (λ b. same_interface lib b.id id) xs ≡ some a = ground (arith, e, t) in
        (
          find-All P (λ b. same_interface lib b.id id) xs a h hit,
          inr (find-holds (λ b. same_interface lib b.id id) xs a hit),
        )
  ]

  resolve_interface-Usable :
      {V : Type 0} (p : RoutingPolicy V) (adapters : List Adapter) (a : Adapter)
      → resolve_interface lib p adapters ≡ some a
      → Usable lib adapters p a
  unfolding resolve_interface
  resolve_interface-Usable p adapters a e =
      let ((m, c), n) =
        choose-Chosen (λ b. Mem b adapters × (is_candidate p.route_mode b ≡ true)) p.interface_id _
          a
          (All-select (λ b. Mem b adapters) (is_candidate p.route_mode) adapters (All-Mem adapters))
          e in
      (m, is_candidate-Serves p.route_mode a c, n)

-- Why a rule leaves the choice to Windows.
abbrev pub Withdrawn : {V : Type 0} → (Text → Bool) → Option Adapter → RoutingPolicy V → Type 0
Withdrawn exists target p =
    (is_actionable p ≡ false)
    ⊎ ((p.route_mode ≢ RouteMode.blocked) × (target ≡ none))
    ⊎ (is_present exists p.executable_path ≡ false)

-- The rule of a target.
abbrev pub Directed : Option Adapter → PlannedRule → Type 0
Directed none r = (r.mode ≡ RouteMode.blocked) × (r.luid ≡ 0) × (r.interface_id ≡ none)
Directed (some a) r =
    (r.luid ≡ a.luid) × (r.interface_id ≡ some a.id) × (r.ipv4 ≡ a.ipv4) × (r.ipv6 ≡ a.ipv6)

-- A rule with a mode of its own.
abbrev pub Enforced :
    {V : Type 0} → (Text → Bool) → Option Adapter → RoutingPolicy V → PlannedRule → Type 0
Enforced exists target p r =
    (is_actionable p ≡ true)
    × (is_present exists p.executable_path ≡ true)
    × (r.mode ≡ p.route_mode)
    × Directed target r

abbrev pub Routed :
    {V : Type 0} → (Text → Bool) → Option Adapter → RoutingPolicy V → PlannedRule → Type 0
Routed exists target p r =
    (r.application ≡ p.application_id)
    × (r.executable ≡ p.executable_path)
    × (((r.mode ≡ RouteMode.automatic) × Withdrawn exists target p) ⊎ Enforced exists target p r)

module _ {V : Type 0} (exists : Text → Bool) (p : RoutingPolicy V) where
  retire_automatic : (r : PlannedRule) → r.mode ≡ RouteMode.automatic → retire exists r ≡ r
  unfolding retire
  retire_automatic r e = rw e refl

  retire_absent :
      (r : PlannedRule)
      → is_present exists r.executable ≡ false
      → (retire exists r).mode ≡ RouteMode.automatic
  unfolding retire
  retire_absent r e = ground arith

  retire_present : (r : PlannedRule) → is_present exists r.executable ≡ true → retire exists r ≡ r
  unfolding retire
  retire_present r e = ground arith

  rule_of-Routed :
      (target : Option Adapter)
      → is_present exists p.executable_path ≡ true
      → Routed exists target p (rule_of p target)
  unfolding rule_of
  rule_of-Routed none e = elim (Bool-cases (is_actionable p)) [
    | inl a ↦ elim (Bool-cases (mode_eq p.route_mode RouteMode.blocked)) [
      | inl b ↦
          let same : p.route_mode ≡ RouteMode.blocked =
            mode_eq_sound p.route_mode RouteMode.blocked b in
          (refl, refl, inr (a, e, ground (arith, a, b), (ground (arith, a, b, same), refl, refl)))
      | inr b ↦ (
        refl,
        refl,
        inl (
          ground (arith, a, b),
          inr (inl ((λ q. cc (b, ap (λ m. mode_eq m RouteMode.blocked) q)), refl)),
        ),
      )
    ]
    | inr a ↦ (refl, refl, inl (ground (arith, a), inl a))
  ]
  rule_of-Routed (some t) e = elim (Bool-cases (is_actionable p)) [
    | inl a ↦ (refl, refl, inr (a, e, ground (arith, a), (refl, refl, refl, refl)))
    | inr a ↦ (refl, refl, inl (ground (arith, a), inl a))
  ]

  retire_kept :
      (r : PlannedRule)
      → ((retire exists r).application ≡ r.application)
        × ((retire exists r).executable ≡ r.executable)
  unfolding retire
  retire_kept r = ground arith

  retired-Routed :
      (target : Option Adapter) → Routed exists target p (retire exists (rule_of p target))
  unfolding rule_of
  retired-Routed target = elim (Bool-cases (is_present exists p.executable_path)) [
    | inl e ↦
        subst (Routed exists target p) (sym (retire_present (rule_of p target) e))
          (rule_of-Routed target e)
    | inr e ↦
        let (q, k) = retire_kept (rule_of p target) in
        (q, k, inl (retire_absent (rule_of p target) e, inr (inr e)))
  ]

-- What resolving a policy finds: an adapter that it may use, or none.
abbrev pub Resolved :
    {V : Type 0} → Library → List Adapter → RoutingPolicy V → Option Adapter → Type 0
Resolved lib adapters p none = Unit
Resolved lib adapters p (some a) = Usable lib adapters p a

mapped-Routed :
    {V : Type 0} (lib : Library) (exists : Text → Bool) (policies : List (RoutingPolicy V))
    (adapters : List Adapter)
    → Each
        (λ p r.
          Resolved lib adapters p (resolve_interface lib p adapters)
          × Routed exists (resolve_interface lib p adapters) p r)
        policies
        (map (retire exists) (plan lib policies adapters))
unfolding plan
mapped-Routed lib exists [] adapters = tt
mapped-Routed lib exists (p ∷ ps) adapters = (
  (
    resolved (Option-cases (resolve_interface lib p adapters)),
    retired-Routed exists p (resolve_interface lib p adapters),
  ),
  mapped-Routed lib exists ps adapters,
)
  where
    resolved :
        (resolve_interface lib p adapters ≡ none)
          ⊎ ((a : Adapter) × (resolve_interface lib p adapters ≡ some a))
        → Resolved lib adapters p (resolve_interface lib p adapters)
    resolved (inl e) = rw e tt
    resolved (inr (a, e)) =
        subst (Resolved lib adapters p) (sym e) (resolve_interface-Usable lib p adapters a e)

-- `plan` and `retire_missing` turn each policy, in order, into a rule for it. The rule has the
-- policy's mode only if the policy is enabled and not automatic, its executable is a local file that
-- is present, and it blocks or resolves to a connected adapter of the list, of its kind and named by it if
-- it names one, whose numbers are then the rule's. Otherwise the rule is automatic, for one of these reasons.
pub plan-Routed :
    {V : Type 0} (lib : Library) (exists : Text → Bool) (policies : List (RoutingPolicy V))
    (adapters : List Adapter)
    → Each
        (λ p r.
          Resolved lib adapters p (resolve_interface lib p adapters)
          × Routed exists (resolve_interface lib p adapters) p r)
        policies
        (retire_missing (plan lib policies adapters) exists)
plan-Routed lib exists policies adapters =
    subst
      (Each
        (λ p r.
          Resolved lib adapters p (resolve_interface lib p adapters)
          × Routed exists (resolve_interface lib p adapters) p r)
        policies)
      (sym (retire_missing-map exists (plan lib policies adapters)))
      (mapped-Routed lib exists policies adapters)
