-- ===== src/Planning/Related.antt =====
-- What `expand_related` of crates/netlane-core/src/planning.rs adds.
use netlane.Prelude.{
  Bool, true, false, List, [], ◌∷◌, ◌++◌, map, some, ◌≡◌, refl, sym, ap, subst, ◌∙◌, arith, All,
  All-append, append_assoc, append-nil, All-Mem, Mem, find, find-holds, inl, inr, Bool-cases,
  Option-cases, Text, str_eq, str_eq_refl, str_eq_sound, text, is_in,
}
use netlane.Model.{RoutingPolicy}
use netlane.Model.Policies.{Library}
use netlane.Planning.{
  Expansion, related, expands, names, folders, candidate, root_of, explicit_names, expand_related,
}
use netlane.Planning.Answered.{
  add_helper, add_helpers, expand_one, expand_all, expand_related-expand_all,
}

is_in-append : (xs ys : List Text) (t : Text) → is_in (xs ++ ys) t ≡ false → is_in ys t ≡ false
is_in-append [] ys t h = h
is_in-append (x ∷ xs) ys t h = is_in-append xs ys t (ground (arith, h))

module _ {V : Type 0} (exists : Text → Bool) (ps : List (RoutingPolicy V))
    (explicit : List Text) where
  -- A policy that `expand_related` may add: another program's copy for a helper that exists and that
  -- has no policy of its own.
  abbrev pub Helper : RoutingPolicy V → Type 0
  Helper q =
      (p : RoutingPolicy V) × (path : Text) × Mem p ps
      × (p.executable_path ≡ some path)
      × (expands p path ≡ true)
      × ((found : Text) × (q ≡ related p q.application_id found) × (exists found ≡ true))
      × (is_in names q.application_id ≡ true)
      × (is_in explicit q.application_id ≡ false)

  abbrev pub Apart : Text → List (RoutingPolicy V) → Type 0
  Apart t = All (λ q. str_eq q.application_id t ≡ false)

  abbrev pub Distinct : List (RoutingPolicy V) → Type 0
  Distinct [] = Unit
  Distinct (q ∷ qs) = All (λ r. str_eq q.application_id r.application_id ≡ false) qs × Distinct qs

  -- The state of the loops.
  abbrev Grown : Expansion V → Type 0
  Grown (result, seen) =
      (added : List (RoutingPolicy V)) × (fresh : List Text) × (result ≡ ps ++ added)
      × (seen ≡ fresh ++ explicit)
      × All Helper added
      × Distinct added
      × All (λ q. is_in seen q.application_id ≡ true) added

  Distinct-snoc :
      (qs : List (RoutingPolicy V)) (q : RoutingPolicy V)
      → Distinct qs
      → Apart q.application_id qs
      → Distinct (qs ++ q ∷ [])
  Distinct-snoc [] q h k = (tt, tt)
  Distinct-snoc (r ∷ rs) q h k = (
    All-append (λ s. str_eq r.application_id s.application_id ≡ false) rs (q ∷ []) h.0 (k.0, tt),
    Distinct-snoc rs q h.1 k.1,
  )

  seen-Apart :
      (qs : List (RoutingPolicy V)) (seen : List Text) (t : Text)
      → All (λ q. is_in seen q.application_id ≡ true) qs
      → is_in seen t ≡ false
      → Apart t qs
  seen-Apart [] seen t h k = tt
  seen-Apart (q ∷ qs) seen t h k = elim (Bool-cases (str_eq q.application_id t)) [
    | inl e ↦ let same = str_eq_sound q.application_id t e in cc (h.0, k, ap (is_in seen) same)
    | inr e ↦ (e, seen-Apart qs seen t h.1 k)
  ]

  seen-again :
      (name : Text) (seen : List Text) (qs : List (RoutingPolicy V)) (q : RoutingPolicy V)
      → All (λ r. is_in seen r.application_id ≡ true) qs
      → str_eq name q.application_id ≡ true
      → All (λ r. is_in (name ∷ seen) r.application_id ≡ true) (qs ++ q ∷ [])
  seen-again name seen [] q h e = (ground (arith, e), tt)
  seen-again name seen (r ∷ rs) q h e = (
    ground (arith, Bool-cases (str_eq name r.application_id), h.0),
    seen-again name seen rs q h.1 e,
  )

  module _ (p : RoutingPolicy V) (path : Text) (m : Mem p ps)
      (at_path : p.executable_path ≡ some path) (guard : expands p path ≡ true) where
    add_helper-Grown :
        (root name : Text) (e : Expansion V)
        → is_in names name ≡ true
        → Grown e
        → Grown (add_helper exists p root name e)
    unfolding add_helper
    add_helper-Grown root name (result, seen) n g = elim (Bool-cases (is_in seen name)) [
      | inl hit ↦ rw (hit) g
      | inr miss ↦ elim (Option-cases (find exists (map (candidate root name) (folders name)))) [
        | inl e ↦ rw (miss, e) g
        | inr (at, e) ↦
            let (added, fresh, result_eq, seen_eq, helpers, distinct, marked) = g in
            let q = related p name at in
            rw (miss, e)
              (
                added ++ q ∷ [],
                name ∷ fresh,
                rw result_eq (append_assoc ps added (q ∷ [])),
                ap (λ s. name ∷ s) seen_eq,
                All-append Helper added (q ∷ []) helpers (
                  (
                    p,
                    path,
                    m,
                    at_path,
                    guard,
                    (at, refl, find-holds exists (map (candidate root name) (folders name)) at e),
                    n,
                    is_in-append fresh explicit name
                        (subst (λ s. is_in s name ≡ false) seen_eq miss),
                  ),
                  tt,
                ),
                Distinct-snoc added q distinct (seen-Apart added seen name marked miss),
                seen-again name seen added q marked (str_eq_refl name),
              )
      ]
    ]

    add_helpers-Grown :
        (root : Text) (ns : List Text) (e : Expansion V)
        → All (λ n. is_in names n ≡ true) ns
        → Grown e
        → Grown (add_helpers exists p root ns e)
    unfolding add_helpers
    add_helpers-Grown root [] e h g = g
    add_helpers-Grown root (n ∷ ns) e h g =
        add_helpers-Grown root ns (add_helper exists p root n e) h.1
          (add_helper-Grown root n e h.0 g)

  names-names : All (λ n. is_in names n ≡ true) names
  unfolding names str_eq text
  names-names = (refl, (refl, (refl, (refl, tt))))

  expand_one-Grown :
      (p : RoutingPolicy V) (e : Expansion V)
      → Mem p ps
      → Grown e
      → Grown (expand_one exists p p.executable_path e)
  unfolding expand_one add_helpers add_helper
  expand_one-Grown p e m g = elim (Option-cases p.executable_path) [
    | inl absent ↦ rw absent g
    | inr (path, at) ↦ elim (Bool-cases (expands p path)) [
      | inr shut ↦ rw (at, shut) g
      | inl passes ↦ elim (Option-cases (root_of path)) [
        | inl none_there ↦ rw (at, passes, none_there) g
        | inr (root, there) ↦
            rw (at, passes, there) (add_helpers-Grown p path m at passes root names e names-names g)
      ]
    ]
  ]

  expand_all-Grown :
      (qs : List (RoutingPolicy V)) (e : Expansion V)
      → All (λ p. Mem p ps) qs
      → Grown e
      → Grown (expand_all exists qs e)
  unfolding expand_all
  expand_all-Grown [] e h g = g
  expand_all-Grown (q ∷ qs) e h g =
      expand_all-Grown qs (expand_one exists q q.executable_path e) h.1 (expand_one-Grown q e h.0 g)

-- `expand_related` keeps the policies as they are, in order, and adds behind them policies of
-- different names. Each is a copy of a policy whose guards passed, for one of the four helpers, with
-- the path of a file that exists; none has a name that a policy has of its own.
pub expand_related-Helper :
    {V : Type 0} (lib : Library) (policies : List (RoutingPolicy V)) (exists : Text → Bool)
    → (added : List (RoutingPolicy V)) × (expand_related lib policies exists ≡ policies ++ added)
      × All (Helper exists policies (explicit_names lib policies)) added
      × Distinct exists policies (explicit_names lib policies) added
expand_related-Helper lib policies exists =
    let (added, fresh, e, s, helpers, distinct, marked) =
      expand_all-Grown exists policies (explicit_names lib policies) policies
        (policies, explicit_names lib policies) (All-Mem policies)
        ([], [], sym (append-nil policies), refl, tt, tt, tt) in
    (added, expand_related-expand_all exists lib policies ∙ e, helpers, distinct)
