-- ===== src/Traffic/Tracked.antt =====
-- The map of crates/netlane-core/src/traffic.rs: which adapters are tracked and what a sample does to each.
use netlane.Prelude.{
  ℕ, Bool, true, false, List, [], ◌∷◌, Option, none, some, Text, str_eq, str_eq_sound, str_eq_refl,
  ◌≡◌, ◌∙◌, refl, sym, ap, subst, arith, All, any, find, select, if◌then◌else◌, Bool-cases, inl,
  inr,
}
use netlane.Model.{Adapter}
use netlane.Traffic.{Floats, Usage, TrafficTracker, fresh, step, change, sample_all, sample}

abbrev pub Distinct : List Adapter → Type 0
Distinct [] = Unit
Distinct (a ∷ as') = All (λ b. str_eq a.id b.id ≡ false) as' × Distinct as'

module _ {F : Type 0} (f : Floats F) where
  -- `usage.get(id)`
  abbrev pub get : TrafficTracker F → Text → Option (Usage F)
  get [] id = none
  get ((k, u) ∷ t) id = if str_eq k id then some u else get t id

  -- `unwrap_or_default`
  abbrev pub or_fresh : Option (Usage F) → Usage F
  or_fresh none = fresh f
  or_fresh (some u) = u

  get-change :
      (id : Text) (g : Usage F → Usage F) (t : TrafficTracker F)
      → get (change f id g t) id ≡ some (g (or_fresh (get t id)))
  unfolding change
  get-change id g [] = rw (str_eq_refl id) refl
  get-change id g ((k, u) ∷ t) = elim (Bool-cases (str_eq k id)) [
    | inl e ↦ rw e (rw e refl)
    | inr e ↦ rw e (rw e (get-change id g t))
  ]

  get-change_other :
      (k id : Text) (g : Usage F → Usage F) (t : TrafficTracker F)
      → str_eq k id ≡ false
      → get (change f k g t) id ≡ get t id
  unfolding change
  get-change_other k id g [] h = rw h refl
  get-change_other k id g ((l, u) ∷ t) h = elim (Bool-cases (str_eq l k)) [
    | inl e ↦
        let apart : str_eq l id ≡ false = ap (λ x. str_eq x id) (str_eq_sound l k e) ∙ h in
        rw (e, apart) refl
    | inr e ↦ rw e (ap (λ o. if str_eq l id then some u else o) (get-change_other k id g t h))
  ]

  get-select :
      (q : Text → Bool) (t : TrafficTracker F) (id : Text)
      → get (select (λ e. q e.0) t) id ≡ (if q id then get t id else none)
  get-select q [] id = elim (Bool-cases (q id)) [ inl e ↦ rw e refl | inr e ↦ rw e refl ]
  get-select q ((k, u) ∷ t) id = elim (Bool-cases (str_eq k id)) [
    | inl e ↦ ground (arith, e, ap q (str_eq_sound k id e), get-select q t id)
    | inr e ↦ ground (arith, e, Bool-cases (q k), get-select q t id)
  ]

  abbrev pub after : ℕ → Option (Usage F) → Option Adapter → Option (Usage F)
  after at before none = before
  after at before (some a) = some (step f at a (or_fresh before))

  find_apart :
      (a : Adapter) (id : Text) (adapters : List Adapter)
      → str_eq a.id id ≡ true
      → All (λ b. str_eq a.id b.id ≡ false) adapters
      → find (λ b. str_eq b.id id) adapters ≡ none
  find_apart a id [] e h = refl
  find_apart a id (b ∷ bs) e h = elim (Bool-cases (str_eq b.id id)) [
    | inl c ↦
        let same : b.id ≡ a.id = str_eq_sound b.id id c ∙ sym (str_eq_sound a.id id e) in
        cc (h.0, ap (str_eq a.id) same, str_eq_refl a.id)
    | inr c ↦ rw c (find_apart a id bs e h.1)
  ]

  get-sample_all :
      (at : ℕ) (adapters : List Adapter) (t : TrafficTracker F) (id : Text)
      → Distinct adapters
      → get (sample_all f at adapters t) id
        ≡ after at (get t id) (find (λ a. str_eq a.id id) adapters)
  unfolding sample_all
  get-sample_all at [] t id h = refl
  get-sample_all at (a ∷ adapters) t id h = elim (Bool-cases (str_eq a.id id)) [
    | inl e ↦
        let same = str_eq_sound a.id id e in
        let missing = find_apart a id adapters e h.0 in
        let changed =
          subst
            (λ k. get (change f k (step f at a) t) id ≡ some (step f at a (or_fresh (get t id))))
            (sym same) (get-change id (step f at a) t) in
        rw e (
          get-sample_all at adapters (change f a.id (step f at a) t) id h.1
          ∙ rw (missing, changed) refl)
    | inr e ↦ rw e (
        get-sample_all at adapters (change f a.id (step f at a) t) id h.1
        ∙ ap (λ o. after at o (find (λ b. str_eq b.id id) adapters))
            (get-change_other a.id id (step f at a) t e))
  ]

  named :
      (adapters : List Adapter) (id : Text) (before : Option (Usage F)) (at : ℕ)
      → after at
          (if any (λ a. str_eq a.id id) adapters then before else none)
          (find (λ a. str_eq a.id id) adapters)
        ≡ elim (find (λ a. str_eq a.id id) adapters) [
          | none ↦ none
          | some a ↦ some (step f at a (or_fresh before))
        ]
  named [] id before at = refl
  named (a ∷ adapters) id before at = elim (Bool-cases (str_eq a.id id)) [
    | inl e ↦ rw e refl
    | inr e ↦ rw e (named adapters id before at)
  ]

  -- A sample of adapters with different identifiers tracks exactly these adapters: each has one round
  -- more on the usage that it had, or on a fresh one, and what was kept of any other is forgotten.
  pub get-sample :
      (at : ℕ) (adapters : List Adapter) (t : TrafficTracker F) (id : Text)
      → Distinct adapters
      → get (sample f at adapters t) id ≡ elim (find (λ a. str_eq a.id id) adapters) [
        | none ↦ none
        | some a ↦ some (step f at a (or_fresh (get t id)))
      ]
  unfolding sample
  get-sample at adapters t id h =
      get-sample_all at adapters (select (λ e. any (λ a. str_eq a.id e.0) adapters) t) id h
      ∙ ap (λ o. after at o (find (λ a. str_eq a.id id) adapters))
          (get-select (λ k. any (λ a. str_eq a.id k) adapters) t id)
      ∙ named adapters id (get t id) at
