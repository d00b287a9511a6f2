-- ===== src/Windows/Flags/Noted.antt =====
-- What `enable` notes of the changes, and what `restore` does to one family, in crates/netlane-windows/src/flags.rs.
use netlane.Prelude.{
  Bool, true, false, not, ◌&&◌, ◌||◌, List, [], ◌∷◌, ◌++◌, reverse, Text, text, str_eq,
  str_eq_sound, str_eq_refl, is_in, ◌≡◌, refl, sym, ap, subst, ◌∙◌, arith, Bool-cases, inl, inr,
  Result, ok, ensure, Result-cases, ensure-eq-ok,
}
use mathlib.Core.List.{reverse_aux}
use netlane.Prelude.Actions.{Action, ◌>>=◌, ◌>>◌, lift, bind_state, bind_inversion}
use netlane.Windows.Flags.{
  RoutePolicySettings, TemporaryFlags, ipv4, ipv6, new, on_settings, push, activate, confirm_on,
  enable_read, enable, confirm_off, set_off, switch_off,
}

-- What the flags rely on of the system: a reading that succeeds is the family's value and changes
-- none, and a change of one family leaves the others alone. Nothing is said of what it does to its own.
pub record IsSettings {S : Type 0} (p : RoutePolicySettings S) : Type 0 where
  pub value : Text → S → Bool
  pub value_read : (f g : Text) (s : S) → value g (p.read f s).1 ≡ value g s
  pub read_value : (f : Text) (s : S) (b : Bool) → (p.read f s).0 ≡ ok b → b ≡ value f s
  pub value_set :
      (f g : Text) (b : Bool) (s : S)
      → str_eq f g ≡ false
      → value g (p.set_active f b s).1 ≡ value g s

is_in-append : (xs ys : List Text) (g : Text) → is_in (xs ++ ys) g ≡ is_in xs g || is_in ys g
is_in-append [] ys g = refl
is_in-append (x ∷ xs) ys g = ground (arith, is_in-append xs ys g)

is_in-reverse_aux :
    (xs ys : List Text) (g : Text) → is_in (reverse_aux xs ys) g ≡ is_in xs g || is_in ys g
is_in-reverse_aux [] ys g = refl
is_in-reverse_aux (x ∷ xs) ys g = ground (arith, is_in-reverse_aux xs (x ∷ ys) g)

pub is_in-reverse : (xs : List Text) (g : Text) → is_in (reverse xs) g ≡ is_in xs g
is_in-reverse xs g = ground (arith, is_in-reverse_aux xs [] g)

-- A text that is not in a list differs from one that is.
apart : (xs : List Text) (f g : Text) → is_in xs f ≡ true → is_in xs g ≡ false → str_eq f g ≡ false
apart xs f g h k = elim (Bool-cases (str_eq f g)) [
  | inl e ↦
      let q : f ≡ g = str_eq_sound f g e in
      let m : is_in xs g ≡ true = ap (is_in xs) (sym q) ∙ h in absurd (ground (arith, m, k))
  | inr e ↦ e
]

module _ {S : Type 0} {p : RoutePolicySettings S} (laws : IsSettings p) where
  -- The values before: off where a change is noted, and still in force where none is.
  abbrev pub Noted : S → TemporaryFlags S → Type 0
  Noted s t =
      (g : Text)
      → (is_in t.changed g ≡ true → laws.value g s ≡ false)
        × (is_in t.changed g ≡ false → laws.value g t.settings ≡ laws.value g s)

  read-Noted :
      (f : Text) (s : S) (t : TemporaryFlags S) → Noted s t → Noted s (on_settings p (p.read f) t).1
  read-Noted f s t h g = ((h g).0, λ e. laws.value_read f g t.settings ∙ (h g).1 e)

  push-Noted :
      (f : Text) (s : S) (t : TemporaryFlags S)
      → laws.value f s ≡ false
      → Noted s t
      → Noted s (push p f t).1
  push-Noted f s t off h g =
      let e = is_in-append t.changed (f ∷ []) g in
      elim (Bool-cases (str_eq f g)) [
        | inl same ↦
            let q : f ≡ g = str_eq_sound f g same in
            (λ _. rw (← q) off, λ k. absurd (ground (arith, e, k, same)))
        | inr other ↦
            (λ k. (h g).0 (ground (arith, e, k, other)), λ k. (h g).1 (ground (arith, e, k, other)))
      ]

  set-Noted :
      (f : Text) (s : S) (t : TemporaryFlags S)
      → is_in t.changed f ≡ true
      → Noted s t
      → Noted s (on_settings p (p.set_active f true) t).1
  set-Noted f s t noted h g =
      ((h g).0, λ e. laws.value_set f g true t.settings (apart t.changed f g noted e) ∙ (h g).1 e)

  on_settings-checked :
      {A : Type 0} (m : Action (TemporaryFlags S) A) (g : A → Result (Unit {0}))
      (t : TemporaryFlags S)
      → ((m >>= λ a. lift (g a)) t).1 ≡ (m t).1
  on_settings-checked m g t = elim (Result-cases (m t).0) [
    | inl (a, e) ↦ rw (e, ◌>>=◌) refl
    | inr (x, e) ↦ rw (e, ◌>>=◌) refl
  ]

  confirm_on-Noted :
      (f : Text) (s : S) (t : TemporaryFlags S) → Noted s t → Noted s (confirm_on p f t).1
  confirm_on-Noted f s t h =
      subst (Noted s) (sym (on_settings-checked (on_settings p (p.read f)) _ t))
        (read-Noted f s t h)

  activate-Noted :
      (f : Text) (original : Bool) (s : S) (t : TemporaryFlags S)
      → original ≡ laws.value f s
      → Noted s t
      → Noted s (activate p f original t).1
  unfolding activate
  activate-Noted f true s t e h = h
  activate-Noted f false s t e h =
      let u = (push p f t).1 in
      let k = push-Noted f s t (sym e) h in
      let n : is_in u.changed f ≡ true =
        ground (arith, is_in-append t.changed (f ∷ []) f, str_eq_refl f) in
      bind_state (on_settings p (p.set_active f true)) (λ _. confirm_on p f) u (Noted s)
        (set-Noted f s u n k) λ _ _. confirm_on-Noted f s _ (set-Noted f s u n k)

  enable_read-Noted :
      (authorized v4 v6 : Bool) (s : S) (t : TemporaryFlags S)
      → v4 ≡ laws.value ipv4 s
      → v6 ≡ laws.value ipv6 s
      → Noted s t
      → Noted s (enable_read p authorized v4 v6 t).1
  unfolding enable_read
  enable_read-Noted authorized v4 v6 s t e4 e6 h =
      let k = activate-Noted ipv4 v4 s t e4 h in
      bind_state (lift (ensure (authorized || v4 && v6) _))
        (λ _. activate p ipv4 v4 >> activate p ipv6 v6) t (Noted s) h
        λ _ _.
          bind_state (activate p ipv4 v4) (λ _. activate p ipv6 v6) t (Noted s) k
            λ _ _. activate-Noted ipv6 v6 s _ e6 k

  pub enable-Noted : (authorized : Bool) (s : S) → Noted s (enable p authorized (new p s)).1
  unfolding enable
  enable-Noted authorized s =
      let h : Noted s (new p s) = λ g. (λ e. cc, λ _. refl) in
      let h4 = read-Noted ipv4 s (new p s) h in
      let u = (on_settings p (p.read ipv4) (new p s)).1 in
      let h6 = read-Noted ipv6 s u h4 in
      bind_state (on_settings p (p.read ipv4))
        (λ v4. on_settings p (p.read ipv6) >>= enable_read p authorized v4) (new p s) (Noted s) h4
        λ v4 e4.
          bind_state (on_settings p (p.read ipv6)) (enable_read p authorized v4) u (Noted s) h6
            λ v6 e6.
              enable_read-Noted authorized v4 v6 s _ (laws.read_value ipv4 s v4 e4)
                (laws.read_value ipv6 u.settings v6 e6 ∙ laws.value_read ipv4 ipv6 s) h6

  set_off-others :
      (f g : Text) (active : Bool) (s : S)
      → str_eq f g ≡ false
      → laws.value g (set_off p f active s).1 ≡ laws.value g s
  set_off-others f g true s e = laws.value_set f g false s e
  set_off-others f g false s e = refl

  confirm_off-value : (f g : Text) (s : S) → laws.value g (confirm_off p f s).1 ≡ laws.value g s
  confirm_off-value f g s = elim (Result-cases (p.read f s).0) [
    | inl (a, e) ↦ rw (e, ◌>>=◌) (laws.value_read f g s)
    | inr (x, e) ↦ rw (e, ◌>>=◌) (laws.value_read f g s)
  ]

  -- What `switch_off` leaves of the other families, and of its own if it succeeds.
  pub switch_off-others :
      (f g : Text) (s : S) → str_eq f g ≡ false → laws.value g (switch_off p f s).1 ≡ laws.value g s
  unfolding switch_off
  switch_off-others f g s e =
      let P : S → Type 0 = λ u. laws.value g u ≡ laws.value g s in
      let r = laws.value_read f g s in
      bind_state (p.read f) (λ active. set_off p f active >> confirm_off p f) s P r
        λ active _.
          let k = set_off-others f g active (p.read f s).1 e ∙ r in
          bind_state (set_off p f active) (λ _. confirm_off p f) (p.read f s).1 P k
            λ _ _. confirm_off-value f g _ ∙ k

  confirm_off-off :
      (f : Text) (s : S) (u : Unit {0})
      → (confirm_off p f s).0 ≡ ok u
      → laws.value f (confirm_off p f s).1 ≡ false
  confirm_off-off f s u h =
      let (b, e, q) =
        bind_inversion (p.read f)
          (λ still. lift (ensure (not still) (text "Restauração não confirmada."))) s u h in
      let off : not b ≡ true = ensure-eq-ok (not b) _ (sym (ap (λ r. r.0) q) ∙ h) in
      confirm_off-value f f s ∙ sym (laws.read_value f s b e) ∙ ground (arith, off)

  pub switch_off-off :
      (f : Text) (s : S) (u : Unit {0})
      → (switch_off p f s).0 ≡ ok u
      → laws.value f (switch_off p f s).1 ≡ false
  unfolding switch_off
  switch_off-off f s u h =
      let (b, _, q) =
        bind_inversion (p.read f) (λ active. set_off p f active >> confirm_off p f) s u h in
      let (_, _, q') =
        bind_inversion (set_off p f b) (λ _. confirm_off p f) (p.read f s).1 u
          (sym (ap (λ r. r.0) q) ∙ h) in
      let e = q ∙ q' in
      ap (λ r. laws.value f r.1) e ∙ confirm_off-off f _ u (sym (ap (λ r. r.0) e) ∙ h)
