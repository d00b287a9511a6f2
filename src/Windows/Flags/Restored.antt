-- ===== src/Windows/Flags/Restored.antt =====
-- The flags after `enable` and `restore` of crates/netlane-windows/src/flags.rs.
use netlane.Prelude.{
  ◌≤◌, Bool, true, false, not, ◌&&◌, List, [], ◌∷◌, ◌++◌, reverse, length, length-append, Text,
  text, str_eq, str_eq_sound, str_eq_refl, is_in, select, ◌≡◌, refl, sym, ap, subst, ◌∙◌, arith,
  Bool-cases, inl, inr, Result-cases,
}
use netlane.Windows.Flags.{
  RoutePolicySettings, TemporaryFlags, new, enable, switch_off, restore_one, restore_all, restore,
  drop,
}
use netlane.Windows.Flags.Noted.{
  IsSettings, is_in-reverse, Noted, enable-Noted, switch_off-others, switch_off-off,
}

unequal : (x f g : Text) → str_eq x f ≡ false → str_eq x g ≡ true → str_eq f g ≡ false
unequal x f g h k = elim (Bool-cases (str_eq f g)) [
  | inl e ↦
      let q : x ≡ f = str_eq_sound x g k ∙ sym (str_eq_sound f g e) in
      let r : str_eq x f ≡ true = ap (str_eq x) (sym q) ∙ str_eq_refl x in
      absurd (ground (arith, r, h))
  | inr e ↦ e
]

-- Leaving out one text leaves out every text equal to it, and no other.
is_in-select :
    (f g : Text) (xs : List Text)
    → is_in (select (λ x. not (str_eq x f)) xs) g ≡ is_in xs g && not (str_eq f g)
is_in-select f g [] = refl
is_in-select f g (x ∷ xs) = elim (Bool-cases (str_eq x f)) [
  | inl e ↦
      let q : str_eq x g ≡ str_eq f g = ap (λ y. str_eq y g) (str_eq_sound x f e) in
      ground (arith, e, q, is_in-select f g xs)
  | inr e ↦ elim (Bool-cases (str_eq x g)) [
    | inl k ↦ ground (arith, e, k, unequal x f g e k, is_in-select f g xs)
    | inr k ↦ ground (arith, e, k, is_in-select f g xs)
  ]
]

module _ {S : Type 0} {p : RoutePolicySettings S} (laws : IsSettings p) where
  -- One family is off again and forgotten, or an error is reported; the others stay.
  record Round (f : Text) (errors : List Text) (t : TemporaryFlags S)
      (after : List Text × TemporaryFlags S) : Type 0 where
    kept : (g : Text) → str_eq f g ≡ false → laws.value g after.1.settings ≡ laws.value g t.settings
    longer : length errors ≤ length after.0
    off : length after.0 ≡ length errors → laws.value f after.1.settings ≡ false
    noted :
        (g : Text)
        → length after.0 ≡ length errors
        → is_in after.1.changed g ≡ is_in t.changed g && not (str_eq f g)

  restore_one-Round :
      (f : Text) (errors : List Text) (t : TemporaryFlags S)
      → Round f errors t (restore_one p f errors t)
  unfolding restore_one
  restore_one-Round f errors t = elim (Result-cases (switch_off p f t.settings).0) [
    | inl (u, e) ↦
        rw (e, restore_one)
          (record {
            kept = λ g. switch_off-others laws f g t.settings;
            longer = omega arith;
            off = λ _. switch_off-off laws f t.settings u e;
            noted = λ g _. is_in-select f g t.changed;
          })
    | inr (m, e) ↦
        let l = length-append errors ((f ++ text ": " ++ m) ∷ []) in
        rw (e, restore_one)
          (record {
            kept = λ g. switch_off-others laws f g t.settings;
            longer = omega (arith, l);
            off = λ h. absurd (omega (arith, l, h));
            noted = λ g h. absurd (omega (arith, l, h));
          })
  ]

  -- All rounds of the loop.
  record Rounds (pending errors : List Text) (t : TemporaryFlags S)
      (after : List Text × TemporaryFlags S) : Type 0 where
    kept :
        (g : Text)
        → is_in pending g ≡ false
        → laws.value g after.1.settings ≡ laws.value g t.settings
    longer : length errors ≤ length after.0
    off :
        (g : Text)
        → length after.0 ≡ length errors
        → is_in pending g ≡ true
        → laws.value g after.1.settings ≡ false
    noted :
        (g : Text)
        → length after.0 ≡ length errors
        → is_in after.1.changed g ≡ is_in t.changed g && not (is_in pending g)

  restore_all-Rounds :
      (pending errors : List Text) (t : TemporaryFlags S)
      → Rounds pending errors t (restore_all p pending errors t)
  unfolding restore_all
  restore_all-Rounds [] errors t = record {
    kept = λ g h. refl;
    longer = omega arith;
    off = λ g _ h. cc;
    noted = λ g _. ground arith;
  }
  restore_all-Rounds (f ∷ pending) errors t =
      let o = restore_one p f errors t in
      let a = restore_one-Round f errors t in
      let b = restore_all-Rounds pending o.0 o.1 in
      record {
        kept = λ g h. b.kept g (ground (arith, h)) ∙ a.kept g (ground (arith, h));
        longer = omega (arith, a.longer, b.longer);
        off = λ g h m. elim (Bool-cases (is_in pending g)) [
          | inl c ↦ b.off g (omega (arith, a.longer, b.longer, h)) c
          | inr c ↦
              let same : f ≡ g = str_eq_sound f g (ground (arith, m, c)) in
              b.kept g c
              ∙ subst (λ x. laws.value x o.1.settings ≡ false) same
                  (a.off (omega (arith, a.longer, b.longer, h)))
        ];
        noted = λ g h.
            let u = b.noted g (omega (arith, a.longer, b.longer, h)) in
            let v = a.noted g (omega (arith, a.longer, b.longer, h)) in ground (arith, u, v);
      }

  pub new-Noted : (s : S) → Noted laws s (new p s)
  new-Noted s = λ g. (λ e. cc, λ _. refl)

  -- Once `restore` reports no error, what was noted is undone.
  pub Noted-restore :
      (s : S) (t : TemporaryFlags S)
      → Noted laws s t
      → (restore p t).0 ≡ []
      → (g : Text)
      → (laws.value g (restore p t).1.settings ≡ laws.value g s)
        × (is_in (restore p t).1.changed g ≡ false)
  unfolding restore
  Noted-restore s t noted h g =
      let n = noted g in
      let all = restore_all-Rounds (reverse t.changed) [] t in
      let none_left = ap length h in
      let e = is_in-reverse t.changed g in
      elim (Bool-cases (is_in t.changed g)) [
        | inl c ↦ (
          all.off g none_left (e ∙ c) ∙ sym (n.0 c),
          all.noted g none_left ∙ ground (arith, e, c),
        )
        | inr c ↦ (all.kept g (e ∙ c) ∙ n.1 c, all.noted g none_left ∙ ground (arith, e, c))
      ]

  -- Whatever `enable` did and whether it failed, once `restore` reports no error every family has the
  -- value that it had before, and no change is left noted.
  pub enable-restore :
      (authorized : Bool) (s : S)
      → (restore p (enable p authorized (new p s)).1).0 ≡ []
      → (g : Text)
      → (laws.value g (restore p (enable p authorized (new p s)).1).1.settings ≡ laws.value g s)
        × (is_in (restore p (enable p authorized (new p s)).1).1.changed g ≡ false)
  enable-restore authorized s h g =
      Noted-restore s (enable p authorized (new p s)).1 (enable-Noted laws authorized s) h g

-- With nothing noted, dropping the flags changes nothing.
no_change : (changed : List Text) → ((g : Text) → is_in changed g ≡ false) → changed ≡ []
no_change [] h = refl
no_change (f ∷ fs) h = absurd (ground (arith, h f, str_eq_refl f))

pub drop-unnoted :
    {S : Type 0} (p : RoutePolicySettings S) (t : TemporaryFlags S)
    → ((g : Text) → is_in t.changed g ≡ false)
    → drop p t ≡ t
unfolding drop restore restore_all
drop-unnoted p t h = simp (no_change t.changed h, drop, restore, restore_all) refl
