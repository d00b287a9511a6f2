-- ===== src/Capture/Reader/Safe.antt =====
-- How the reader of crates/netlane-capture/src/reader.rs ends: rules for its steps.
use netlane.Prelude.{
  ℕ, zero, suc, ◌+◌, ◌-◌, ◌≤◌, ◌<◌, min, Bool, true, false, ◌&&◌, List, [], ◌∷◌, length, take, drop,
  length-drop, length-take, all, is_empty, Option, none, some, Text, ltb, leb, ◌==◌, if◌then◌else◌,
  ◌≡◌, refl, ap, arith, Bool-cases, Option-cases, text, inl, inr, Result, Result-cases, reverse,
}
use netlane.Capture.Bytes.{get_range?}
use netlane.Capture.Reader.Input.{
  Limits, Reading, Read, failed, panicked, got, M, pure, ◌>>=◌, ◌>>◌, lift, ask, unwrap, context,
  number, le_value, fill, next_at, next, bytes,
}
use netlane.Capture.Reader.Options.{padded, options}

-- An error, or a value with P: no panic, and no loop out of fuel.
pub data Ends {A : Type 0} (P : A → Type 0) : Read A → Type 0 where
  stopped : (e : Text) → Ends P (failed e)
  fine : (a : A) → P a → Ends P (got a)

pub Ends-map :
    {A : Type 0} (P Q : A → Type 0) (x : Read A) → ((a : A) → P a → Q a) → Ends P x → Ends Q x
Ends-map P Q _ f (stopped e) = stopped e
Ends-map P Q _ f (fine a h) = fine a (f a h)

pub Ends-if :
    {A : Type 0} {P : A → Type 0} (b : Bool) (x y : Read A)
    → (b ≡ true → Ends P x)
    → (b ≡ false → Ends P y)
    → Ends P (if b then x else y)
Ends-if true x y h k = h refl
Ends-if false x y h k = k refl

pub Ends-choose :
    {S A : Type 0} {P : A × Reading S → Type 0} (b : Bool) (x y : M S A) (r : Reading S)
    → (b ≡ true → Ends P (x r))
    → (b ≡ false → Ends P (y r))
    → Ends P ((if b then x else y) r)
Ends-choose true x y r h k = h refl
Ends-choose false x y r h k = k refl

ltb-false : (a b : ℕ) → ltb a b ≡ false → b ≤ a
ltb-false a b h = ground arith

pub number-some :
    (little : Bool) (size : ℕ) (content : List ℕ) (offset : ℕ)
    → offset + size ≤ length content
    → (n : ℕ) × (number little size content offset ≡ some n)
unfolding number
number-some little size content offset h =
    let range = take (offset + size - offset) (drop offset content) in
    (le_value (if little then range else reverse range), ground arith)

module _ {S A B : Type 0} {Q : B × Reading S → Type 0} where
  pub Ends-bind :
      (P : A × Reading S → Type 0) (m : M S A) (f : A → M S B) (r : Reading S)
      → Ends P (m r)
      → ((a : A) (s : Reading S) → P (a, s) → Ends Q (f a s))
      → Ends Q ((m >>= f) r)
  unfolding ◌>>=◌
  Ends-bind P m f r h k = go (m r) h
    where
      go :
          (o : Read (A × Reading S))
          → Ends P o
          → Ends Q (elim o [ failed e ↦ failed e | panicked ↦ panicked | got p ↦ f p.0 p.1 ])
      go _ (stopped e) = stopped e
      go _ (fine p h) = k p.0 p.1 h

  -- A step whose outcome is known.
  pub got-Ends :
      (m : M S A) (f : A → M S B) (r : Reading S) (a : A) (s : Reading S)
      → m r ≡ got (a, s)
      → Ends Q (f a s)
      → Ends Q ((m >>= f) r)
  unfolding ◌>>=◌
  got-Ends m f r a s e k = rw (e, ◌>>=◌) k

  pub got-then :
      (m : M S A) (f : M S B) (r : Reading S) (a : A) (s : Reading S)
      → m r ≡ got (a, s)
      → Ends Q (f s)
      → Ends Q ((m >> f) r)
  unfolding ◌>>◌
  got-then m f r a s e k = got-Ends m (λ _. f) r a s e k

  pub unwrap-Ends :
      (o : Option A) (f : A → M S B) (r : Reading S) (a : A)
      → o ≡ some a
      → Ends Q (f a r)
      → Ends Q ((unwrap o >>= f) r)
  unfolding ◌>>=◌ unwrap
  unwrap-Ends o f r a e k = rw (e, ◌>>=◌, unwrap) k

  pub context-Ends :
      (o : Option A) (m : Text) (f : A → M S B) (r : Reading S)
      → ((a : A) → o ≡ some a → Ends Q (f a r))
      → Ends Q ((context o m >>= f) r)
  unfolding ◌>>=◌ context
  context-Ends none m f r k = stopped m
  context-Ends (some a) m f r k = k a refl

  pub lift-Ends :
      (P : A → Type 0) (x : Read A) (f : A → M S B) (r : Reading S)
      → Ends P x
      → ((a : A) → P a → Ends Q (f a r))
      → Ends Q ((lift x >>= f) r)
  unfolding ◌>>=◌ lift
  lift-Ends P _ f r (stopped e) k = stopped e
  lift-Ends P _ f r (fine a h) k = k a h

  pub then-Ends :
      (P : A × Reading S → Type 0) (m : M S A) (f : M S B) (r : Reading S)
      → Ends P (m r)
      → ((a : A) (s : Reading S) → P (a, s) → Ends Q (f s))
      → Ends Q ((m >> f) r)
  unfolding ◌>>◌
  then-Ends P m f r h k = Ends-bind P m (λ _. f) r h k

  pub lift-then :
      (P : A → Type 0) (x : Read A) (f : M S B) (r : Reading S)
      → Ends P x
      → Ends Q (f r)
      → Ends Q ((lift x >> f) r)
  unfolding ◌>>◌
  lift-then P x f r h k = lift-Ends P x (λ _. f) r h (λ a _. k)

module _ {S B : Type 0} {Q : B × Reading S → Type 0} where
  pub ask-Ends :
      (b : Bool) (m : Text) (f : M S B) (r : Reading S)
      → (b ≡ true → Ends Q (f r))
      → Ends Q ((ask b m >> f) r)
  unfolding ◌>>=◌ ◌>>◌ ask
  ask-Ends true m f r k = k refl
  ask-Ends false m f r k = stopped m

  pub number-Ends :
      (little : Bool) (size : ℕ) (content : List ℕ) (offset : ℕ) (f : ℕ → M S B) (r : Reading S)
      → offset + size ≤ length content
      → ((n : ℕ) → Ends Q (f n r))
      → Ends Q ((unwrap (number little size content offset) >>= f) r)
  number-Ends little size content offset f r h k =
      let (n, e) = number-some little size content offset h in
      unwrap-Ends (number little size content offset) f r n e (k n)

  pub slice-Ends :
      (content : List ℕ) (a b : ℕ) (f : List ℕ → M S B) (r : Reading S)
      → a ≤ b
      → b ≤ length content
      → ((range : List ℕ) → length range ≡ b - a → Ends Q (f range r))
      → Ends Q ((unwrap (get_range? content a b) >>= f) r)
  slice-Ends content a b f r h k g =
      let e : get_range? content a b ≡ some (take (b - a) (drop a content)) = ground arith in
      unwrap-Ends (get_range? content a b) f r (take (b - a) (drop a content)) e
        (g _ (omega (arith, length-take (b - a) (drop a content), length-drop a content)))

-- What has been read stays within the limits, and what is left is the file's.
pub record InBounds {S : Type 0} (limits : Limits) (size : ℕ) (r : Reading S) : Type 0 where
  pub within : r.count ≤ limits.bytes
  pub whole : r.count + length r.rest ≡ size

-- The reader has taken bytes of the file, and nothing else has changed.
abbrev pub Taken : {S : Type 0} → ℕ → Reading S → Reading S → Type 0
Taken n r s = (s.capture ≡ r.capture) × (length s.rest + n ≤ length r.rest) × (s.sunk ≡ r.sunk)

module _ {S : Type 0} (limits : Limits) (size : ℕ) where
  pub fill-Ends :
      (n : ℕ) (wanted : Text) (r : Reading S)
      → InBounds limits size r
      → Ends
          (λ p. InBounds limits size p.1 × Taken n r p.1 × (length p.0 ≡ n))
          (fill limits n wanted r)
  unfolding fill
  fill-Ends n wanted r b = elim (Bool-cases (leb (r.count + min n (length r.rest)) limits.bytes)) [
    | inr e ↦ rw (e, fill) (stopped _)
    | inl e ↦ elim (Bool-cases (leb n (length r.rest))) [
      | inr f ↦ rw (e, f, fill) (stopped _)
      | inl f ↦
          rw (e, f, fill)
            (fine _ (
              record {
                within = ground (arith, b.within, e, f);
                whole = ground (arith, b.whole, f, length-drop n r.rest);
              },
              (refl, ground (arith, f, length-drop n r.rest), refl),
              ground (arith, f, length-take n r.rest),
            ))
    ]
  ]

  abbrev pub Header : ℕ → Reading S → Option (List ℕ) × Reading S → Type 0
  Header n r (none, s) = InBounds limits size s × Taken 0 r s × (length s.rest ≡ 0)
  Header n r (some h, s) = InBounds limits size s × Taken n r s × (length h ≡ n)

  next_at-Ends :
      (n : ℕ) (rest : List ℕ) (r : Reading S)
      → r.rest ≡ rest
      → 0 < n
      → InBounds limits size r
      → Ends (Header n r) (next_at limits n rest r)
  unfolding next_at
  next_at-Ends n [] r e h b = elim (Option-cases r.ending) [
    | inl f ↦ rw (f, next_at) (fine _ (b, (refl, omega arith, refl), ap length e))
    | inr (m, f) ↦ rw (f, next_at) (stopped m)
  ]
  next_at-Ends n (x ∷ rest) r e h b =
      let s = record r { rest = rest; count = r.count + 1 } in
      elim (Bool-cases (leb (r.count + 1) limits.bytes)) [
        | inr f ↦ rw (f, next_at) (stopped _)
        | inl f ↦
            rw (f, next_at)
              (Ends-bind
                (λ p. InBounds limits size p.1 × Taken (n - 1) s p.1 × (length p.0 ≡ n - 1))
                (fill limits (n - 1) (text "Cabeçalho de captura truncado"))
                (λ more. pure (some (x ∷ more))) s
                (fill-Ends (n - 1) _ s (record {
                  within = ground (arith, f);
                  whole = ground (arith, b.whole, ap length e);
                }))
                λ more u g.
                  fine (some (x ∷ more), u)
                    (g.0, (g.1.0, ground (arith, g.1.1, ap length e), g.1.2), omega (arith, g.2)))
      ]

  pub next-Ends :
      (n : ℕ) (r : Reading S) → 0 < n → InBounds limits size r → Ends (Header n r) (next limits n r)
  unfolding next
  next-Ends n r h b = next_at-Ends n r.rest r refl h b

  pub bytes-Ends :
      (n limit : ℕ) (r : Reading S)
      → InBounds limits size r
      → Ends
          (λ p. InBounds limits size p.1 × Taken n r p.1 × (length p.0 ≡ n) × (n ≤ limit))
          (bytes limits n limit r)
  unfolding bytes
  bytes-Ends n limit r b = ask-Ends (leb n limit) _ _ r λ h.
      Ends-map (λ p. InBounds limits size p.1 × Taken n r p.1 × (length p.0 ≡ n)) _ _
        (λ p g. (g.0, g.1, g.2, ground (arith, h))) (fill-Ends n _ r b)

-- The options end on fuel above their bytes.
pub options-Ends :
    {T : Type 0} (fuel : ℕ) (content : List ℕ) (little : Bool) (visit : ℕ → List ℕ → T → Result T)
    (t : T)
    → length content < fuel
    → Ends (λ _. Unit {0}) (options fuel content little visit t)
unfolding options
options-Ends zero content little visit t h = absurd (omega arith)
options-Ends (suc fuel) content little visit t h =
    Ends-if (is_empty content) _ _ (λ _. fine t tt)
      λ _.
        Ends-if (ltb (length content) 4) _ _ (λ _. stopped _)
          λ long.
            let (code, e) = number-some little 2 content 0 (ground (arith, long)) in
            let (n, f) = number-some little 2 content 2 (ground (arith, long)) in
            rw e (
              rw f (
                Ends-if (code == 0) _ _
                  (λ _.
                    Ends-if (n == 0 && all (λ b. b == 0) (drop 4 content)) _ _ (λ _. fine t tt)
                      (λ _. stopped _))
                  λ _.
                    Ends-if (ltb (length content) (4 + padded n)) _ _ (λ _. stopped _)
                      λ room. elim (Result-cases (visit code (take n (drop 4 content)) t)) [
                        | inr (m, g) ↦ rw g (stopped m)
                        | inl (u, g) ↦ rw g (
                            options-Ends fuel (drop (4 + padded n) content) little visit u (
                              omega (
                                arith,
                                h,
                                ltb-false (length content) 4 long,
                                length-drop (4 + padded n) content,
                              )))
                      ]))
