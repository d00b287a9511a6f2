-- ===== src/Capture/Reader/Kept/Loop.antt =====
-- The loop of `read_ng` in crates/netlane-capture/src/reader.rs, with the invariant of the capture.
use netlane.Prelude.{
  ℕ, zero, suc, ◌+◌, ◌-◌, ◌%◌, ◌≤◌, ◌<◌, Bool, true, false, List, [], ◌∷◌, length, length-drop,
  drop, Option, none, some, str_eq, Text, ◌≡◌, refl, sym, ap, subst, ◌∙◌, arith, inl, inr, ◌⊎◌,
}
use netlane.Capture.Types.{max_block_bytes}
use netlane.Capture.Reader.Input.{
  Limits, Reading, M, ◌>>=◌, pure, ask, context, exact, next, number,
}
use netlane.Capture.Reader.Retain.{Library, Sink}
use netlane.Capture.Reader.Blocks.{
  Section, shb, dispatch, order_of, byte_order, ends_at, body_of, read_block, ng_loop, read_ng,
  get_count,
}
use netlane.Capture.Reader.Safe.{
  Ends, fine, stopped, Ends-map, Ends-bind, got-Ends, ask-Ends, number-Ends, number-some,
  unwrap-Ends, InBounds, Taken, Header, fill-Ends, next-Ends, bytes-Ends,
}
use netlane.Capture.Reader.Kept.{IsKept}
use netlane.Capture.Reader.Kept.Ng.{Named, Sound, Done, dispatch-Ends}

ask_last-Ends : {S : Type 0} (b : Bool) (m : Text) (r : Reading S) → Ends (λ p. p.1 ≡ r) (ask b m r)
unfolding ask
ask_last-Ends true m r = fine (tt, r) refl
ask_last-Ends false m r = stopped m

context_last-Ends :
    {S A : Type 0} (o : Option A) (m : Text) (r : Reading S) → Ends (λ p. p.1 ≡ r) (context o m r)
unfolding context
context_last-Ends none m r = stopped m
context_last-Ends (some a) m r = fine (a, r) refl

-- A step that changes nothing.
same-Ends :
    {S A B : Type 0} {Q : B × Reading S → Type 0} (m : M S A) (f : A → M S B) (r : Reading S)
    → Ends (λ p. p.1 ≡ r) (m r)
    → ((a : A) → Ends Q (f a r))
    → Ends Q ((m >>= f) r)
same-Ends {Q = Q} m f r h k =
    Ends-bind (λ p. p.1 ≡ r) m f r h (λ a s e. subst (λ u. Ends Q (f a u)) (sym e) (k a))

-- Both byte orders read the section header's type as the same number.
shb-number : (little : Bool) → number little 4 shb 0 ≡ some 0x0a0d0d0a
unfolding number
shb-number true = refl
shb-number false = refl

-- The trailer of a block has four bytes.
trailer-length :
    (prefix rest : List ℕ)
    → length prefix ≡ 8
    → length rest % 4 ≡ 0
    → 4 ≤ length (body_of prefix rest).1
trailer-length prefix [] h e = omega (arith, h, length-drop 4 prefix)
trailer-length prefix (b ∷ bs) h e = omega (arith, e, length-drop (length (b ∷ bs) - 4) (b ∷ bs))

module _ {S : Type 0} (lib : Library) (sink : Option (Sink S)) (limits : Limits) (size : ℕ) where
  order_of-Ends :
      (is_shb : Bool) (offset : ℕ) (magic : List ℕ) (t : Section) (r : Reading S)
      → Ends (λ p. p.1 ≡ r) (order_of lib sink limits is_shb offset magic t r)
  unfolding order_of
  order_of-Ends true offset magic t r =
      ask-Ends _ _ _ r λ _. context_last-Ends (byte_order magic) _ r
  order_of-Ends false offset magic t r = fine (t.little, r) refl

  -- A section header, or a section is open.
  abbrev Opens : List ℕ → Section → Type 0
  Opens kind t = (kind ≡ shb) ⊎ (1 ≤ t.number)

  -- What a block leaves: it takes eight bytes at least.
  abbrev Past : Reading S → Section × Reading S → Type 0
  Past r p =
      Sound lib sink limits size p.0 p.1 × (1 ≤ p.0.number) × (length p.1.rest + 8 ≤ length r.rest)

  dispatch_kind-Ends :
      (kind : List ℕ) (offset : ℕ) (body : List ℕ) (t : Section) (r : Reading S)
      → Sound lib sink limits size t r
      → length kind ≡ 4
      → Opens kind t
      → (block_type : ℕ) → number t.little 4 kind 0 ≡ some block_type
      → Ends (Done lib sink limits size r) (dispatch lib sink limits block_type offset body t r)
  dispatch_kind-Ends kind offset body t r g e (inr n) block_type f =
      dispatch-Ends lib sink limits size block_type offset body t r g (inr n)
  dispatch_kind-Ends kind offset body t r g e (inl n) block_type f =
      let same : some block_type ≡ some 0x0a0d0d0a =
        sym f ∙ ap (λ x. number t.little 4 x 0) n ∙ shb-number t.little in
      dispatch-Ends lib sink limits size block_type offset body t r g (inl (ground (arith, same)))

  read_block-Ends :
      (kind : List ℕ) (t : Section) (r : Reading S)
      → Sound lib sink limits size t r
      → length kind ≡ 4
      → Opens kind t
      → Ends (Past r) (read_block lib sink limits kind t r)
  unfolding read_block
  read_block-Ends kind t r g e opens = ask-Ends _ _ _ r λ _.
      got-Ends (get_count lib sink limits) _ r r.count r refl (
        Ends-bind (λ p. InBounds limits size p.1 × Taken 8 r p.1 × (length p.0 ≡ 8))
          (exact limits 8) _ r (fill-Ends limits size 8 _ r g.1)
          λ prefix s h.
            same-Ends (order_of lib sink limits (str_eq kind shb) (r.count - 4) (drop 4 prefix) t) _
              s (order_of-Ends (str_eq kind shb) (r.count - 4) (drop 4 prefix) t s)
              λ little. number-Ends little 4 prefix 0 _ s (omega (arith, h.2)) λ total.
                ask-Ends _ _ _ s λ sized. ask-Ends _ _ _ s λ _.
                  Ends-bind
                    (λ p.
                      InBounds limits size p.1
                      × Taken (total - 12) s p.1
                      × (length p.0 ≡ total - 12)
                      × (total - 12 ≤ max_block_bytes))
                    _ _ s (bytes-Ends limits size (total - 12) max_block_bytes s h.0)
                    λ rest u k.
                      number-Ends little 4 (body_of prefix rest).1 0 _ u
                        (trailer-length prefix rest h.2 (ground (arith, sized, k.2)))
                        λ trailer. ask-Ends _ _ _ u λ _.
                          let (block_type, f) = number-some little 4 kind 0 (omega (arith, e)) in
                          unwrap-Ends (number little 4 kind 0) _ u block_type f (
                            let same_capture = k.1.0 ∙ h.1.0 in
                            let started = record t { little = little; blocks = t.blocks + 1 } in
                            Ends-map (Done lib sink limits size u) _ _
                              (λ p d. (d.0, d.1, omega (arith, d.2, k.1.1, h.1.1)))
                              (dispatch_kind-Ends kind (r.count - 4) (body_of prefix rest).0 started
                                u
                                (
                                  subst (IsKept limits) (sym same_capture) g.0,
                                  k.0,
                                  subst (λ c. Named (length c.interfaces) t.interfaces)
                                      (sym same_capture) g.2,
                                )
                                e opens block_type f)))

  abbrev pub Left : {A : Type 0} → A × Reading S → Type 0
  Left p = IsKept limits p.1.capture × InBounds limits size p.1 × (length p.1.rest ≡ 0)

  -- What the loop does with the type of the next block, its rest being right.
  ng_next-Ends :
      (loop : List ℕ → Section → M S Section) (t : Section) (r : Reading S)
      → Sound lib sink limits size t r
      → 1 ≤ t.number
      → ((kind : List ℕ) (u : Reading S)
          → Sound lib sink limits size t u
          → length kind ≡ 4
          → length u.rest ≤ length r.rest
          → Ends Left (loop kind t u))
      → (following : Option (List ℕ)) (s : Reading S) → Header limits size 4 r (following, s)
      → let act : M S Section = elim following [ none ↦ pure t | some k ↦ loop k t ] in
        Ends Left (act s)
  ng_next-Ends loop t r g n more none s h =
      fine (t, s) (subst (IsKept limits) (sym h.1.0) g.0, h.0, h.2)
  ng_next-Ends loop t r g n more (some kind) s h =
      more kind s
        (
          subst (IsKept limits) (sym h.1.0) g.0,
          h.0,
          subst (λ c. Named (length c.interfaces) t.interfaces) (sym h.1.0) g.2,
        )
        h.2 (omega (arith, h.1.1))

  ng_loop-Ends :
      (fuel : ℕ) (kind : List ℕ) (t : Section) (r : Reading S)
      → length r.rest < fuel
      → Sound lib sink limits size t r
      → length kind ≡ 4
      → Opens kind t
      → Ends Left (ng_loop lib sink limits fuel kind t r)
  unfolding ng_loop
  ng_loop-Ends zero kind t r f g e opens = absurd (omega arith)
  ng_loop-Ends (suc fuel) kind t r f g e opens =
      Ends-bind (Past r) (read_block lib sink limits kind t) _ r
        (read_block-Ends kind t r g e opens)
        λ u s h.
          Ends-bind (Header limits size 4 s) (next limits 4) _ s
            (next-Ends limits size 4 s (omega arith) h.0.1)
            (ng_next-Ends (ng_loop lib sink limits fuel) u s h.0 h.1 λ k v d size_k less.
              ng_loop-Ends fuel k u v (omega (arith, less, h.2, f)) d size_k (inr h.1))

  pub read_ng-Ends :
      (magic : List ℕ) (r : Reading S)
      → magic ≡ shb
      → IsKept limits r.capture
      → InBounds limits size r
      → Ends Left (read_ng lib sink limits magic r)
  unfolding read_ng
  read_ng-Ends magic r e k b =
      Ends-bind Left _ _ r
        (ng_loop-Ends (suc (length r.rest)) magic
          (record { little = true; number = 0; interfaces = []; end = none; blocks = 0 }) r
          (omega arith) (k, b, tt) (ap length e) (inl e))
        λ t s h. got-Ends (get_count lib sink limits) _ s s.count s refl (
          Ends-map (λ p. p.1 ≡ s) Left _
            (λ p same. (
              subst (λ x. IsKept limits x.capture) (sym same) h.0,
              subst (InBounds limits size) (sym same) h.1,
              subst (λ x. length x.rest ≡ 0) (sym same) h.2,
            ))
            (ask_last-Ends (ends_at s.count t.end) _ s))
