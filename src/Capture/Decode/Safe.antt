-- ===== src/Capture/Decode/Safe.antt =====
-- The outcomes of crates/netlane-capture/src/decode.rs, layer by layer.
use netlane.Prelude.{
  get_elem?-some, get_elem?-lt, length-drop, length-take, ℕ, zero, suc, ◌+◌, ◌-◌, ◌*◌, ◌%◌, ◌≤◌,
  ◌<◌, Bool, true, false, ◌&&◌, ◌||◌, List, [], ◌∷◌, length, take, drop, get_elem?, Option, none,
  some, ◌≡◌, refl, arith, leb, ◌==◌, contains, if◌then◌else◌, Bool-cases, Option-cases, inl, inr,
}
use netlane.Capture.Bytes.{word, get_range?}
use netlane.Capture.Decode.Outcomes.{
  Flow, done, next, ◌>>=◌, ◌>>◌, unwrap, at, slice, return_if, Summary,
}
use netlane.Capture.Decode.{vlan, little, big, link_layer, Segment, ipv4_segment}

-- A payload is a range of the frame.
abbrev pub InFrame : ℕ → Option (ℕ × ℕ) → Type 0
InFrame size none = Unit
InFrame size (some (start, end)) = (start ≤ end) × (end ≤ size)

-- No panic; a summary that is returned early has a good payload, and a value has P.
pub data Safe {A : Type 0} (size : ℕ) (P : A → Type 0) : Flow A → Type 0 where
  early : (s : Summary) → InFrame size s.payload → Safe size P (done s)
  on : (a : A) → P a → Safe size P (next a)

module _ {A B : Type 0} {size : ℕ} {Q : B → Type 0} where
  pub Safe-bind :
      (P : A → Type 0) (m : Flow A) (f : A → Flow B)
      → Safe size P m
      → ((a : A) → P a → Safe size Q (f a))
      → Safe size Q (m >>= f)
  unfolding ◌>>=◌
  Safe-bind P _ f (early s h) k = early s h
  Safe-bind P _ f (on a h) k = k a h

word-some : (bytes : List ℕ) (i : ℕ) → i + 2 ≤ length bytes → (w : ℕ) × (word bytes i ≡ some w)
unfolding word
word-some bytes i h =
    let (a, e) = get_elem?-some bytes i (omega arith) in
    let (b, f) = get_elem?-some bytes (i + 1) (omega arith) in (a * 256 + b, rw (e, f, word) refl)

word-le : (bytes : List ℕ) (i w : ℕ) → word bytes i ≡ some w → i + 2 ≤ length bytes
unfolding word
word-le bytes i w h = elim (Option-cases (get_elem? bytes i)) [
  | inl e ↦ ground (arith, e, h)
  | inr (a, e) ↦ elim (Option-cases (get_elem? bytes (i + 1))) [
    | inl f ↦ ground (arith, e, f, h)
    | inr (b, f) ↦ omega (arith, get_elem?-lt bytes (i + 1) b f)
  ]
]

slice-some :
    (bytes : List ℕ) (a b : ℕ)
    → a ≤ b
    → b ≤ length bytes
    → (r : List ℕ) × (get_range? bytes a b ≡ some r) × (length r ≡ b - a)
slice-some bytes a b h k = (
  take (b - a) (drop a bytes),
  ground arith,
  omega (arith, length-take (b - a) (drop a bytes), length-drop a bytes),
)

module _ {B : Type 0} {size : ℕ} {Q : B → Type 0} where
  pub unwrap-bind :
      {A : Type 0} (o : Option A) (f : A → Flow B) (a : A)
      → o ≡ some a
      → Safe size Q (f a)
      → Safe size Q (unwrap o >>= f)
  unfolding ◌>>=◌ unwrap
  unwrap-bind o f a e k = rw (e, ◌>>=◌, unwrap) k

  pub at-bind :
      (bytes : List ℕ) (i : ℕ) (f : ℕ → Flow B)
      → i < length bytes
      → ((b : ℕ) → Safe size Q (f b))
      → Safe size Q (at bytes i >>= f)
  at-bind bytes i f h k =
      let (b, e) = get_elem?-some bytes i h in unwrap-bind (get_elem? bytes i) f b e (k b)

  pub word-bind :
      (bytes : List ℕ) (i : ℕ) (f : ℕ → Flow B)
      → i + 2 ≤ length bytes
      → ((w : ℕ) → Safe size Q (f w))
      → Safe size Q (unwrap (word bytes i) >>= f)
  word-bind bytes i f h k =
      let (w, e) = word-some bytes i h in unwrap-bind (word bytes i) f w e (k w)

  pub slice-bind :
      (bytes : List ℕ) (a b : ℕ) (f : List ℕ → Flow B)
      → a ≤ b
      → b ≤ length bytes
      → ((r : List ℕ) → length r ≡ b - a → Safe size Q (f r))
      → Safe size Q (slice bytes a b >>= f)
  slice-bind bytes a b f h k g =
      let (r, e, l) = slice-some bytes a b h k in unwrap-bind (get_range? bytes a b) f r e (g r l)

  pub return-then :
      (b : Bool) (s : Summary) (k : Flow B)
      → InFrame size s.payload
      → (b ≡ false → Safe size Q k)
      → Safe size Q (return_if b s >> k)
  unfolding ◌>>◌ return_if
  return-then true s k h g = early s h
  return-then false s k h g = g refl

  pub Safe-if :
      (b : Bool) (x y : Flow B)
      → (b ≡ true → Safe size Q x)
      → (b ≡ false → Safe size Q y)
      → Safe size Q (if b then x else y)
  Safe-if true x y h k = h refl
  Safe-if false x y h k = k refl

-- An early summary that is made of one without a payload has none.
pub no_payload : (size : ℕ) (s : Summary) → s.payload ≡ none → InFrame size s.payload
no_payload size s e = rw e tt

-- Where the packet starts lies in the frame.
abbrev pub Within : List ℕ → ℕ × ℕ → Type 0
Within bytes (offset, kind) = offset ≤ length bytes

vlan-Safe :
    (rounds : ℕ) (bytes : List ℕ) (s : Summary) (offset kind : ℕ)
    → s.payload ≡ none
    → offset ≤ length bytes
    → Safe (length bytes) (Within bytes) (vlan rounds bytes s offset kind)
unfolding vlan
vlan-Safe zero bytes s offset kind e h = on _ h
vlan-Safe (suc rounds) bytes s offset kind e h =
    elim (Bool-cases (contains (0x8100 ∷ 0x88a8 ∷ 0x9100 ∷ []) kind)) [
      | inr f ↦ rw (f, vlan) (on _ h)
      | inl f ↦ elim (Option-cases (word bytes (offset + 2))) [
        | inl g ↦ rw (f, g, vlan) (early _ (rw e tt))
        | inr (k, g) ↦
            rw (f, g, vlan)
              (vlan-Safe rounds bytes s (offset + 4) k e
                (omega (arith, word-le bytes (offset + 2) k g)))
      ]
    ]

four :
    (bytes : List ℕ)
    → 4 ≤ length bytes
    → (l : ℕ) × (b : ℕ) × (little bytes ≡ some l) × (big bytes ≡ some b)
four (a ∷ b ∷ c ∷ d ∷ r) h = (_, _, refl, refl)
four (a ∷ b ∷ c ∷ []) h = absurd (omega arith)
four (a ∷ b ∷ []) h = absurd (omega arith)
four (a ∷ []) h = absurd (omega arith)
four [] h = absurd (omega arith)

pub link_layer-Safe :
    (bytes : List ℕ) (link : ℕ) (s : Summary)
    → s.payload ≡ none
    → Safe (length bytes) (Within bytes) (link_layer bytes link s)
unfolding link_layer
link_layer-Safe bytes link s e =
    Safe-if (link == 1 && leb 14 (length bytes)) _ _
      (λ c.
        word-bind bytes 12 _ (ground arith) λ kind. vlan-Safe 4 bytes s 14 kind e (ground arith))
      λ _.
        Safe-if (link == 113 && leb 16 (length bytes)) _ _
          (λ c. word-bind bytes 14 _ (ground arith) λ kind. on _ (ground arith))
          λ _.
            Safe-if (link == 276 && leb 20 (length bytes)) _ _
              (λ c. word-bind bytes 0 _ (ground arith) λ kind. on _ (ground arith))
              λ _.
                Safe-if ((link == 0 || link == 108) && leb 4 (length bytes)) _ _
                  (λ c.
                    let (l, b, f, g) = four bytes (ground arith) in
                    unwrap-bind (little bytes) _ l f
                      (unwrap-bind (big bytes) _ b g (on _ (ground arith))))
                  λ _.
                    Safe-if (contains (12 ∷ 101 ∷ 228 ∷ 229 ∷ []) link && leb 1 (length bytes)) _ _
                      (λ c. at-bind bytes 0 _ (ground arith) λ b. on _ (omega arith))
                      λ _. early s (no_payload (length bytes) s e)

-- The transport bytes are a range of the frame, and the summary so far names no payload.
abbrev pub Placed : ℕ → Segment → Type 0
Placed size g = (g.transport_offset + length g.transport ≤ size) × (g.summary.payload ≡ none)

pub ipv4_segment-Safe :
    (ip : List ℕ) (offset first size : ℕ) (s : Summary)
    → s.payload ≡ none
    → 20 ≤ length ip
    → offset + length ip ≤ size
    → Safe size (Placed size) (ipv4_segment ip offset first s)
unfolding ipv4_segment
ipv4_segment-Safe ip offset first size s e h room = at-bind ip 12 _ (omega arith) λ a.
    at-bind ip 13 _ (omega arith) λ b. at-bind ip 14 _ (omega arith) λ c.
      at-bind ip 15 _ (omega arith) λ d. at-bind ip 16 _ (omega arith) λ a'.
        at-bind ip 17 _ (omega arith) λ b'. at-bind ip 18 _ (omega arith) λ c'.
          at-bind ip 19 _ (omega arith) λ d'. word-bind ip 2 _ (omega arith) λ declared.
            return-then _ _ _ (rw e tt) λ good. word-bind ip 6 _ (omega arith) λ fragment.
              return-then _ _ _ (rw e tt) λ _. at-bind ip 9 _ (omega arith) λ protocol.
                slice-bind ip (first % 16 * 4) _ _ (ground (arith, good)) (ground arith)
                  λ r l. on _ (ground (arith, good, l), e)
