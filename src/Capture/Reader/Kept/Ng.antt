-- ===== src/Capture/Reader/Kept/Ng.antt =====
-- The arms of `read_ng` in crates/netlane-capture/src/reader.rs, with the invariant of the capture.
use netlane.Prelude.{
  ℕ, suc, ◌+◌, ◌-◌, ◌^◌, ◌≤◌, ◌<◌, min, Bool, false, ◌||◌, List, [], ◌∷◌, ◌++◌, length,
  length-append, length-drop, get_elem?, get_elem?-some, drop, All, All-append, All-get_elem?,
  All-map, Option, none, some, ltb, ◌==◌, if◌then◌else◌, ◌≡◌, refl, arith, ◌⊎◌, Result,
}
use netlane.Capture.Reader.Input.{Limits, Reading, ◌>>◌, pure}
use netlane.Capture.Reader.Retain.{Library, Sink, get_capture, change_capture}
use netlane.Capture.Reader.Options.{options, ignore, describe, padded}
use netlane.Capture.Reader.Blocks.{
  Section, section_end, section_header, interface_block, packet_block, simple_block, dispatch,
  get_count,
}
use netlane.Capture.Reader.Safe.{
  Ends, fine, Ends-choose, then-Ends, got-Ends, got-then, ask-Ends, number-Ends, unwrap-Ends,
  context-Ends, lift-Ends, lift-then, slice-Ends, InBounds, options-Ends,
}
use netlane.Capture.Reader.Kept.{IsKept, Good, retain-Ends}
use netlane.Capture.Reader.Kept.Pcap.{push-IsKept}

-- The options behind the first bytes of a block end.
rest-Ends :
    {T : Type 0} (n : ℕ) (body : List ℕ) (little : Bool) (visit : ℕ → List ℕ → T → Result T) (t : T)
    → Ends (λ _. Unit {0}) (options (suc (length body)) (drop n body) little visit t)
rest-Ends n body little visit t =
    options-Ends (suc (length body)) (drop n body) little visit t
      (omega (arith, length-drop n body))

-- The section names interfaces of the capture.
abbrev pub Named : ℕ → List ℕ → Type 0
Named n indices = All (λ i. i < n) indices

module _ {S : Type 0} (lib : Library) (sink : Option (Sink S)) (limits : Limits) (size : ℕ) where
  abbrev pub Sound : Section → Reading S → Type 0
  Sound t r =
      IsKept limits r.capture
      × InBounds limits size r
      × Named (length r.capture.interfaces) t.interfaces

  -- What an arm leaves.
  abbrev pub Done : Reading S → Section × Reading S → Type 0
  Done r (t, s) = Sound t s × (1 ≤ t.number) × (length s.rest ≤ length r.rest)

  section_header-Ends :
      (body : List ℕ) (t : Section) (r : Reading S)
      → Sound t r
      → Ends (Done r) (section_header lib sink limits body t r)
  unfolding section_header
  section_header-Ends body t r g = ask-Ends _ _ _ r λ long.
      number-Ends t.little 2 body 4 _ r (ground (arith, long)) λ major.
        number-Ends t.little 2 body 6 _ r (ground (arith, long)) λ minor. ask-Ends _ _ _ r λ _.
          number-Ends t.little 8 body 8 _ r (ground (arith, long)) λ declared. ask-Ends _ _ _ r λ _.
            got-Ends (get_count lib sink limits) _ r r.count r refl (
              context-Ends (section_end r.count declared) _ _ r λ end _.
                lift-then (λ _. Unit {0}) _ _ r (rest-Ends 16 body t.little ignore tt)
                  (context-Ends (if ltb (t.number + 1) (2 ^ 32) then some (t.number + 1) else none)
                    _ _ r
                    λ n e.
                      fine (record t { end = end; interfaces = []; number = n }, r)
                        ((g.0, g.1, tt), ground (arith, e), omega arith)))

  interface_block-Ends :
      (body : List ℕ) (t : Section) (r : Reading S)
      → Sound t r
      → 1 ≤ t.number
      → Ends (Done r) (interface_block lib sink limits body t r)
  unfolding interface_block
  interface_block-Ends body t r g some_section =
      got-Ends (get_capture sink limits) _ r r.capture r refl (
        ask-Ends _ _ _ r λ room.
          unwrap-Ends (if t.number == 0 then none else some (t.number - 1)) _ r (t.number - 1)
            (ground arith)
            (number-Ends t.little 2 body 0 _ r (ground (arith, room)) λ link_type.
              number-Ends t.little 4 body 4 _ r (ground (arith, room)) λ snaplen.
                lift-Ends (λ _. Unit {0}) _ _ r
                  (rest-Ends 8 body t.little (describe lib t.little) _)
                  λ d _.
                    let i = d.interface in
                    let more = length-append r.capture.interfaces (i ∷ []) in
                    let pushed = record r {
                      capture = record r.capture { interfaces = r.capture.interfaces ++ i ∷ [] };
                    } in
                    got-then
                      (change_capture sink limits
                        (λ c. record c { interfaces = c.interfaces ++ i ∷ [] }))
                      _ r tt pushed refl
                      (fine _ (
                        (
                          push-IsKept sink limits i r g.0 (ground (arith, room)),
                          record { within = g.1.within; whole = g.1.whole },
                          All-append _ t.interfaces (length r.capture.interfaces ∷ [])
                              (All-map (λ j. j < length r.capture.interfaces) _ t.interfaces
                                (λ j h. omega (arith, h, more)) g.2)
                              (omega (arith, more), tt),
                        ),
                        some_section,
                        omega arith,
                      ))))

  -- What a packet leaves of the section.
  after_packet :
      (t : Section) (r s : Reading S)
      → Sound t r
      → 1 ≤ t.number
      → Good limits size r s
      → Done r (t, s)
  after_packet t r s g n k = (
    (
      k.0,
      k.1,
      All-map (λ j. j < length r.capture.interfaces) _ t.interfaces (λ j h. omega (arith, h, k.2))
          g.2,
    ),
    n,
    k.3,
  )

  packet_block-Ends :
      (enhanced : Bool) (offset : ℕ) (body : List ℕ) (t : Section) (r : Reading S)
      → Sound t r
      → 1 ≤ t.number
      → Ends (Done r) (packet_block lib sink limits enhanced offset body t r)
  unfolding packet_block
  packet_block-Ends enhanced offset body t r g n = ask-Ends _ _ _ r λ long.
      number-Ends t.little (if enhanced then 4 else 2) body 0 _ r (ground (arith, long)) λ local.
        context-Ends (get_elem? t.interfaces local) _ _ r λ global e.
          got-Ends (get_capture sink limits) _ r r.capture r refl (
            let there =
              All-get_elem? (λ i. i < length r.capture.interfaces) t.interfaces local global g.2
                e in
            let (iface, f) = get_elem?-some r.capture.interfaces global there in
            unwrap-Ends (get_elem? r.capture.interfaces global) _ r iface f (
              number-Ends t.little 4 body 4 _ r (ground (arith, long)) λ high.
                number-Ends t.little 4 body 8 _ r (ground (arith, long)) λ low.
                  number-Ends t.little 4 body 12 _ r (ground (arith, long)) λ caplen.
                    number-Ends t.little 4 body 16 _ r (ground (arith, long)) λ original.
                      ask-Ends _ _ _ r λ fits. ask-Ends _ _ _ r λ room.
                        lift-then (λ _. Unit {0}) _ _ r
                          (rest-Ends (20 + padded caplen) body t.little ignore tt)
                          (slice-Ends body 20 (20 + caplen) _ r (omega arith) (ground (arith, room))
                            λ content h.
                              then-Ends (λ p. Good limits size r p.1) _ _ r
                                (retain-Ends sink limits size global offset _ original content r g.0
                                  g.1 there (ground (arith, fits, h)) (ground (arith, fits, h)))
                                λ _ s k. fine (t, s) (after_packet t r s g n k))))

  simple_block-Ends :
      (offset : ℕ) (body : List ℕ) (t : Section) (r : Reading S)
      → Sound t r
      → 1 ≤ t.number
      → Ends (Done r) (simple_block lib sink limits offset body t r)
  unfolding simple_block
  simple_block-Ends offset body t r g n = ask-Ends _ _ _ r λ long.
      context-Ends (get_elem? t.interfaces 0) _ _ r λ global e.
        number-Ends t.little 4 body 0 _ r (ground (arith, long)) λ original.
          got-Ends (get_capture sink limits) _ r r.capture r refl (
            let there =
              All-get_elem? (λ i. i < length r.capture.interfaces) t.interfaces 0 global g.2 e in
            let (iface, f) = get_elem?-some r.capture.interfaces global there in
            unwrap-Ends (get_elem? r.capture.interfaces global) _ r iface f (
              ask-Ends _ _ _ r λ fits.
                let shorter : (if iface.snaplen == 0 then original else min original iface.snaplen)
                    ≤ original =
                  ground arith in
                slice-Ends body 4
                  (4 + (if iface.snaplen == 0 then original else min original iface.snaplen)) _ r
                  (omega arith) (ground (arith, fits))
                  λ content h.
                    then-Ends (λ p. Good limits size r p.1) _ _ r
                      (retain-Ends sink limits size global offset none original content r g.0 g.1
                        there (omega (arith, shorter, h)) (ground (arith, fits, h)))
                      λ _ s k. fine (t, s) (after_packet t r s g n k)))

  auxiliary-Ends :
      (t : Section) (r : Reading S)
      → Sound t r
      → 1 ≤ t.number
      → Ends (Done r) (
          (change_capture sink limits (λ c. record c { auxiliary_blocks = c.auxiliary_blocks + 1 })
              >> pure t)
            r)
  auxiliary-Ends t r g n =
      let k = g.0 in
      let s = record r {
        capture = record r.capture { auxiliary_blocks = r.capture.auxiliary_blocks + 1 };
      } in
      got-then (change_capture sink limits _) _ r tt s refl (
        fine (t, s)
          (
            (
              record {
                counts = k.counts;
                numbered = k.numbered;
                whole = k.whole;
                few = k.few;
                sum = k.sum;
                small = k.small;
                records = k.records;
                interfaces = k.interfaces;
              },
              record { within = g.1.within; whole = g.1.whole },
              g.2,
            ),
            n,
            omega arith,
          ))

  -- The first block of a file is a section header.
  pub dispatch-Ends :
      (block_type offset : ℕ) (body : List ℕ) (t : Section) (r : Reading S)
      → Sound t r
      → (block_type ≡ 0x0a0d0d0a) ⊎ (1 ≤ t.number)
      → Ends (Done r) (dispatch lib sink limits block_type offset body t r)
  unfolding dispatch
  dispatch-Ends block_type offset body t r g first =
      let opened : (block_type == 0x0a0d0d0a) ≡ false → 1 ≤ t.number =
        λ e. ground (arith, first, e) in
      Ends-choose (block_type == 0x0a0d0d0a) _ _ r (λ _. section_header-Ends body t r g)
        λ other.
          let n = opened other in
          Ends-choose (block_type == 1) _ _ r (λ _. interface_block-Ends body t r g n)
            λ _.
              Ends-choose (block_type == 6 || block_type == 2) _ _ r
                (λ _. packet_block-Ends (block_type == 6) offset body t r g n)
                λ _.
                  Ends-choose (block_type == 3) _ _ r (λ _. simple_block-Ends offset body t r g n)
                    λ _. auxiliary-Ends t r g n
