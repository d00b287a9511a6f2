-- ===== src/Capture/Reader/Kept/Pcap.antt =====
-- The classic format in crates/netlane-capture/src/reader.rs, step by step, with the invariant of the capture.
use netlane.Prelude.{
  ℕ, zero, suc, ◌≤◌, ◌<◌, Bool, List, [], ◌∷◌, ◌++◌, length, length-append, Option, none, some,
  All-map, ◌≡◌, refl, sym, ap, subst, ◌∙◌, arith,
}
use netlane.Capture.Types.{Interface, max_packet_bytes}
use netlane.Capture.Reader.Input.{Limits, Reading, M, ◌>>◌, pure, exact, next}
use netlane.Capture.Reader.Retain.{Sink}
use netlane.Capture.Reader.{
  pcap_interface, push_interface, pcap_format, pcap_header, pcap_record, pcap_loop, read_pcap,
}
use netlane.Capture.Reader.Safe.{
  Ends, fine, Ends-map, Ends-bind, then-Ends, got-then, ask-Ends, number-Ends, context-Ends,
  InBounds, Taken, Header, fill-Ends, next-Ends, bytes-Ends,
}
use netlane.Capture.Reader.Kept.{IsKept, IsWhole, Good, retain-Ends}

-- One interface more keeps a capture whole.
pub push-IsKept :
    {S : Type 0} (sink : Option (Sink S)) (limits : Limits) (i : Interface) (r : Reading S)
    → IsKept limits r.capture
    → length r.capture.interfaces < 1024
    → IsKept limits (record r.capture { interfaces = r.capture.interfaces ++ i ∷ [] })
push-IsKept sink limits i r k few =
    let more = length-append r.capture.interfaces (i ∷ []) in
    record {
      counts = k.counts;
      numbered = k.numbered;
      whole =
          All-map (IsWhole (length r.capture.interfaces)) _ r.capture.packets
            (λ p w. (omega (arith, w.0, more), w.1, w.2)) k.whole;
      few = k.few;
      sum = k.sum;
      small = k.small;
      records = k.records;
      interfaces = omega (arith, few, more);
    }

-- The header leaves one interface more.
abbrev Started : {S : Type 0} → Limits → ℕ → Reading S → ℕ × Reading S → Type 0
Started limits size r (snaplen, s) =
    IsKept limits s.capture × InBounds limits size s × (0 < length s.capture.interfaces)

module _ {S : Type 0} (sink : Option (Sink S)) (limits : Limits) (size : ℕ) where
  pcap_header-Ends :
      (little : Bool) (resolution : ℕ) (r : Reading S)
      → IsKept limits r.capture
      → InBounds limits size r
      → length r.capture.interfaces ≡ 0
      → Ends (Started limits size r) (pcap_header sink limits little resolution r)
  unfolding pcap_header
  pcap_header-Ends little resolution r k b e =
      Ends-bind (λ p. InBounds limits size p.1 × Taken 20 r p.1 × (length p.0 ≡ 20))
        (exact limits 20) _ r (fill-Ends limits size 20 _ r b)
        λ header s h. number-Ends little 2 header 0 _ s (omega (arith, h.2)) λ major.
          number-Ends little 2 header 2 _ s (omega (arith, h.2)) λ minor. ask-Ends _ _ _ s λ _.
            number-Ends little 4 header 12 _ s (omega (arith, h.2)) λ snaplen.
              number-Ends little 4 header 16 _ s (omega (arith, h.2)) λ link. ask-Ends _ _ _ s λ _.
                ask-Ends _ _ _ s λ _.
                  let i = pcap_interface link snaplen resolution in
                  let c = h.1.0 in
                  let kept = subst (IsKept limits) (sym c) k in
                  let none_yet = ap (λ x. length x.interfaces) c ∙ e in
                  let pushed = record s {
                    capture = record s.capture { interfaces = s.capture.interfaces ++ i ∷ [] };
                  } in
                  got-then (push_interface sink limits i) _ s tt pushed refl (
                    fine _ (
                      push-IsKept sink limits i s kept (omega (arith, none_yet)),
                      record { within = h.0.within; whole = h.0.whole },
                      omega (arith, length-append s.capture.interfaces (i ∷ [])),
                    ))

  pcap_record-Ends :
      (little : Bool) (resolution snaplen offset : ℕ) (header : List ℕ) (r : Reading S)
      → IsKept limits r.capture
      → InBounds limits size r
      → 0 < length r.capture.interfaces
      → length header ≡ 16
      → Ends
          (λ p. Good limits size r p.1)
          (pcap_record sink limits little resolution snaplen offset header r)
  unfolding pcap_record
  pcap_record-Ends little resolution snaplen offset header r k b i e =
      number-Ends little 4 header 0 _ r (omega (arith, e)) λ seconds.
        number-Ends little 4 header 4 _ r (omega (arith, e)) λ fraction.
          number-Ends little 4 header 8 _ r (omega (arith, e)) λ captured.
            number-Ends little 4 header 12 _ r (omega (arith, e)) λ original.
              ask-Ends _ _ _ r λ fits.
                Ends-bind
                  (λ p.
                    InBounds limits size p.1
                    × Taken captured r p.1
                    × (length p.0 ≡ captured)
                    × (captured ≤ max_packet_bytes))
                  _ _ r (bytes-Ends limits size captured max_packet_bytes r b)
                  λ content s h.
                    let c = h.1.0 in
                    let kept = subst (IsKept limits) (sym c) k in
                    let there = ap (λ x. length x.interfaces) c in
                    Ends-map (λ p. Good limits size s p.1) _ _
                      (λ p g. (g.0, g.1, omega (arith, g.2, there), omega (arith, g.3, h.1.1)))
                      (retain-Ends sink limits size 0 offset _ original content s kept h.0
                        (omega (arith, i, there)) (ground (arith, fits, h.2))
                        (omega (arith, h.2, h.3)))

  abbrev pub Left : {A : Type 0} → A × Reading S → Type 0
  Left p = IsKept limits p.1.capture × InBounds limits size p.1 × (length p.1.rest ≡ 0)

  -- What the loop goes on from.
  abbrev Ready : ℕ → Reading S → Type 0
  Ready below r =
      (length r.rest < below)
      × IsKept limits r.capture
      × InBounds limits size r
      × (0 < length r.capture.interfaces)

  -- What the loop does with the header of a record, its rest being right.
  pcap_next-Ends :
      (little : Bool) (resolution snaplen : ℕ) (loop : M S (Unit {0})) (r : Reading S)
      → Ready (suc (length r.rest)) r
      → ((u : Reading S) → Ready (length r.rest) u → Ends Left (loop u))
      → (header : Option (List ℕ)) (s : Reading S) → Header limits size 16 r (header, s)
      → let act : M S (Unit {0}) = elim header [
        | none ↦ pure tt
        | some h ↦ pcap_record sink limits little resolution snaplen r.count h >> loop
      ] in
        Ends Left (act s)
  pcap_next-Ends little resolution snaplen loop r g rest none s h =
      fine (tt, s) (subst (IsKept limits) (sym h.1.0) g.1, h.0, h.2)
  pcap_next-Ends little resolution snaplen loop r g rest (some header) s h =
      let there = ap (λ x. length x.interfaces) h.1.0 in
      then-Ends (λ p. Good limits size s p.1)
        (pcap_record sink limits little resolution snaplen r.count header) loop s
        (pcap_record-Ends little resolution snaplen r.count header s
          (subst (IsKept limits) (sym h.1.0) g.1) h.0 (omega (arith, g.3, there)) h.2)
        λ _ u k. rest u (omega (arith, k.3, h.1.1), k.0, k.1, omega (arith, k.2, g.3, there))

  pcap_loop-Ends :
      (fuel : ℕ) (little : Bool) (resolution snaplen : ℕ) (r : Reading S)
      → Ready fuel r
      → Ends Left (pcap_loop sink limits fuel little resolution snaplen r)
  unfolding pcap_loop
  pcap_loop-Ends zero little resolution snaplen r g = absurd (omega (arith, g.0))
  pcap_loop-Ends (suc fuel) little resolution snaplen r g =
      Ends-bind (Header limits size 16 r) (next limits 16) _ r
        (next-Ends limits size 16 r (omega arith) g.2)
        (pcap_next-Ends little resolution snaplen
          (pcap_loop sink limits fuel little resolution snaplen) r (omega arith, g.1, g.2, g.3)
          λ u h.
            pcap_loop-Ends fuel little resolution snaplen u
              (omega (arith, h.0, g.0), h.1, h.2, h.3))

  pub read_pcap-Ends :
      (magic : List ℕ) (r : Reading S)
      → IsKept limits r.capture
      → InBounds limits size r
      → length r.capture.interfaces ≡ 0
      → Ends Left (read_pcap sink limits magic r)
  unfolding read_pcap
  read_pcap-Ends magic r k b e = context-Ends (pcap_format magic) _ _ r λ format _.
      Ends-bind (Started limits size r) (pcap_header sink limits format.0 format.1) _ r
        (pcap_header-Ends format.0 format.1 r k b e)
        λ snaplen s h.
          pcap_loop-Ends (suc (length s.rest)) format.0 format.1 snaplen s
            (omega arith, h.0, h.1, h.2)
