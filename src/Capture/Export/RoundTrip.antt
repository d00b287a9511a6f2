-- ===== src/Capture/Export/RoundTrip.antt =====
-- A PCAP file that crates/netlane-capture/src/export.rs writes, read by crates/netlane-capture/src/reader.rs.
use netlane.Prelude.{
  ℕ, zero, suc, ◌+◌, ◌^◌, ◌≤◌, ◌<◌, Bool, true, false, not, ◌||◌, List, [], ◌∷◌, ◌++◌, length,
  length-append, All, Option, none, some, Text, text, map, ltb, leb, ◌==◌, if◌then◌else◌, ◌≡◌, refl,
  sym, ap, ◌∙◌, arith, append_assoc, append-nil,
}
use mathlib.Core.List.{map-append}
use netlane.Capture.Types.{
  Timestamp, Packet, CaptureFile, max_packets, max_retained_bytes, max_packet_bytes, unix_nanos,
}
use netlane.Capture.Reader.Input.{Limits, Reading, Read, got, failed, panicked}
use netlane.Capture.Reader.{pcap_loop}
use netlane.Capture.Reader.Kept.{total_bytes}
use netlane.Capture.Export.{
  longest, elapsed, pcap_bytes, pcap_packet, each_packet, prefixed, in_range,
}
use netlane.Capture.Export.Steps.{reread, with_packet, turn-got, end-got}

-- What a PCAP file says of a packet: its time, its length and its bytes.
abbrev pub Sample : Type 0
Sample = Option Timestamp × ℕ × List ℕ

abbrev pub sample : Packet → Sample
sample p = (p.timestamp, p.original_len, p.bytes)

abbrev pub in_nanoseconds : Option Timestamp → Option Timestamp
in_nanoseconds none = none
in_nanoseconds (some t) = some (record { ticks = elapsed t; resolution = 9; offset_seconds = 0 })

abbrev pub exported : Packet → Sample
exported p = (in_nanoseconds p.timestamp, p.original_len, p.bytes)

-- The bytes of the first packet and of the rest.
pub each_packet-inversion :
    (write : Packet → Read (List ℕ)) (p : Packet) (ps : List Packet) (out : List ℕ)
    → each_packet write (p ∷ ps) ≡ got out
    → (front : List ℕ) × (rest : List ℕ) × (write p ≡ got front)
      × (each_packet write ps ≡ got rest)
      × (out ≡ front ++ rest)
unfolding each_packet
each_packet-inversion write p ps out e = go (write p) (each_packet write ps) refl refl e
  where
    go :
        (x y : Read (List ℕ))
        → write p ≡ x
        → each_packet write ps ≡ y
        → (let joined : Read (List ℕ) = elim x [
          | failed m ↦ failed m
          | panicked ↦ panicked
          | got front ↦ prefixed front y
        ] in
            joined ≡ got out)
        → (front : List ℕ) × (rest : List ℕ) × (write p ≡ got front)
          × (each_packet write ps ≡ got rest)
          × (out ≡ front ++ rest)
    go (failed m) y f g e = cc
    go panicked y f g e = cc
    go (got front) (failed m) f g e = cc
    go (got front) panicked f g e = cc
    go (got front) (got rest) f g e = (front, rest, f, g, cc)

if-got :
    (b : Bool) (x front : List ℕ) (m : Text)
    → (if b then got x else failed m) ≡ got front
    → (b ≡ true) × (front ≡ x)
if-got true x front m e = (refl, cc)
if-got false x front m e = cc

-- The time and the bytes of an exported packet.
pub pcap_packet-inversion :
    (p : Packet) (front : List ℕ)
    → pcap_packet p ≡ got front
    → (t : Timestamp) × (p.timestamp ≡ some t)
      × (in_range (unix_nanos t) ≡ true)
      × (front ≡ pcap_bytes p (elapsed t))
unfolding pcap_packet
pcap_packet-inversion p front e = go p.timestamp refl e
  where
    go :
        (o : Option Timestamp)
        → p.timestamp ≡ o
        → (let written : Read (List ℕ) = elim o [
          | none ↦ failed (text "PCAP não representa pacotes sem horário. Use PCAPNG.")
          | some t ↦
              if in_range (unix_nanos t)
              then got (pcap_bytes p (elapsed t))
              else failed (text "Horário fora do intervalo PCAP. Use PCAPNG.")
        ] in
            written ≡ got front)
        → (t : Timestamp) × (p.timestamp ≡ some t)
          × (in_range (unix_nanos t) ≡ true)
          × (front ≡ pcap_bytes p (elapsed t))
    go none f e = cc
    go (some t) f e =
        let (g, h) = if-got (in_range (unix_nanos t)) (pcap_bytes p (elapsed t)) front _ e in
        (t, f, g, h)

pub got-injective : (x y : List ℕ) → got x ≡ got y → x ≡ y
got-injective x y e = cc

module _ (limits : Limits) where
  -- A packet that there is room for is kept.
  with_packet-Room :
      (p : Packet) (ns offset : ℕ) (c : CaptureFile)
      → c.omitted_packets ≡ 0
      → length c.packets + 1 ≤ max_packets
      → c.retained_bytes + length p.bytes ≤ max_retained_bytes
      → ((with_packet p ns offset c).packets
          ≡ c.packets ++ reread (c.total_packets + 1) offset p ns ∷ [])
        × ((with_packet p ns offset c).retained_bytes ≡ c.retained_bytes + length p.bytes)
        × ((with_packet p ns offset c).total_packets ≡ c.total_packets + 1)
        × ((with_packet p ns offset c).omitted_packets ≡ 0)
  with_packet-Room p ns offset c none_left few small =
      let g : (not true
            || not (c.omitted_packets == 0)
            || leb max_packets (length c.packets)
            || ltb max_retained_bytes (c.retained_bytes + length p.bytes))
          ≡ false =
        ground (arith, none_left, few, small) in
      (rw g refl, rw g refl, rw g refl, rw g none_left)

  -- What the loop reads of an exported selection, from where it stands.
  pub record CanRead (snap : ℕ) (ps : List Packet) (out : List ℕ) (r : Reading (Unit {0}))
      : Type 0 where
    pub written : each_packet pcap_packet ps ≡ got out
    pub true_lengths : All (λ p. (length p.bytes ≤ p.original_len) × (p.original_len < 2 ^ 32)) ps
    pub short : total_bytes ps ≤ max_packet_bytes
    pub fits : longest ps ≤ snap
    pub here : r.rest ≡ out
    pub whole : r.ending ≡ none
    pub room : r.count + length out ≤ limits.bytes
    pub kept : limits.retain ≡ true
    pub records : r.capture.total_packets + length ps ≤ limits.records
    pub no_omission : r.capture.omitted_packets ≡ 0
    pub few : length r.capture.packets + length ps ≤ max_packets
    pub small : r.capture.retained_bytes + total_bytes ps ≤ max_retained_bytes

  abbrev pub Reread : List Packet → ℕ → ℕ → Reading (Unit {0}) → Type 0
  Reread ps fuel snap r =
      (s : Reading (Unit {0})) × (pcap_loop none limits fuel true 9 snap r ≡ got (tt, s))
      × (map sample s.capture.packets ≡ map sample r.capture.packets ++ map exported ps)

  pub loop-Reread :
      (ps : List Packet) (fuel snap : ℕ) (out : List ℕ) (r : Reading (Unit {0}))
      → CanRead snap ps out r
      → length out < fuel
      → Reread ps fuel snap r
  unfolding each_packet
  loop-Reread ps zero snap out r h f = absurd (omega arith)
  loop-Reread [] (suc fuel) snap out r h f = (
    r,
    end-got limits fuel snap r (h.here ∙ sym (got-injective [] out h.written)) h.whole,
    sym (append-nil (map sample r.capture.packets)),
  )
  loop-Reread (p ∷ ps) (suc fuel) snap out r h f =
      let (front, rest, w, more, o) = each_packet-inversion pcap_packet p ps out h.written in
      let (t, at, range, e) = pcap_packet-inversion p front w in
      let ns = elapsed t in
      let bytes_are : out ≡ pcap_bytes p ns ++ rest = o ∙ ap (λ x. x ++ rest) e in
      let sizes : length out ≡ 16 + length p.bytes + length rest =
        omega (arith, ap length bytes_are, length-append p.bytes rest) in
      let fits : (length p.bytes ≤ snap) × (longest ps ≤ snap) = ground (arith, h.fits) in
      let (packets, retained, total, omitted) =
        with_packet-Room p ns r.count r.capture h.no_omission (omega (arith, h.few))
          (omega (arith, h.small)) in
      let q = reread (r.capture.total_packets + 1) r.count p ns in
      let u = record r {
        rest = rest;
        count = r.count + 16 + length p.bytes;
        capture = with_packet p ns r.count r.capture;
      } in
      let (s, loops, samples) =
        loop-Reread ps fuel snap rest u
          (record {
            written = more;
            true_lengths = h.true_lengths.1;
            short = omega (arith, h.short);
            fits = fits.1;
            here = refl;
            whole = h.whole;
            room = omega (arith, h.room, sizes);
            kept = h.kept;
            records = omega (arith, h.records, total);
            no_omission = omitted;
            few = omega (
              arith,
              h.few,
              ap length packets,
              length-append r.capture.packets
                  (reread (r.capture.total_packets + 1) r.count p ns ∷ []),
            );
            small = omega (arith, h.small, retained);
          })
          (omega (arith, f, sizes)) in
      (
        s,
        turn-got limits fuel snap ns p rest r (ground (arith, range)) fits.0 h.true_lengths.0.0
              h.true_lengths.0.1 (omega (arith, h.short)) (h.here ∙ bytes_are)
              (omega (arith, h.room, sizes)) h.kept (omega (arith, h.records))
            ∙ loops,
        samples
            ∙ ap (λ x. map sample x ++ map exported ps) packets
            ∙ ap (λ x. x ++ map exported ps) (map-append sample r.capture.packets (q ∷ []))
            ∙ append_assoc (map sample r.capture.packets) (sample q ∷ []) (map exported ps)
            ∙ ap
                (λ x.
                  map sample r.capture.packets
                  ++ (in_nanoseconds x, p.original_len, p.bytes) ∷ map exported ps)
                (sym at),
      )
