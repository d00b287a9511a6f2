-- ===== src/Capture/Export/Whole.antt =====
-- A selection that crates/netlane-capture/src/export.rs writes as PCAP, and its read by reader.rs.
use netlane.Prelude.{
  ℕ, suc, ◌+◌, ◌*◌, ◌^◌, ◌≤◌, ◌<◌, Bool, true, false, List, [], ◌∷◌, ◌++◌, length, length-append,
  map, get_elem?, All, All-get_elem?, all, Option, none, some, Text, text, ltb, ◌==◌, str_eq,
  if◌then◌else◌, ◌≡◌, refl, ap, ◌∙◌, arith,
}
use netlane.Capture.Types.{Format, Interface, Packet, CaptureFile, max_packet_bytes}
use netlane.Capture.Reader.Input.{
  Limits, Reading, Read, got, failed, panicked, ◌>>=◌, ◌>>◌, context, number, exact,
}
use netlane.Capture.Reader.Retain.{Library}
use netlane.Capture.Reader.{
  pcap_header, pcap_loop, read_pcap, pcap_interface, no_reserved_bits, empty_capture, finish,
  read_format, read_capture, read_with,
}
use netlane.Capture.Reader.Files.{read, read_limits}
use netlane.Capture.Reader.Kept.{total_bytes}
use netlane.Capture.Export.{
  Selection, word, longest, pcap_packet, each_packet, prefixed, pcap_head, encode_pcap, encode,
}
use netlane.Capture.Export.Steps.{le_value-word, got-bind, unwrap-bind, ask-then, fill-append}
use netlane.Capture.Export.RoundTrip.{
  sample, exported, loop-Reread, each_packet-inversion, pcap_packet-inversion, got-injective,
}

-- The rest of the header behind the magic number.
header : ℕ → ℕ → List ℕ
header snap link = word 0x00040002 ++ word 0 ++ word 0 ++ word snap ++ word link

abbrev magic : List ℕ
magic = 0x4d ∷ 0x3c ∷ 0xb2 ∷ 0xa1 ∷ []

module _ (limits : Limits) where
  header-got :
      (snap link : ℕ) (more : List ℕ) (r : Reading (Unit {0}))
      → 0 < snap
      → snap < 2 ^ 32
      → link < 2 ^ 16
      → r.rest ≡ header snap link ++ more
      → r.count + 20 ≤ limits.bytes
      → pcap_header none limits true 9 r
        ≡ got (
          snap,
          record r {
            rest = more;
            count = r.count + 20;
            capture = record r.capture {
              interfaces = r.capture.interfaces ++ pcap_interface link snap 9 ∷ [];
            };
          },
        )
  unfolding pcap_header header number ◌>>=◌ ◌>>◌
  header-got snap link more r positive small short e room =
      let s = record r { rest = more; count = r.count + 20 } in
      let h = header snap link in
      let link_size : link < 2 ^ 32 = omega (arith, short) in
      got-bind (exact limits 20) _ r h s (fill-append limits 20 _ h more r e refl room)
      ∙ unwrap-bind (number true 2 h 0) _ s 2 refl
      ∙ unwrap-bind (number true 2 h 2) _ s 4 refl
      ∙ ask-then true _ _ s refl
      ∙ unwrap-bind (number true 4 h 12) _ s snap (ap some (le_value-word snap small))
      ∙ unwrap-bind (number true 4 h 16) _ s link (ap some (le_value-word link link_size))
      ∙ ask-then (ltb 0 snap) _ _ s (ground (arith, positive))
      ∙ ask-then (no_reserved_bits link) _ _ s (ground (arith, short))
      ∙ refl

-- What `Selection::new` makes sure of, with the ranges of `u16` and `u32`.
pub record IsSelection (s : Selection) : Type 0 where
  pub true_lengths :
      All (λ p. (length p.bytes ≤ p.original_len) × (p.original_len < 2 ^ 32)) s.packets
  pub short : total_bytes s.packets ≤ max_packet_bytes
  pub few : length s.packets ≤ 512
  pub links : All (λ i. i.link_type < 2 ^ 16) s.interfaces

longest_pos : (ps : List Packet) → 0 < longest ps
longest_pos [] = omega arith
longest_pos (p ∷ ps) = ground (arith, longest_pos ps)

longest-total_bytes : (ps : List Packet) → longest ps ≤ 1 + total_bytes ps
longest-total_bytes [] = omega arith
longest-total_bytes (p ∷ ps) = ground (arith, longest-total_bytes ps)

length-each_packet :
    (ps : List Packet) (out : List ℕ)
    → each_packet pcap_packet ps ≡ got out
    → length out ≡ 16 * length ps + total_bytes ps
unfolding each_packet
length-each_packet [] out e = omega (arith, ap length (got-injective [] out e))
length-each_packet (p ∷ ps) out e =
    let (front, rest, w, more, o) = each_packet-inversion pcap_packet p ps out e in
    let (t, _, _, f) = pcap_packet-inversion p front w in
    omega
      (arith, ap length o, length-append front rest, ap length f, length-each_packet ps rest more)

if-left :
    (b : Bool) (x : Read (List ℕ)) (m : Text) (out : List ℕ)
    → (if b then x else failed m) ≡ got out
    → x ≡ got out
if-left true x m out e = e
if-left false x m out e = cc

prefixed-inversion :
    (front : List ℕ) (x : Read (List ℕ)) (out : List ℕ)
    → prefixed front x ≡ got out
    → (rest : List ℕ) × (x ≡ got rest) × (out ≡ front ++ rest)
prefixed-inversion front (failed m) out e = cc
prefixed-inversion front panicked out e = cc
prefixed-inversion front (got rest) out e = (rest, refl, cc)

-- The interface and the packets of a file that is written.
abbrev Written : Selection → List ℕ → Type 0
Written s out =
    (k : ℕ) × (i : Interface) × (body : List ℕ) × (get_elem? s.interfaces k ≡ some i)
    × (each_packet pcap_packet s.packets ≡ got body)
    × (out ≡ pcap_head (longest s.packets) i.link_type ++ body)

named-Written :
    (s : Selection) (k : ℕ) (out : List ℕ) (o : Option Interface)
    → get_elem? s.interfaces k ≡ o
    → (let written : Read (List ℕ) = elim o [
      | none ↦ panicked
      | some i ↦
          prefixed (pcap_head (longest s.packets) i.link_type) (each_packet pcap_packet s.packets)
    ] in
        written ≡ got out)
    → Written s out
named-Written s k out none f e = cc
named-Written s k out (some i) f e =
    let (body, g, h) = prefixed-inversion (pcap_head (longest s.packets) i.link_type) _ out e in
    (k, i, body, f, g, h)

encode_pcap-Written : (s : Selection) (out : List ℕ) → encode_pcap s ≡ got out → Written s out
unfolding encode_pcap
encode_pcap-Written s out e = go s.packets e
  where
    go :
        (ps : List Packet)
        → (let written : Read (List ℕ) = elim ps [
          | [] ↦ panicked
          | first ∷ _ ↦
              if all (λ p. p.interface == first.interface) s.packets
              then elim (get_elem? s.interfaces first.interface) [
                | none ↦ panicked
                | some i ↦
                    prefixed
                      (pcap_head (longest s.packets) i.link_type)
                      (each_packet pcap_packet s.packets)
              ]
              else failed (text "PCAP exige uma única interface. Use PCAPNG.")
        ] in
            written ≡ got out)
        → Written s out
    go [] e = cc
    go (first ∷ _) e =
        named-Written s first.interface out (get_elem? s.interfaces first.interface) refl
          (if-left (all (λ p. p.interface == first.interface) s.packets) _ _ out e)

-- The bytes of the file, behind the magic number.
read_format-got :
    (lib : Library) (limits : Limits) (snap link : ℕ) (body : List ℕ) (r : Reading (Unit {0}))
    → 0 < snap
    → snap < 2 ^ 32
    → link < 2 ^ 16
    → r.rest ≡ header snap link ++ body
    → r.count + 20 ≤ limits.bytes
    → read_format lib none limits magic r
      ≡ pcap_loop none limits (suc (length body)) true 9 snap (record r {
        rest = body;
        count = r.count + 20;
        capture = record (empty_capture Format.pcap) {
          interfaces = pcap_interface link snap 9 ∷ [];
        };
      })
unfolding read_format read_pcap ◌>>=◌ ◌>>◌ context str_eq
read_format-got lib limits snap link body r positive small short e room =
    got-bind (pcap_header none limits true 9) _ (record r { capture = empty_capture Format.pcap })
      snap _
      (header-got limits snap link body (record r { capture = empty_capture Format.pcap }) positive
        small short e room)

-- A selection within its limits that `encode` writes as PCAP is read back without an error, and the capture has the
-- packets of the selection in their order, each with its bytes, its original length and its time in nanoseconds.
pub encode-read :
    (lib : Library) (utf8 : Text → List ℕ) (s : Selection) (out : List ℕ)
    → IsSelection s
    → encode utf8 s Format.pcap ≡ got out
    → (c : CaptureFile) × (read lib out none ≡ got c)
      × (map sample c.packets ≡ map exported s.packets)
unfolding encode read read_with read_capture header
encode-read lib utf8 s out w e =
    let (k, i, body, f, g, o) = encode_pcap-Written s out e in
    let snap = longest s.packets in
    let snap_fits = longest-total_bytes s.packets in
    let link_fits = All-get_elem? (λ j. j.link_type < 2 ^ 16) s.interfaces k i w.links f in
    let sizes = length-each_packet s.packets body g in
    let r : Reading (Unit {0}) = record {
      rest = out;
      ending = none;
      count = 0;
      capture = empty_capture Format.pcap;
      sunk = tt;
    } in
    let start = record r { rest = header snap i.link_type ++ body; count = 4 } in
    let (t, loops, samples) =
      loop-Reread read_limits s.packets (suc (length body)) snap body
        (record r {
          rest = body;
          count = 24;
          capture = record (empty_capture Format.pcap) {
            interfaces = pcap_interface i.link_type snap 9 ∷ [];
          };
        })
        (record {
          written = g;
          true_lengths = w.true_lengths;
          short = w.short;
          fits = omega arith;
          here = refl;
          whole = refl;
          room = omega (arith, sizes, w.few, w.short);
          kept = refl;
          records = omega (arith, w.few);
          no_omission = refl;
          few = omega (arith, w.few);
          small = omega (arith, w.short);
        })
        (omega arith) in
    let reads : read_capture lib none read_limits r ≡ got (tt, t) =
      got-bind (exact read_limits 4) (read_format lib none read_limits) r magic start
        (fill-append read_limits 4 _ magic (header snap i.link_type ++ body) r o refl (omega arith))
      ∙ read_format-got lib read_limits snap i.link_type body start (longest_pos s.packets)
          (omega (arith, snap_fits, w.short)) link_fits refl (omega arith)
      ∙ loops in
    ((finish lib.sha256 out t).0, rw (reads, read, read_with) refl, samples)
