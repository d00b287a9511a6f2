-- ===== src/Capture/Decode/Payload.antt =====
-- The payload of a summary of decode.rs is a range of the frame, and no frame makes it panic
-- (crates/netlane-capture/src/decode.rs).
use netlane.Prelude.{
  length-drop, ℕ, zero, suc, ◌+◌, ◌/◌, ◌≤◌, min, Bool, true, false, not, ◌&&◌, List, [], ◌∷◌,
  length, drop, Option, none, some, ◌≡◌, refl, arith, leb, ◌==◌, contains, if◌then◌else◌,
  Bool-cases, inl, inr, Text, text, ◌++◌,
}
use netlane.Capture.Decode.Outcomes.{Flow, Summary}
use netlane.Capture.Decode.{
  extension, extensions, Segment, ipv6_segment, tcp, udp, named, with_ports, transport_layer,
  network_layer, unknown, decode, finished, summarize,
}
use netlane.Capture.Decode.Safe.{
  InFrame, Safe, early, on, Safe-bind, at-bind, word-bind, slice-bind, return-then, Safe-if,
  no_payload, Within, link_layer-Safe, Placed, ipv4_segment-Safe,
}

-- Where the next header stands lies before the end.
abbrev Before : ℕ → ℕ × ℕ → Type 0
Before end (header, offset) = offset ≤ end

extension-Safe :
    (ip : List ℕ) (end size header offset : ℕ) (s : Summary)
    → s.payload ≡ none
    → end ≤ length ip
    → Safe size (Before end) (extension ip end s header offset)
extension-Safe ip end size header offset s e h = return-then _ _ _ (rw e tt) λ c.
    at-bind ip (offset + 1) _ (ground (arith, c)) λ units.
      at-bind ip offset _ (ground (arith, c))
        λ following. return-then _ _ _ (rw e tt) λ d. on _ (ground (arith, d))

extensions-Safe :
    (rounds : ℕ) (ip : List ℕ) (end size header offset : ℕ) (s : Summary)
    → s.payload ≡ none
    → end ≤ length ip
    → offset ≤ end
    → Safe size (Before end) (extensions rounds ip end s header offset)
unfolding extensions
extensions-Safe zero ip end size header offset s e h k = on _ k
extensions-Safe (suc rounds) ip end size header offset s e h k = return-then _ _ _ (rw e tt) λ _.
    Safe-if (not (contains (0 ∷ 43 ∷ 60 ∷ 51 ∷ []) header)) _ _ (λ _. on _ k)
      λ _.
        Safe-bind (Before end) _ _ (extension-Safe ip end size header offset s e h)
          λ r f. extensions-Safe rounds ip end size r.0 r.1 s e h f

ipv6_segment-Safe :
    (show_ipv6 : List ℕ → Text) (ip : List ℕ) (offset size : ℕ) (s : Summary)
    → s.payload ≡ none
    → 40 ≤ length ip
    → offset + length ip ≤ size
    → Safe size (Placed size) (ipv6_segment show_ipv6 ip offset s)
unfolding ipv6_segment
ipv6_segment-Safe show_ipv6 ip offset size s e h room =
    slice-bind ip 8 24 _ (omega arith) (omega arith) λ source _.
      slice-bind ip 24 40 _ (omega arith) (omega arith) λ destination _.
        word-bind ip 4 _ (omega arith) λ declared. at-bind ip 6 _ (omega arith) λ first.
          Safe-bind (Before (min (40 + declared) (length ip))) _ _
            (extensions-Safe 8 ip (min (40 + declared) (length ip)) size first 40
              (record s {
                protocol = text "IPv6";
                source = show_ipv6 source;
                destination = show_ipv6 destination;
              })
              e (ground arith) (ground arith))
            λ r f. return-then _ _ _ (rw e tt) λ _.
              slice-bind ip r.1 (min (40 + declared) (length ip)) _ f (ground arith)
                λ t l. on _ (ground (arith, l, f), e)

network_layer-Safe :
    (show_ipv6 : List ℕ → Text) (ip : List ℕ) (offset kind size : ℕ) (s : Summary)
    → s.payload ≡ none
    → offset + length ip ≤ size
    → Safe size (Placed size) (network_layer show_ipv6 ip offset kind s)
unfolding network_layer
network_layer-Safe show_ipv6 ip offset kind size s e room =
    Safe-if (kind == 0x0806) _ _ (λ _. early _ (rw e tt))
      λ _.
        Safe-if (kind == 0x0800 && leb 20 (length ip)) _ _
          (λ c. at-bind ip 0 _ (ground arith) λ first.
            Safe-if (first / 16 == 4) _ _
              (λ _. ipv4_segment-Safe ip offset first size s e (ground arith) room)
              λ _. early s (no_payload size s e))
          λ _.
            Safe-if (kind == 0x86dd && leb 40 (length ip)) _ _
              (λ c. at-bind ip 0 _ (ground arith) λ first.
                Safe-if (first / 16 == 6) _ _
                  (λ _. ipv6_segment-Safe show_ipv6 ip offset size s e (ground arith) room)
                  λ _. early s (no_payload size s e))
              λ _. early s (no_payload size s e)

-- The summary that is handed on has a payload in the frame.
abbrev Good : ℕ → Summary → Type 0
Good size s = InFrame size s.payload

tcp-Safe :
    (g : Segment) (s : Summary) (size : ℕ)
    → s.payload ≡ none
    → 20 ≤ length g.transport
    → g.transport_offset + length g.transport ≤ size
    → Safe size (Good size) (tcp g s)
unfolding tcp
tcp-Safe g s size e h room = at-bind g.transport 12 _ (omega arith) λ offset.
    return-then _ _ _ (rw e tt)
      λ c. at-bind g.transport 13 _ (omega arith) λ flags. on _ (ground (arith, c), ground arith)

udp_payload :
    (start len size : ℕ) (old : Option (ℕ × ℕ)) (declared : ℕ)
    → old ≡ none
    → 8 ≤ len
    → start + len ≤ size
    → InFrame size (if leb 8 declared then some (start + 8, start + min declared len) else old)
udp_payload start len size old declared e h room = elim (Bool-cases (leb 8 declared)) [
  | inl c ↦ rw c (ground (arith, c), ground (arith, c))
  | inr c ↦ rw (c, e) tt
]

udp-Safe :
    (g : Segment) (source destination : ℕ) (s : Summary) (size : ℕ)
    → s.payload ≡ none
    → 8 ≤ length g.transport
    → g.transport_offset + length g.transport ≤ size
    → Safe size (Good size) (udp g source destination s)
unfolding udp
udp-Safe g source destination s size e h room = word-bind g.transport 4 _ (omega arith) λ declared.
    on _ (udp_payload g.transport_offset (length g.transport) size s.payload declared e h room)

offload-Good :
    (offloaded : Bool) (s : Summary) (size : ℕ)
    → Good size s
    → Good size (
        if offloaded
        then record s {
          info = s.info ++ text " · comprimento IP 0, provável segmentação na placa (TSO)";
        }
        else s)
offload-Good true s size h = h
offload-Good false s size h = h

transport_layer-Safe :
    (g : Segment) (size : ℕ) → Placed size g → Safe size (Good size) (transport_layer g)
unfolding transport_layer
transport_layer-Safe g size (room, e) = return-then _ _ _ (no_payload size (named g) e) λ c.
    return-then _ _ _ (rw e tt) λ d. word-bind g.transport 0 _ (ground (arith, d)) λ source.
      word-bind g.transport 2 _ (ground (arith, d)) λ destination.
        Safe-bind (Good size) _ _
          (Safe-if (g.protocol == 6) _ _
            (λ f.
              tcp-Safe g (with_ports g source destination (named g)) size e (ground (arith, d, f))
                room)
            (λ f.
              udp-Safe g source destination (with_ports g source destination (named g)) size e
                (ground (arith, d, f)) room))
          λ t k. on _ (offload-Good g.offloaded t size k)

decode-Safe :
    (show_ipv6 : List ℕ → Text) (bytes : List ℕ) (link : ℕ)
    → Safe (length bytes) (Good (length bytes)) (decode show_ipv6 bytes link)
unfolding decode
decode-Safe show_ipv6 bytes link =
    Safe-bind (Within bytes) _ _ (link_layer-Safe bytes link (unknown link) refl) λ r h.
      Safe-bind (Placed (length bytes)) _ _
        (return-then _ _ _ tt λ _.
          network_layer-Safe show_ipv6 (drop r.0 bytes) r.0 r.1 (length bytes) (unknown link) refl
            (omega (arith, length-drop r.0 bytes)))
        λ g p. transport_layer-Safe g (length bytes) p

finished-Good :
    (o : Flow Summary) (size : ℕ)
    → Safe size (Good size) o
    → (s : Summary) × (finished o ≡ some s) × InFrame size s.payload
unfolding finished
finished-Good _ size (early s h) = (s, refl, h)
finished-Good _ size (on s h) = (s, refl, h)

-- Whatever the bytes of a frame and the type of its link are, `summarize` returns a summary and does
-- not panic, and a payload it names is a range inside the frame, its start not behind its end.
pub summarize-InFrame :
    (show_ipv6 : List ℕ → Text) (bytes : List ℕ) (link : ℕ)
    → (s : Summary) × (summarize show_ipv6 bytes link ≡ some s) × InFrame (length bytes) s.payload
unfolding summarize
summarize-InFrame show_ipv6 bytes link =
    finished-Good (decode show_ipv6 bytes link) (length bytes) (decode-Safe show_ipv6 bytes link)
