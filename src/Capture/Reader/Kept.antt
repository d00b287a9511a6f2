-- ===== src/Capture/Reader/Kept.antt =====
-- What `retain` of crates/netlane-capture/src/reader.rs keeps of a capture.
pub mod Pcap
pub mod Ng
pub mod Loop
pub mod Whole
use netlane.Prelude.{
  ℕ, zero, suc, ◌+◌, ◌%◌, ◌^◌, ◌≤◌, ◌<◌, Bool, true, false, not, ◌||◌, List, [], ◌∷◌, ◌++◌, length,
  length-append, get_elem?, get_elem?-some, All, All-append, All-map, Option, none, some, ltb, leb,
  ◌==◌, if◌then◌else◌, ◌≡◌, refl, sym, subst, ap, ◌∙◌, arith, Bool-cases, inl, inr, ok, err,
  Result-cases,
}
use netlane.Capture.Types.{
  Interface, Timestamp, Packet, CaptureFile, max_packets, max_retained_bytes, max_interfaces,
}
use netlane.Capture.Reader.Input.{Limits, Reading, failed, got, M, ◌>>=◌, ◌>>◌, pure, ask, unwrap}
use netlane.Capture.Reader.Retain.{
  Sink, keep, counted, change_capture, get_capture, sink_packet, pass_on, retain,
}
use netlane.Capture.Reader.Safe.{
  Ends, stopped, fine, got-Ends, got-then, then-Ends, ask-Ends, unwrap-Ends, InBounds,
}

-- The packets have the numbers from n on, in order.
abbrev pub Numbered : ℕ → List Packet → Type 0
Numbered n [] = Unit
Numbered n (p ∷ ps) = (p.number ≡ n) × Numbered (suc n) ps

abbrev pub total_bytes : List Packet → ℕ
total_bytes [] = 0
total_bytes (p ∷ ps) = length p.bytes + total_bytes ps

-- The packet names an interface of the capture, and its lengths are true of its bytes.
abbrev pub IsWhole : ℕ → Packet → Type 0
IsWhole interfaces p =
    (p.interface < interfaces)
    × (p.captured_len ≡ length p.bytes)
    × (length p.bytes ≤ p.original_len)

-- The capture keeps a prefix of the file's packets within the limits, and counts every one.
pub record IsKept (limits : Limits) (c : CaptureFile) : Type 0 where
  pub counts : length c.packets + c.omitted_packets ≡ c.total_packets
  pub numbered : Numbered 1 c.packets
  pub whole : All (IsWhole (length c.interfaces)) c.packets
  pub few : length c.packets ≤ max_packets
  pub sum : c.retained_bytes ≡ total_bytes c.packets
  pub small : c.retained_bytes ≤ max_retained_bytes
  pub records : c.total_packets ≤ limits.records
  pub interfaces : length c.interfaces ≤ max_interfaces

Numbered-append :
    (n : ℕ) (ps : List Packet) (p : Packet)
    → Numbered n ps
    → p.number ≡ n + length ps
    → Numbered n (ps ++ p ∷ [])
Numbered-append n [] p h e = (omega (arith, e), tt)
Numbered-append n (q ∷ ps) p h e = (h.0, Numbered-append (suc n) ps p h.1 (omega (arith, e)))

total_bytes-append :
    (ps : List Packet) (p : Packet) → total_bytes (ps ++ p ∷ []) ≡ total_bytes ps + length p.bytes
total_bytes-append [] p = omega arith
total_bytes-append (q ∷ ps) p = omega (arith, total_bytes-append ps p)

keep-IsKept :
    (limits : Limits) (allowed : Bool) (size original : ℕ) (p : Packet) (c : CaptureFile)
    → IsKept limits c
    → p.number ≡ c.total_packets + 1
    → IsWhole (length c.interfaces) p
    → c.total_packets + 1 ≤ limits.records
    → IsKept limits (keep allowed p (counted size original c))
keep-IsKept limits allowed size original p c k n w room =
    elim (Bool-cases (
      not allowed
      || not (c.omitted_packets == 0)
      || leb max_packets (length c.packets)
      || ltb max_retained_bytes (c.retained_bytes + length p.bytes))) [
        | inl e ↦ rw e (record {
          counts = omega (arith, k.counts);
          numbered = k.numbered;
          whole = k.whole;
          few = k.few;
          sum = k.sum;
          small = k.small;
          records = room;
          interfaces = k.interfaces;
        })
        | inr e ↦
            let first : c.omitted_packets ≡ 0 = ground (arith, e) in
            rw e (record {
              counts = omega (arith, k.counts, length-append c.packets (p ∷ []));
              numbered =
                  Numbered-append 1 c.packets p k.numbered (omega (arith, k.counts, n, first));
              whole = All-append _ c.packets (p ∷ []) k.whole (w, tt);
              few = ground (arith, e, length-append c.packets (p ∷ []));
              sum = omega (arith, k.sum, total_bytes-append c.packets p);
              small = ground (arith, e);
              records = room;
              interfaces = k.interfaces;
            })
      ]

-- Keeping a packet changes no interface.
keep-interfaces :
    (allowed : Bool) (p : Packet) (c d : CaptureFile)
    → d ≡ c
    → length c.interfaces ≤ length (keep allowed p d).interfaces
keep-interfaces allowed p c d e = rw e (ground arith)

-- What every step leaves: a kept capture, bytes within the limits, no interface and no byte lost.
abbrev pub Good : {S : Type 0} → Limits → ℕ → Reading S → Reading S → Type 0
Good limits size r s =
    IsKept limits s.capture
    × InBounds limits size s
    × (length r.capture.interfaces ≤ length s.capture.interfaces)
    × (length s.rest ≤ length r.rest)

module _ {S : Type 0} (sink : Option (Sink S)) (limits : Limits) where
  -- The sink changes its own state only.
  abbrev Passed : Reading S → Unit {0} × Reading S → Type 0
  Passed r (u, s) = (s.capture ≡ r.capture) × (s.count ≡ r.count) × (s.rest ≡ r.rest)

  sink_packet-Ends :
      (s : Sink S) (p : Packet) (i : Interface) (r : Reading S)
      → Ends (Passed r) (sink_packet sink limits s p i r)
  sink_packet-Ends s p i r = elim (Result-cases (s p i r.sunk)) [
    | inl (t, f) ↦ rw (f, sink_packet) (fine (tt, record r { sunk = t }) (refl, refl, refl))
    | inr (m, f) ↦ rw (f, sink_packet) (stopped m)
  ]

  pass_on-Ends :
      (given : Option (Sink S)) (p : Packet) (r : Reading S)
      → p.interface < length r.capture.interfaces
      → Ends (Passed r) (pass_on sink limits given p r)
  unfolding pass_on
  pass_on-Ends none p r h = fine (tt, r) (refl, refl, refl)
  pass_on-Ends (some s) p r h =
      let (i, e) = get_elem?-some r.capture.interfaces p.interface h in
      got-Ends (get_capture sink limits) _ r r.capture r refl (
        unwrap-Ends (get_elem? r.capture.interfaces p.interface) _ r i e (sink_packet-Ends s p i r))

  pub retain-Ends :
      (size interface offset : ℕ) (timestamp : Option Timestamp) (original : ℕ) (content : List ℕ)
      (r : Reading S)
      → IsKept limits r.capture
      → InBounds limits size r
      → interface < length r.capture.interfaces
      → length content ≤ original
      → length content < 2 ^ 32
      → Ends
          (λ p. Good limits size r p.1)
          (retain sink limits interface offset timestamp original content r)
  unfolding retain
  retain-Ends size interface offset timestamp original content r k b i fits short =
      got-Ends (get_capture sink limits) _ r r.capture r refl (
        ask-Ends (leb (r.capture.total_packets + 1) limits.records) _ _ r λ room.
          let p : Packet = record {
            number = r.capture.total_packets + 1;
            file_offset = offset;
            interface = interface;
            timestamp = timestamp;
            original_len = original;
            captured_len = length content % 2 ^ 32;
            bytes = content;
          } in
          let s = record r { capture = counted (length content) original r.capture } in
          got-then (change_capture sink limits (counted (length content) original)) _ r tt s refl (
            then-Ends (Passed s) (pass_on sink limits sink p) _ s (pass_on-Ends sink p s i) λ _ u h.
              let kept =
                keep-IsKept limits limits.retain (length content) original p r.capture k refl
                  (i, omega (arith, short), fits) (ground (arith, room)) in
              fine _ (
                subst (λ c. IsKept limits (keep limits.retain p c)) (sym h.0) kept,
                record {
                  within = omega (arith, b.within, h.1);
                  whole = omega (arith, b.whole, h.1, ap length h.2);
                },
                keep-interfaces limits.retain p s.capture u.capture h.0,
                omega (arith, ap length h.2),
              )))
