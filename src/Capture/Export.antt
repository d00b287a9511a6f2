-- ===== src/Capture/Export.antt =====
-- crates/netlane-capture/src/export.rs: the selection of packets and its files. The bytes of a text in UTF-8
-- are a parameter.
pub mod Steps
pub mod RoundTrip
pub mod Whole
pub mod Selected
mod Tests
use netlane.Prelude.{
  ℕ, zero, suc, ◌+◌, ◌-◌, ◌*◌, ◌/◌, ◌%◌, ◌^◌, Bool, true, false, not, ◌&&◌, ◌||◌, List, [], ◌∷◌,
  ◌++◌, length, get_elem?, take, all, any, is_empty, select, Option, none, some, Text, text, ltb,
  leb, ◌==◌, is_control, if◌then◌else◌, Result, ok, err, ◌>>=◌, ◌>>◌, ensure, ok_or,
}
use netlane.Prelude.Sorting.{sort_by}
use netlane.Capture.Bytes.{le_bytes}
use netlane.Capture.Types.{
  Format, Interface, Timestamp, Packet, CaptureFile, unix_nanos, max_interfaces,
}
use netlane.Capture.Reader.Input.{Read, failed, panicked, got}

-- `struct Selection`
pub record Selection : Type 0 where
  pub source_sha256 : Text
  pub source_packets : ℕ
  pub interfaces : List Interface
  pub packets : List Packet

-- The local variables of `Selection::new`.
pub record Chosen : Type 0 where
  pub seen : List ℕ
  pub taken : List Packet
  pub size : ℕ

abbrev pub is_hash : Text → Bool
is_hash t =
    length t == 64
    && all
        (λ c.
          (leb b'0' c && leb c b'9') || (leb b'A' c && leb c b'F') || (leb b'a' c && leb c b'f'))
        t

-- One turn of the loop over the indexes.
unfoldable pub choose : CaptureFile → ℕ → Chosen → Result Chosen
choose capture index c = do
  p ← ok_or (get_elem? capture.packets index) (text "Amostra inexistente")
  i ← ok_or (get_elem? capture.interfaces p.interface) (text "Interface inexistente")
  ensure
      (not (any (λ n. n == p.number) c.seen)
        && ltb 0 p.number
        && leb p.number capture.total_packets)
      (text "Número repetido ou inválido.")
  ensure
      (leb (length p.bytes) p.captured_len
        && leb p.captured_len p.original_len
        && (i.snaplen == 0 || leb p.captured_len i.snaplen))
      (text "Comprimentos inválidos.")
  ensure (leb (c.size + length p.bytes) 1048576) (text "Exportação excede 1 MiB de bytes retidos.")
  ok (record {
    seen = p.number ∷ c.seen;
    taken = c.taken ++ p ∷ [];
    size = c.size + length p.bytes;
  })

unfoldable pub choose_all : CaptureFile → List ℕ → Chosen → Result Chosen
choose_all capture [] c = ok c
choose_all capture (index ∷ indexes) c = choose capture index c >>= choose_all capture indexes

-- `Selection::new`
unfoldable pub new : CaptureFile → List ℕ → Result Selection
new capture indexes = do
  ensure (not (is_empty indexes) && leb (length indexes) 512)
      (text "Selecione de 1 a 512 amostras.")
  ensure (leb (length capture.interfaces) max_interfaces) (text "Interfaces demais.")
  ensure (is_hash capture.sha256) (text "Hash inválido.")
  c ← choose_all capture indexes (record { seen = []; taken = []; size = 0 })
  ok (record {
    source_sha256 = capture.sha256;
    source_packets = capture.total_packets;
    interfaces = capture.interfaces;
    packets = sort_by (λ p q. leb p.number q.number) c.taken;
  })

abbrev pub word : ℕ → List ℕ
word n = le_bytes 4 (n % 2 ^ 32)

abbrev pub longest : List Packet → ℕ
longest [] = 1
longest (p ∷ ps) =
    let rest = longest ps in if ltb (length p.bytes) rest then rest else length p.bytes

-- The time of a packet in a PCAP file.
abbrev pub in_range : ℕ × ℕ → Bool
in_range ns = leb ns.1 ns.0 && leb (ns.0 - ns.1) (4294967295 * 1000000000 + 999999999)

abbrev pub elapsed : Timestamp → ℕ
elapsed t = (unix_nanos t).0 - (unix_nanos t).1

-- One packet of a PCAP file, by its time.
abbrev pub pcap_bytes : Packet → ℕ → List ℕ
pcap_bytes p ns =
    word (ns / 1000000000)
    ++ word (ns % 1000000000)
    ++ word (length p.bytes)
    ++ word p.original_len
    ++ p.bytes

unfoldable pub pcap_packet : Packet → Read (List ℕ)
pcap_packet p = elim p.timestamp [
  | none ↦ failed (text "PCAP não representa pacotes sem horário. Use PCAPNG.")
  | some t ↦
      if in_range (unix_nanos t)
      then got (pcap_bytes p (elapsed t))
      else failed (text "Horário fora do intervalo PCAP. Use PCAPNG.")
]

abbrev pub prefixed : List ℕ → Read (List ℕ) → Read (List ℕ)
prefixed front (failed m) = failed m
prefixed front panicked = panicked
prefixed front (got rest) = got (front ++ rest)

-- The bytes of every packet; the first error is the file's.
unfoldable pub each_packet : (Packet → Read (List ℕ)) → List Packet → Read (List ℕ)
each_packet write [] = got []
each_packet write (p ∷ ps) =
    let rest = each_packet write ps in
    elim (write p) [ failed m ↦ failed m | panicked ↦ panicked | got front ↦ prefixed front rest ]

-- The header of a PCAP file.
abbrev pub pcap_head : ℕ → ℕ → List ℕ
pcap_head snap link_type =
    word 0xa1b23c4d ++ word 0x00040002 ++ word 0 ++ word 0 ++ word snap ++ word link_type

unfoldable pub encode_pcap : Selection → Read (List ℕ)
encode_pcap s = elim s.packets [
  | [] ↦ panicked
  | first ∷ _ ↦
      if all (λ p. p.interface == first.interface) s.packets
      then elim (get_elem? s.interfaces first.interface) [
        | none ↦ panicked
        | some i ↦
            prefixed (pcap_head (longest s.packets) i.link_type) (each_packet pcap_packet s.packets)
      ]
      else failed (text "PCAP exige uma única interface. Use PCAPNG.")
]

-- `pad`
abbrev pub pad : List ℕ → List ℕ
pad content = content ++ take ((4 - length content % 4) % 4) (0 ∷ 0 ∷ 0 ∷ [])

-- `option`
abbrev pub option : List ℕ → ℕ → List ℕ → List ℕ
option out code value = pad (out ++ le_bytes 2 code ++ le_bytes 2 (length value % 2 ^ 16) ++ value)

-- `block`
abbrev pub block : ℕ → List ℕ → List ℕ
block kind body = word kind ++ word (length body + 12) ++ body ++ word (length body + 12)

abbrev pub section_body : List ℕ
section_body = word 0x1a2b3c4d ++ le_bytes 2 1 ++ le_bytes 2 0 ++ le_bytes 8 (2 ^ 64 - 1)

module _ (utf8 : Text → List ℕ) where
  -- The interface of a section with one packet.
  abbrev pub interface_body : Interface → Packet → List ℕ
  interface_body i p =
      let resolution : ℕ = elim p.timestamp [ none ↦ i.resolution | some t ↦ t.resolution ] in
      let offset : ℕ = elim p.timestamp [ none ↦ i.offset_seconds | some t ↦ t.offset_seconds ] in
      option
        (option
          (option (le_bytes 2 i.link_type ++ le_bytes 2 0 ++ word (length p.bytes)) 2
            (utf8 (take 128 (select (λ c. not (is_control c)) i.name))))
          9 (resolution ∷ []))
        14 (le_bytes 8 offset)
      ++ word 0

  abbrev pub packet_body : Packet → List ℕ
  packet_body p = elim p.timestamp [
    | none ↦ block 3 (pad (word p.original_len ++ p.bytes))
    | some t ↦ block 6 (
        pad (
          word 0
          ++ word (t.ticks / 2 ^ 32)
          ++ word t.ticks
          ++ word (length p.bytes)
          ++ word p.original_len
          ++ p.bytes))
  ]

  abbrev pub is_timed : Packet → Bool
  is_timed p = elim p.timestamp [ none ↦ false | some t ↦ true ]

  -- One packet of a PCAPNG file, in a section of its own.
  unfoldable pub ng_packet : List Interface → Packet → Read (List ℕ)
  ng_packet interfaces p = elim (get_elem? interfaces p.interface) [
    | none ↦ panicked
    | some i ↦
        if is_timed p || not (is_empty p.bytes) || p.original_len == 0
        then got (block 0x0a0d0d0a section_body ++ block 1 (interface_body i p) ++ packet_body p)
        else failed (text "PCAPNG não representa amostra vazia de pacote sem horário.")
  ]

  -- `encode`
  unfoldable pub encode : Selection → Format → Read (List ℕ)
  encode s Format.pcap = encode_pcap s
  encode s Format.pcap_ng = each_packet (ng_packet s.interfaces) s.packets
