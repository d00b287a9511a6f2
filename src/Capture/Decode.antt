-- ===== src/Capture/Decode.antt =====
-- crates/netlane-capture/src/decode.rs: the summary of one captured frame. An early `return` and a
-- panic are outcomes of their own. The print of an IPv6 address is a parameter.
pub mod Outcomes
pub mod Payload
pub mod Safe
mod Tests
use netlane.Prelude.{
  ℕ, zero, suc, ◌+◌, ◌-◌, ◌*◌, ◌/◌, ◌%◌, min, Bool, true, false, not, ◌&&◌, ◌||◌, List, [], ◌∷◌,
  ◌++◌, length, take, drop, get_elem?, map, Option, none, some, Text, text, leb, ltb, ◌==◌, str_eq,
  contains, if◌then◌else◌,
}
use netlane.Capture.Bytes.{word, show, join, get_range?}
use netlane.Capture.Decode.Outcomes.{
  Flow, panic, done, next, ◌>>=◌, ◌>>◌, unwrap, at, slice, return_if, Summary,
}

-- `service`
abbrev pub service : ℕ → Text
service port =
    if port == 22
    then text "ssh"
    else if port == 25
    then text "smtp"
    else if port == 53
    then text "dns"
    else if port == 67 || port == 68
    then text "dhcp"
    else if port == 80
    then text "http"
    else if port == 123
    then text "ntp"
    else if port == 443
    then text "https"
    else if port == 445
    then text "smb"
    else if port == 3389
    then text "rdp"
    else text "—"

-- The loop over VLAN tags.
pub vlan : ℕ → List ℕ → Summary → ℕ → ℕ → Flow (ℕ × ℕ)
vlan zero bytes s offset kind = next (offset, kind)
vlan (suc rounds) bytes s offset kind =
    if not (contains (0x8100 ∷ 0x88a8 ∷ 0x9100 ∷ []) kind)
    then next (offset, kind)
    else elim (word bytes (offset + 2)) [
      | none ↦ done (record s { info = text "VLAN truncada" })
      | some k ↦ vlan rounds bytes s (offset + 4) k
    ]

-- The first four bytes as numbers, little and big end first.
abbrev pub little : List ℕ → Option ℕ
little (a ∷ b ∷ c ∷ d ∷ r) = some (a + 256 * b + 65536 * c + 16777216 * d)
little _ = none

abbrev pub big : List ℕ → Option ℕ
big (a ∷ b ∷ c ∷ d ∷ r) = some (16777216 * a + 65536 * b + 256 * c + d)
big _ = none

abbrev pub family : ℕ → ℕ → ℕ
family le be =
    if le == 2 || be == 2
    then 0x0800
    else if contains (23 ∷ 24 ∷ 28 ∷ 30 ∷ []) le || contains (23 ∷ 24 ∷ 28 ∷ 30 ∷ []) be
    then 0x86dd
    else 0

abbrev pub version : ℕ → ℕ
version b = if b / 16 == 4 then 0x0800 else if b / 16 == 6 then 0x86dd else 0

-- The match on the link type: where the packet starts, and what it is.
pub link_layer : List ℕ → ℕ → Summary → Flow (ℕ × ℕ)
unfolding vlan
link_layer bytes link s =
    if link == 1 && leb 14 (length bytes)
    then (unwrap (word bytes 12) >>= λ kind. vlan 4 bytes s 14 kind)
    else if link == 113 && leb 16 (length bytes)
    then (unwrap (word bytes 14) >>= λ kind. next (16, kind))
    else if link == 276 && leb 20 (length bytes)
    then (unwrap (word bytes 0) >>= λ kind. next (20, kind))
    else if (link == 0 || link == 108) && leb 4 (length bytes)
    then (unwrap (little bytes) >>= λ le. unwrap (big bytes) >>= λ be. next (4, family le be))
    else if contains (12 ∷ 101 ∷ 228 ∷ 229 ∷ []) link && leb 1 (length bytes)
    then (at bytes 0 >>= λ b. next (0, version b))
    else done s

-- What the network layer hands to the transport layer.
pub record Segment : Type 0 where
  pub protocol : ℕ
  pub transport : List ℕ
  pub ipv6 : Bool
  pub truncated : Bool
  pub transport_offset : ℕ
  pub offloaded : Bool
  pub summary : Summary

abbrev pub ipv4_text : ℕ → ℕ → ℕ → ℕ → Text
ipv4_text a b c d = join (text ".") (show a ∷ show b ∷ show c ∷ show d ∷ [])

-- The arm of IPv4, once its first byte is known.
pub ipv4_segment : List ℕ → ℕ → ℕ → Summary → Flow Segment
ipv4_segment ip offset first s = do
  a ← at ip 12
  b ← at ip 13
  c ← at ip 14
  d ← at ip 15
  e ← at ip 16
  f ← at ip 17
  g ← at ip 18
  h ← at ip 19
  let t = record s {
    protocol = text "IPv4";
    source = ipv4_text a b c d;
    destination = ipv4_text e f g h;
  }
  declared ← unwrap (word ip 2)
  let header = first % 16 * 4
  let total = if declared == 0 then length ip else declared
  return_if (ltb header 20 || ltb total header || ltb (length ip) header)
      (record t { info = text "Cabeçalho IPv4 inválido/truncado" })
  fragment ← unwrap (word ip 6)
  return_if (not (fragment % 0x4000 == 0))
      (record t { info = text "Fragmento IPv4 · sem remontagem" })
  protocol ← at ip 9
  transport ← slice ip header (min total (length ip))
  next (record {
    protocol = protocol;
    transport = transport;
    ipv6 = false;
    truncated = ltb (length ip) total;
    transport_offset = offset + header;
    offloaded = declared == 0;
    summary = t;
  })

-- The length of an extension header, by its own length field.
abbrev pub extension_len : ℕ → ℕ → ℕ
extension_len header units = if header == 51 then (units + 2) * 4 else (units + 1) * 8

-- A round of the loop over extension headers that goes on.
abbrev pub extension : List ℕ → ℕ → Summary → ℕ → ℕ → Flow (ℕ × ℕ)
extension ip end s header offset = do
  return_if (ltb end (offset + 2)) (record s { info = text "Extensão IPv6 truncada" })
  units ← at ip (offset + 1)
  following ← at ip offset
  return_if (ltb end (offset + extension_len header units))
      (record s { info = text "Extensão IPv6 truncada" })
  next (following, offset + extension_len header units)

-- The loop over extension headers: the next header and where it stands.
pub extensions : ℕ → List ℕ → ℕ → Summary → ℕ → ℕ → Flow (ℕ × ℕ)
extensions zero ip end s header offset = next (header, offset)
extensions (suc rounds) ip end s header offset =
    return_if (header == 44) (record s { info = text "Fragmento IPv6 · sem remontagem" })
    >> (if not (contains (0 ∷ 43 ∷ 60 ∷ 51 ∷ []) header)
        then next (header, offset)
        else extension ip end s header offset >>= λ r. extensions rounds ip end s r.0 r.1)

-- The arm of IPv6.
pub ipv6_segment : (List ℕ → Text) → List ℕ → ℕ → Summary → Flow Segment
unfolding extensions
ipv6_segment show_ipv6 ip offset s = do
  source ← slice ip 8 24
  destination ← slice ip 24 40
  let t = record s {
    protocol = text "IPv6";
    source = show_ipv6 source;
    destination = show_ipv6 destination;
  }
  declared ← unwrap (word ip 4)
  let end = min (40 + declared) (length ip)
  first ← at ip 6
  r ← extensions 8 ip end t first 40
  return_if (contains (0 ∷ 43 ∷ 60 ∷ 51 ∷ 44 ∷ []) r.0)
      (record t { info = text "Extensões IPv6 além do limite" })
  transport ← slice ip r.1 end
  next (record {
    protocol = r.0;
    transport = transport;
    ipv6 = true;
    truncated = ltb (length ip) (40 + declared);
    transport_offset = offset + r.1;
    offloaded = false;
    summary = t;
  })

abbrev pub protocol_name : ℕ → Text → Text
protocol_name protocol network =
    if protocol == 6
    then text "TCP"
    else if protocol == 17
    then text "UDP"
    else if protocol == 1
    then text "ICMP"
    else if protocol == 58
    then text "ICMPv6"
    else network

abbrev pub flag : ℕ → ℕ → Text → List Text
flag flags bit name = if flags / bit % 2 == 1 then name ∷ [] else []

-- The names of the bits that are set, in the order of the table.
pub flag_names : ℕ → List Text
flag_names flags =
    flag flags 0x02 (text "SYN")
    ++ (flag flags 0x10 (text "ACK")
        ++ (flag flags 0x01 (text "FIN")
            ++ (flag flags 0x04 (text "RST")
                ++ (flag flags 0x08 (text "PSH")
                    ++ (flag flags 0x20 (text "URG")
                        ++ (flag flags 0x40 (text "ECE") ++ flag flags 0x80 (text "CWR")))))))

abbrev pub with_port : Bool → Text → ℕ → Text
with_port ipv6 address port =
    if ipv6 then text "[" ++ address ++ text "]:" ++ show port else address ++ text ":" ++ show port

abbrev pub tcp_info : Segment → ℕ → ℕ → Text
tcp_info g header flags =
    join (text " ") (flag_names flags)
    ++ text " · "
    ++ show (length g.transport - header)
    ++ text " bytes de dados"
    ++ (if g.truncated then text " · truncado" else [])

-- The arm of TCP.
pub tcp : Segment → Summary → Flow Summary
unfolding flag_names
tcp g s = do
  offset ← at g.transport 12
  return_if (ltb (offset / 16 * 4) 20 || ltb (length g.transport) (offset / 16 * 4))
      (record s { info = text "Cabeçalho TCP inválido/truncado" })
  flags ← at g.transport 13
  next (record s {
    payload = some (g.transport_offset + offset / 16 * 4, g.transport_offset + length g.transport);
    info = tcp_info g (offset / 16 * 4) flags;
  })

abbrev pub udp_info : Segment → ℕ → Text
udp_info g declared =
    if ltb declared 8
    then text "Comprimento UDP inválido"
    else text "UDP · "
      ++ show (declared - 8)
      ++ text " bytes"
      ++ (if ltb (length g.transport) declared || g.truncated then text " · truncado" else [])

-- The arm of UDP.
pub udp : Segment → ℕ → ℕ → Summary → Flow Summary
udp g source destination s = unwrap (word g.transport 4) >>= λ declared. next (record s {
  payload =
      if leb 8 declared
      then some (g.transport_offset + 8, g.transport_offset + min declared (length g.transport))
      else s.payload;
  info =
      udp_info g declared
      ++ (if source == 53 || destination == 53 then text " · porta DNS (estimativa)" else []);
})

abbrev pub service_of : ℕ → ℕ → Text
service_of source destination =
    if str_eq (service destination) (text "—") then service source else service destination

abbrev pub named : Segment → Summary
named g = record g.summary {
  protocol = protocol_name g.protocol g.summary.protocol;
  info = if g.truncated then text "Pacote IP truncado" else text "Protocolo IP " ++ show g.protocol;
}

abbrev pub with_ports : Segment → ℕ → ℕ → Summary → Summary
with_ports g source destination s = record s {
  service = service_of source destination;
  source = with_port g.ipv6 s.source source;
  destination = with_port g.ipv6 s.destination destination;
}

abbrev pub with_offload : Bool → Summary → Summary
with_offload offloaded s =
    if offloaded
    then record s {
      info = s.info ++ text " · comprimento IP 0, provável segmentação na placa (TSO)";
    }
    else s

-- The transport layer, to the end of `summarize`.
pub transport_layer : Segment → Flow Summary
unfolding tcp udp
transport_layer g = do
  return_if (not (g.protocol == 6 || g.protocol == 17)) (named g)
  return_if (ltb (length g.transport) (if g.protocol == 6 then 20 else 8))
      (record (named g) { info = text "Cabeçalho de transporte truncado" })
  source ← unwrap (word g.transport 0)
  destination ← unwrap (word g.transport 2)
  let s = with_ports g source destination (named g)
  t ← (if g.protocol == 6 then tcp g s else udp g source destination s)
  next (with_offload g.offloaded t)

-- The match on the network layer, over the bytes behind the link layer.
pub network_layer : (List ℕ → Text) → List ℕ → ℕ → ℕ → Summary → Flow Segment
unfolding ipv4_segment ipv6_segment
network_layer show_ipv6 ip offset kind s =
    if kind == 0x0806
    then done (record s { protocol = text "ARP"; info = text "ARP" })
    else if kind == 0x0800 && leb 20 (length ip)
    then (at ip 0 >>= λ first. if first / 16 == 4 then ipv4_segment ip offset first s else done s)
    else if kind == 0x86dd && leb 40 (length ip)
    then (at ip 0 >>= λ first.
        if first / 16 == 6 then ipv6_segment show_ipv6 ip offset s else done s)
    else done s

abbrev pub unknown : ℕ → Summary
unknown link = record {
  protocol = text "OUTRO";
  source = text "—";
  destination = text "—";
  info = text "Enlace " ++ show link ++ text " · sem decodificação";
  service = text "—";
  payload = none;
}

-- `summarize`, whose outcome is a summary or a panic.
pub decode : (List ℕ → Text) → List ℕ → ℕ → Flow Summary
unfolding link_layer network_layer transport_layer
decode show_ipv6 bytes link = link_layer bytes link (unknown link) >>= λ r.
    return_if (ltb (length bytes) r.0) (unknown link)
    >> network_layer show_ipv6 (drop r.0 bytes) r.0 r.1 (unknown link)
    >>= transport_layer

-- The summary that an outcome carries.
unfoldable pub finished : Flow Summary → Option Summary
finished panic = none
finished (done s) = some s
finished (next s) = some s

-- `summarize`; a panic is `none`.
pub summarize : (List ℕ → Text) → List ℕ → ℕ → Option Summary
unfolding decode finished
summarize show_ipv6 bytes link = finished (decode show_ipv6 bytes link)

abbrev pub printable : ℕ → ℕ
printable b = if leb 32 b && ltb b 127 then b else b'.'

-- `Summary::raw_preview`
pub raw_preview : Summary → List ℕ → Text
raw_preview s bytes = elim s.payload [
  | none ↦ []
  | some (start, end) ↦ elim (get_range? bytes start (min end (length bytes))) [
    | none ↦ []
    | some range ↦ map printable (take 96 range)
  ]
]
