-- ===== src/Capture/Reader.antt =====
-- crates/netlane-capture/src/reader.rs: `retain`, the classic format and `read_with`. The hash of a file
-- and the text of bytes in UTF-8 are parameters, and so is what receives the packets.
pub mod Input
pub mod Retain
pub mod Options
pub mod Blocks
pub mod Safe
pub mod Kept
pub mod Files
mod Tests
use netlane.Prelude.{
  ℕ, zero, suc, ◌+◌, ◌-◌, ◌*◌, ◌/◌, ◌%◌, ◌^◌, min, Bool, true, false, not, ◌&&◌, ◌||◌, List, [],
  ◌∷◌, ◌++◌, length, get_elem?, take, drop, Option, none, some, Text, text, ltb, leb, ◌==◌, str_eq,
  if◌then◌else◌,
}
use netlane.Capture.Types.{
  Format, Interface, Timestamp, Packet, CaptureFile, max_packets, max_retained_bytes,
  max_packet_bytes,
}
use netlane.Capture.Reader.Input.{
  Limits, Reading, Read, M, ◌>>=◌, ◌>>◌, pure, ask, unwrap, context, number, exact, next, bytes,
  failed, panicked, got,
}
use netlane.Capture.Reader.Retain.{Library, Sink, retain}
use netlane.Capture.Reader.Blocks.{read_ng, shb}

-- The match on the magic number: the byte order and the digits of a fraction.
abbrev pub pcap_format : List ℕ → Option (Bool × ℕ)
pcap_format magic =
    if str_eq magic (0xd4 ∷ 0xc3 ∷ 0xb2 ∷ 0xa1 ∷ [])
    then some (true, 6)
    else if str_eq magic (0xa1 ∷ 0xb2 ∷ 0xc3 ∷ 0xd4 ∷ [])
    then some (false, 6)
    else if str_eq magic (0x4d ∷ 0x3c ∷ 0xb2 ∷ 0xa1 ∷ [])
    then some (true, 9)
    else if str_eq magic (0xa1 ∷ 0xb2 ∷ 0x3c ∷ 0x4d ∷ [])
    then some (false, 9)
    else none

-- `link & 0x0bff0000 == 0`
abbrev pub no_reserved_bits : ℕ → Bool
no_reserved_bits link = link / 65536 % 1024 == 0 && link / 134217728 % 2 == 0

abbrev pub pcap_interface : ℕ → ℕ → ℕ → Interface
pcap_interface link snaplen resolution = record {
  section = 0;
  section_id = 0;
  link_type = link % 65536;
  snaplen = snaplen;
  name = text "Interface do arquivo";
  resolution = resolution;
  offset_seconds = 0;
}

abbrev pub units : ℕ → ℕ
units resolution = if resolution == 6 then 1000000 else 1000000000

module _ {S : Type 0} (sink : Option (Sink S)) (limits : Limits) where
  abbrev pub push_interface : Interface → M S (Unit {0})
  push_interface i r =
      got (
        tt,
        record r { capture = record r.capture { interfaces = r.capture.interfaces ++ i ∷ [] } },
      )

  -- The part of `read_pcap` before its loop: the snaplen.
  unfoldable pub pcap_header : Bool → ℕ → M S ℕ
  pcap_header little resolution = do
    header ← exact limits 20
    major ← unwrap (number little 2 header 0)
    minor ← unwrap (number little 2 header 2)
    ask (major == 2 && minor == 4) (text "Versão PCAP não suportada (esperado 2.4).")
    snaplen ← unwrap (number little 4 header 12)
    link ← unwrap (number little 4 header 16)
    ask (ltb 0 snaplen) (text "Snaplen PCAP inválido.")
    ask (no_reserved_bits link) (text "Bits reservados no tipo de enlace PCAP.")
    push_interface (pcap_interface link snaplen resolution)
    pure snaplen

  -- One record, behind its header.
  unfoldable pub pcap_record : Bool → ℕ → ℕ → ℕ → List ℕ → M S (Unit {0})
  pcap_record little resolution snaplen offset header = do
    seconds ← unwrap (number little 4 header 0)
    fraction ← unwrap (number little 4 header 4)
    captured ← unwrap (number little 4 header 8)
    original ← unwrap (number little 4 header 12)
    ask (ltb fraction (units resolution) && leb captured original && leb captured snaplen)
        (text "Registro PCAP com horário/comprimento inválido.")
    content ← bytes limits captured max_packet_bytes
    retain sink limits 0 offset
        (some (record {
          ticks = seconds * units resolution + fraction;
          resolution = resolution;
          offset_seconds = 0;
        }))
        original content

  -- The loop of `read_pcap`.
  unfoldable pub pcap_loop : ℕ → Bool → ℕ → ℕ → M S (Unit {0})
  pcap_loop zero little resolution snaplen r = panicked
  pcap_loop (suc fuel) little resolution snaplen r =
      (next limits 16 >>= λ header. elim header [
        | none ↦ pure tt
        | some h ↦
            pcap_record little resolution snaplen r.count h
            >> pcap_loop fuel little resolution snaplen
      ])
        r

  -- `read_pcap`, on fuel above the bytes that are left.
  unfoldable pub read_pcap : List ℕ → M S (Unit {0})
  read_pcap magic = do
    format ←
        context (pcap_format magic) (text "O arquivo não é PCAP clássico nem PCAPNG suportado.")
    snaplen ← pcap_header format.0 format.1
    λ r. pcap_loop (suc (length r.rest)) format.0 format.1 snaplen r

abbrev pub empty_capture : Format → CaptureFile
empty_capture format = record {
  format = format;
  sha256 = [];
  file_bytes = 0;
  interfaces = [];
  packets = [];
  total_packets = 0;
  omitted_packets = 0;
  truncated_packets = 0;
  auxiliary_blocks = 0;
  retained_bytes = 0;
}

abbrev pub begin_capture : {S : Type 0} → Format → M S (Unit {0})
begin_capture format r = got (tt, record r { capture = empty_capture format })

-- The end of `read_with`, over the bytes of the whole file.
abbrev pub finish : {S : Type 0} → (List ℕ → Text) → List ℕ → Reading S → CaptureFile × S
finish sha256 file r =
    (record r.capture { file_bytes = r.count; sha256 = sha256 (take r.count file) }, r.sunk)

module _ {S : Type 0} (lib : Library) (sink : Option (Sink S)) (limits : Limits) where
  -- The match on the format.
  unfoldable pub read_format : List ℕ → M S (Unit {0})
  read_format magic =
      if str_eq magic shb
      then (begin_capture Format.pcap_ng >> read_ng lib sink limits magic)
      else (begin_capture Format.pcap >> read_pcap sink limits magic)

  -- `read_with` up to the hash.
  unfoldable pub read_capture : M S (Unit {0})
  read_capture = exact limits 4 >>= read_format

  -- `read_with`: the capture and the sink that a file leaves.
  unfoldable pub read_with : List ℕ → Option Text → S → Read (CaptureFile × S)
  read_with file ending sunk =
      elim (read_capture (record {
        rest = file;
        ending = ending;
        count = 0;
        capture = empty_capture Format.pcap;
        sunk = sunk;
      })) [ failed e ↦ failed e | panicked ↦ panicked | got p ↦ got (finish lib.sha256 file p.1) ]
