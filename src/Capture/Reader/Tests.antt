-- ===== src/Capture/Reader/Tests.antt =====
-- Tests of crates/netlane-capture/src/reader.rs: a file of each format, one cut off and one cancelled.
use netlane.Prelude.{
  ℕ, suc, true, List, [], ◌∷◌, ◌++◌, take, Option, none, some, text, arith, str_eq, ◌≡◌, refl, ok,
}
use netlane.Capture.Types.{CaptureFile, Packet}
use netlane.Capture.Reader.Input.{
  Limits, Read, failed, panicked, got, ◌>>=◌, ◌>>◌, lift, ask, unwrap, context, number, fill,
  next_at, next, bytes,
}
use netlane.Capture.Reader.Retain.{Library, Sink, pass_on, retain}
use netlane.Capture.Reader.Options.{options}
use netlane.Capture.Reader.Blocks.{
  section_header, interface_block, simple_block, dispatch, order_of, read_block, ng_loop, read_ng,
}
use netlane.Capture.Reader.{
  pcap_header, pcap_record, pcap_loop, read_pcap, read_format, read_capture, read_with,
}
use netlane.Capture.Reader.Safe.{Ends}
use netlane.Capture.Reader.Files.{Metadata, IsLoaded, read, load, load-IsLoaded, load-read}
use netlane.Capture.Reader.Kept.Whole.{IsRead, read_with-IsRead}

abbrev copies : Library
copies = record { lossy = λ bytes. bytes; sha256 = λ bytes. bytes }

abbrev counting : Sink ℕ
counting packet interface n = ok (suc n)

abbrev limits : Limits
limits = record { bytes = 1000; records = 10; retain = true }

-- A classic file with one packet of four bytes, which had six.
abbrev pcap_file : List ℕ
pcap_file =
    0xd4 ∷ 0xc3 ∷ 0xb2 ∷ 0xa1 ∷ 2 ∷ 0 ∷ 4 ∷ 0 ∷ 0 ∷ 0 ∷ 0 ∷ 0 ∷ 0 ∷ 0 ∷ 0 ∷ 0 ∷ 0 ∷ 0 ∷ 1 ∷ 0 ∷ 1
    ∷ 0 ∷ 0 ∷ 0 ∷ 1 ∷ 0 ∷ 0 ∷ 0 ∷ 5 ∷ 0 ∷ 0 ∷ 0 ∷ 4 ∷ 0 ∷ 0 ∷ 0 ∷ 6 ∷ 0 ∷ 0 ∷ 0 ∷ 10 ∷ 11 ∷ 12 ∷ 13
    ∷ []

-- A section, an interface and a simple packet of two bytes.
abbrev ng_file : List ℕ
ng_file =
    0x0a ∷ 0x0d ∷ 0x0d ∷ 0x0a ∷ 28 ∷ 0 ∷ 0 ∷ 0 ∷ 0x4d ∷ 0x3c ∷ 0x2b ∷ 0x1a ∷ 1 ∷ 0 ∷ 0 ∷ 0 ∷ 255
    ∷ 255 ∷ 255 ∷ 255 ∷ 255 ∷ 255 ∷ 255 ∷ 255 ∷ 28 ∷ 0 ∷ 0 ∷ 0 ∷ 1 ∷ 0 ∷ 0 ∷ 0 ∷ 20 ∷ 0 ∷ 0 ∷ 0 ∷ 1
    ∷ 0 ∷ 0 ∷ 0 ∷ 0 ∷ 0 ∷ 0 ∷ 0 ∷ 20 ∷ 0 ∷ 0 ∷ 0 ∷ 3 ∷ 0 ∷ 0 ∷ 0 ∷ 20 ∷ 0 ∷ 0 ∷ 0 ∷ 2 ∷ 0 ∷ 0 ∷ 0
    ∷ 8 ∷ 9 ∷ 0 ∷ 0 ∷ 20 ∷ 0 ∷ 0 ∷ 0 ∷ []

-- The packets of a capture: number, offset and bytes; and what the sink counted.
abbrev seen : Read (CaptureFile × ℕ) → Option (List (ℕ × ℕ × List ℕ) × ℕ)
seen (failed m) = none
seen panicked = none
seen (got p) = some (numbers p.0.packets, p.1)
  where
    numbers : List Packet → List (ℕ × ℕ × List ℕ)
    numbers [] = []
    numbers (p ∷ ps) = (p.number, p.file_offset, p.bytes) ∷ numbers ps

pcap_test :
    seen (read_with copies (some counting) limits pcap_file none 0)
    ≡ some ((1, 24, 10 ∷ 11 ∷ 12 ∷ 13 ∷ []) ∷ [], 1)
unfolding read_with read_capture read_format read_pcap pcap_loop pcap_record pcap_header next
    next_at bytes fill number context unwrap ask lift ◌>>◌ ◌>>=◌ retain pass_on str_eq
pcap_test = refl

ng_test :
    seen (read_with copies (some counting) limits ng_file none 0)
    ≡ some ((1, 48, 8 ∷ 9 ∷ []) ∷ [], 1)
unfolding read_with read_capture read_format read_ng ng_loop read_block order_of dispatch
    simple_block interface_block section_header options next next_at bytes fill number context
    unwrap ask lift ◌>>◌ ◌>>=◌ retain pass_on str_eq
ng_test = refl

cut_test :
    read_with {S = Unit {0}} copies none limits (take 43 pcap_file) none tt
    ≡ failed (text "Dados de captura truncados" ++ text ": " ++ text "failed to fill whole buffer")
unfolding read_with read_capture read_format read_pcap pcap_loop pcap_record pcap_header next
    next_at bytes fill number context unwrap ask lift ◌>>◌ ◌>>=◌ retain pass_on str_eq
cut_test = refl

cancelled_test :
    read_with {S = Unit {0}} copies none limits pcap_file (some (text "cancelada")) tt
    ≡ failed (text "cancelada")
unfolding read_with read_capture read_format read_pcap pcap_loop pcap_record pcap_header next
    next_at bytes fill number context unwrap ask lift ◌>>◌ ◌>>=◌ retain pass_on str_eq
cancelled_test = refl

read_with-IsRead_example :
    Ends (IsRead copies limits pcap_file) (read_with copies (some counting) limits pcap_file none 0)
read_with-IsRead_example = read_with-IsRead copies (some counting) limits pcap_file none 0

abbrev pcap_metadata : Metadata
pcap_metadata = record { is_file = true; size = 44; modified = some 7 }

load-IsLoaded_example : Ends (IsLoaded copies (some pcap_metadata) (some pcap_metadata) pcap_file) (
    load copies
      (some pcap_metadata)
      (text "open")
      pcap_file
      none
      (some pcap_metadata)
      (text "close"))
load-IsLoaded_example =
    load-IsLoaded copies (text "open") pcap_file none (text "close") (some pcap_metadata)
      (some pcap_metadata)

load-read_example :
    load copies
      (some pcap_metadata)
      (text "open")
      pcap_file
      none
      (some pcap_metadata)
      (text "close")
    ≡ read copies pcap_file none
load-read_example =
    load-read copies (text "open") pcap_file none (text "close") pcap_metadata refl refl
      (omega arith)
