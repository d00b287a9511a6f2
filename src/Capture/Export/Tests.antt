-- ===== src/Capture/Export/Tests.antt =====
-- Tests of crates/netlane-capture/src/export.rs: a selection of two packets, in either format.
use netlane.Prelude.{
  ℕ, List, [], ◌∷◌, map, length, none, some, Text, text, str_eq, ok, ◌≡◌, refl, arith,
}
use netlane.Prelude.Sorting.{insert_by, sort_by}
use netlane.Capture.Types.{Format, Interface, Packet, CaptureFile}
use netlane.Capture.Reader.Input.{
  Read, failed, panicked, got, ◌>>=◌, ◌>>◌, lift, ask, unwrap, context, number, fill, next_at, next,
  bytes,
}
use netlane.Capture.Reader.Retain.{Library, pass_on, retain}
use netlane.Capture.Reader.Options.{options, describe}
use netlane.Capture.Reader.Blocks.{
  section_header, interface_block, packet_block, dispatch, order_of, read_block, ng_loop, read_ng,
}
use netlane.Capture.Reader.{read_format, read_capture, read_with}
use netlane.Capture.Reader.Files.{read}
use netlane.Capture.Export.{
  Selection, choose, choose_all, new, pcap_packet, each_packet, encode_pcap, ng_packet, encode,
}
use netlane.Capture.Export.RoundTrip.{sample, exported}
use netlane.Capture.Export.Whole.{IsSelection, encode-read}
use netlane.Capture.Export.Selected.{new-IsSelection}

abbrev copies : Library
copies = record { lossy = λ bytes. bytes; sha256 = λ bytes. bytes }

abbrev ascii : Text → List ℕ
ascii t = t

abbrev ethernet : Interface
ethernet = record {
  section = 0;
  section_id = 0;
  link_type = 1;
  snaplen = 0;
  name = text "eth0";
  resolution = 6;
  offset_seconds = 0;
}

abbrev packet : ℕ → ℕ → List ℕ → Packet
packet n ticks content = record {
  number = n;
  file_offset = 0;
  interface = 0;
  timestamp = some (record { ticks = ticks; resolution = 6; offset_seconds = 0 });
  original_len = 60;
  captured_len = length content;
  bytes = content;
}

abbrev two : List Packet
two = packet 1 1500000 (7 ∷ 8 ∷ 9 ∷ []) ∷ packet 2 2500001 (5 ∷ []) ∷ []

abbrev selection : Selection
selection = record {
  source_sha256 = [];
  source_packets = 2;
  interfaces = ethernet ∷ [];
  packets = two;
}

selection-IsSelection : IsSelection selection
selection-IsSelection = record {
  true_lengths = ((omega arith, omega arith), ((omega arith, omega arith), tt));
  short = omega arith;
  few = omega arith;
  links = (omega arith, tt);
}

abbrev outcome : Read (List ℕ) → List ℕ
outcome (failed m) = []
outcome panicked = []
outcome (got out) = out

abbrev file : List ℕ
file =
    0x4d ∷ 0x3c ∷ 0xb2 ∷ 0xa1 ∷ 2 ∷ 0 ∷ 4 ∷ 0 ∷ 0 ∷ 0 ∷ 0 ∷ 0 ∷ 0 ∷ 0 ∷ 0 ∷ 0 ∷ 3 ∷ 0 ∷ 0 ∷ 0 ∷ 1
    ∷ 0 ∷ 0 ∷ 0 ∷ 1 ∷ 0 ∷ 0 ∷ 0 ∷ 0 ∷ 101 ∷ 205 ∷ 29 ∷ 3 ∷ 0 ∷ 0 ∷ 0 ∷ 60 ∷ 0 ∷ 0 ∷ 0 ∷ 7 ∷ 8 ∷ 9
    ∷ 2 ∷ 0 ∷ 0 ∷ 0 ∷ 232 ∷ 104 ∷ 205 ∷ 29 ∷ 1 ∷ 0 ∷ 0 ∷ 0 ∷ 60 ∷ 0 ∷ 0 ∷ 0 ∷ 5 ∷ []

file_written : encode ascii selection Format.pcap ≡ got file
unfolding encode encode_pcap each_packet pcap_packet
file_written = refl

encode-read_example :
    (c : CaptureFile) × (read copies file none ≡ got c) × (map sample c.packets ≡ map exported two)
encode-read_example = encode-read copies ascii selection file selection-IsSelection file_written

-- The packets of a capture that is read: bytes, original lengths and whether they are there.
abbrev contents : Read CaptureFile → List (List ℕ)
contents (failed m) = []
contents panicked = []
contents (got c) = map (λ p. p.bytes) c.packets

ng_test :
    contents (read copies (outcome (encode ascii selection Format.pcap_ng)) none)
    ≡ map (λ p. p.bytes) two
unfolding encode each_packet ng_packet read read_with read_capture read_format read_ng ng_loop
    read_block order_of dispatch packet_block interface_block section_header options describe next
    next_at bytes fill number context unwrap ask lift ◌>>◌ ◌>>=◌ retain pass_on str_eq text
ng_test = refl

abbrev hash : Text
hash = text "0123456789ABCDEF0123456789ABCDEF0123456789ABCDEF0123456789ABCDEF"

abbrev source : CaptureFile
source = record {
  format = Format.pcap;
  sha256 = hash;
  file_bytes = 60;
  interfaces = ethernet ∷ [];
  packets = two;
  total_packets = 2;
  omitted_packets = 0;
  truncated_packets = 2;
  auxiliary_blocks = 0;
  retained_bytes = 4;
}

abbrev chosen : Selection
chosen = record {
  source_sha256 = hash;
  source_packets = 2;
  interfaces = ethernet ∷ [];
  packets = two;
}

two_selected : new source (1 ∷ 0 ∷ []) ≡ ok chosen
unfolding new choose_all choose sort_by insert_by text
two_selected = refl

new-IsSelection_example : IsSelection chosen
new-IsSelection_example =
    new-IsSelection source (1 ∷ 0 ∷ []) chosen (omega arith, (omega arith, tt)) (omega arith, tt)
      two_selected
