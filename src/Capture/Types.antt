-- ===== src/Capture/Types.antt =====
-- crates/netlane-capture/src/lib.rs: the data of a capture. An `i64` is its bit pattern.
use netlane.Prelude.{
  ℕ, ◌+◌, ◌-◌, ◌*◌, ◌/◌, ◌%◌, ◌^◌, List, Option, none, some, Text, ltb, leb, if◌then◌else◌, Bool,
  not, ◌==◌,
}

abbrev pub max_file_bytes : ℕ
max_file_bytes = 134217728

abbrev pub max_packet_bytes : ℕ
max_packet_bytes = 1048576

abbrev pub max_block_bytes : ℕ
max_block_bytes = 4194304

abbrev pub max_retained_bytes : ℕ
max_retained_bytes = 33554432

abbrev pub max_packets : ℕ
max_packets = 50000

abbrev pub max_interfaces : ℕ
max_interfaces = 1024

-- `enum Format`
pub data Format : Type 0 where
  pcap pcap_ng : Format

-- `struct Interface`
pub record Interface : Type 0 where
  pub section : ℕ
  pub section_id : ℕ
  pub link_type : ℕ
  pub snaplen : ℕ
  pub name : Text
  pub resolution : ℕ
  pub offset_seconds : ℕ

-- `struct Timestamp`
pub record Timestamp : Type 0 where
  pub ticks : ℕ
  pub resolution : ℕ
  pub offset_seconds : ℕ

-- `struct Packet`
pub record Packet : Type 0 where
  pub number : ℕ
  pub file_offset : ℕ
  pub interface : ℕ
  pub timestamp : Option Timestamp
  pub original_len : ℕ
  pub captured_len : ℕ
  pub bytes : List ℕ

-- `struct CaptureFile`
pub record CaptureFile : Type 0 where
  pub format : Format
  pub sha256 : Text
  pub file_bytes : ℕ
  pub interfaces : List Interface
  pub packets : List Packet
  pub total_packets : ℕ
  pub omitted_packets : ℕ
  pub truncated_packets : ℕ
  pub auxiliary_blocks : ℕ
  pub retained_bytes : ℕ

-- `CaptureFile::limited`
abbrev pub limited : CaptureFile → Bool
limited c = not (c.omitted_packets == 0)

-- The denominator of `unix_nanos`, if a `u128` holds it.
abbrev pub denominator : ℕ → Option ℕ
denominator resolution =
    if resolution / 128 % 2 == 0
    then (if leb (resolution % 128) 38 then some (10 ^ (resolution % 128)) else none)
    else some (2 ^ (resolution % 128))

abbrev pub nanos : Timestamp → ℕ
nanos t = elim (denominator t.resolution) [ none ↦ 0 | some d ↦ t.ticks * 1000000000 / d ]

-- `Timestamp::unix_nanos`, as the difference of two numbers.
abbrev pub unix_nanos : Timestamp → ℕ × ℕ
unix_nanos t =
    if ltb t.offset_seconds (2 ^ 63)
    then (t.offset_seconds * 1000000000 + nanos t, 0)
    else (nanos t, (2 ^ 64 - t.offset_seconds) * 1000000000)
