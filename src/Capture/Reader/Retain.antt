-- ===== src/Capture/Reader/Retain.antt =====
-- crates/netlane-capture/src/reader.rs: `retain`, and what the reader uses of other code.
use netlane.Prelude.{
  ℕ, ◌+◌, ◌%◌, ◌^◌, Bool, not, ◌||◌, List, [], ◌∷◌, ◌++◌, length, get_elem?, Option, none, some,
  Text, text, ltb, leb, ◌==◌, if◌then◌else◌, Result, ok, err,
}
use netlane.Capture.Types.{
  Interface, Timestamp, Packet, CaptureFile, max_packets, max_retained_bytes,
}
use netlane.Capture.Reader.Input.{Limits, failed, got, M, ◌>>=◌, ◌>>◌, pure, ask, unwrap}

-- `String::from_utf8_lossy` and `Sha256`.
pub record Library : Type 0 where
  pub lossy : List ℕ → Text
  pub sha256 : List ℕ → Text

-- `PacketSink::packet`
abbrev pub Sink : Type 0 → Type 0
Sink S = Packet → Interface → S → Result S

-- The end of `retain`.
abbrev pub keep : Bool → Packet → CaptureFile → CaptureFile
keep allowed p c =
    if not allowed
      || not (c.omitted_packets == 0)
      || leb max_packets (length c.packets)
      || ltb max_retained_bytes (c.retained_bytes + length p.bytes)
    then record c { omitted_packets = c.omitted_packets + 1 }
    else record c {
      retained_bytes = c.retained_bytes + length p.bytes;
      packets = c.packets ++ p ∷ [];
    }

-- A packet in the totals.
abbrev pub counted : ℕ → ℕ → CaptureFile → CaptureFile
counted size original c = record c {
  total_packets = c.total_packets + 1;
  truncated_packets = c.truncated_packets + (if ltb size original then 1 else 0);
}

module _ {S : Type 0} (sink : Option (Sink S)) (limits : Limits) where
  abbrev pub change_capture : (CaptureFile → CaptureFile) → M S (Unit {0})
  change_capture f r = got (tt, record r { capture = f r.capture })

  abbrev pub get_capture : M S CaptureFile
  get_capture r = got (r.capture, r)

  abbrev pub sink_packet : Sink S → Packet → Interface → M S (Unit {0})
  sink_packet s p i r = elim (s p i r.sunk) [
    | err m ↦ failed m
    | ok sunk ↦ got (tt, record r { sunk = sunk })
  ]

  -- `if let Some(sink) = …`
  unfoldable pub pass_on : Option (Sink S) → Packet → M S (Unit {0})
  pass_on none p = pure tt
  pass_on (some s) p =
      get_capture >>= λ c. unwrap (get_elem? c.interfaces p.interface) >>= sink_packet s p

  -- `retain`
  unfoldable pub retain : ℕ → ℕ → Option Timestamp → ℕ → List ℕ → M S (Unit {0})
  retain interface offset timestamp original content = do
    before ← get_capture
    ask (leb (before.total_packets + 1) limits.records)
        (text "O arquivo excede o limite de registros de pacote.")
    change_capture (counted (length content) original)
    let packet : Packet = record {
      number = before.total_packets + 1;
      file_offset = offset;
      interface = interface;
      timestamp = timestamp;
      original_len = original;
      captured_len = length content % 2 ^ 32;
      bytes = content;
    }
    pass_on sink packet
    change_capture (keep limits.retain packet)
