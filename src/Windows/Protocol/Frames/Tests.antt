-- ===== src/Windows/Protocol/Frames/Tests.antt =====
-- Witnesses for the frames of crates/netlane-windows/src/protocol.rs.
use netlane.Prelude.{
  ℕ, ◌<◌, ◌==◌, if◌then◌else◌, List, [], ◌∷◌, ◌++◌, map, length, Text, text, ◌≡◌, refl, arith,
  Result, ok, err,
}
use netlane.Windows.Protocol.{Message}
use netlane.Windows.Protocol.Frames.{Wire, IsWire, cut, encode, send, inbox, received, send_all}
use netlane.Windows.Protocol.Frames.RoundTrip.{inbox-ends, received-send}

-- A wire for pings and stops: one byte each.
abbrev print : Message (Unit {0}) → Result (List ℕ)
print Message.ping = ok (1 ∷ [])
print Message.stop = ok (2 ∷ [])
print _ = err (text "unsupported")

abbrev parse : List ℕ → Result (Message (Unit {0}))
parse (b ∷ []) =
    if b == 1 then ok Message.ping else if b == 2 then ok Message.stop else err (text "unknown")
parse _ = err (text "unknown")

abbrev small : Wire (Unit {0})
small = record { to_vec = print; from_slice = parse; eof = text "early eof" }

parse-print : (m : Message (Unit {0})) (b : List ℕ) → print m ≡ ok b → parse b ≡ ok m
parse-print Message.ping b h = let e : 1 ∷ [] ≡ b = cc in rw (← e) refl
parse-print Message.stop b h = let e : 2 ∷ [] ≡ b = cc in rw (← e) refl
parse-print _ b h = cc

print-not_empty : (m : Message (Unit {0})) (b : List ℕ) → print m ≡ ok b → 0 < length b
print-not_empty Message.ping b h = let e : 1 ∷ [] ≡ b = cc in rw (← e) (omega arith)
print-not_empty Message.stop b h = let e : 2 ∷ [] ≡ b = cc in rw (← e) (omega arith)
print-not_empty _ b h = cc

small-IsWire : IsWire small
small-IsWire = record { reads_back = parse-print; not_empty = print-not_empty }

-- Two messages whole, then the first four bytes of the frame of a third.
received-send_example :
    received small
      (send small Message.ping
        (cut 4 (text "timeout"))
        (1 ∷ 0 ∷ 0 ∷ 0 ∷ 1 ∷ 1 ∷ 0 ∷ 0 ∷ 0 ∷ 2 ∷ [])).1
    ≡ map ok (Message.ping ∷ Message.stop ∷ []) ++ err small.eof ∷ []
unfolding send_all send encode
received-send_example =
    received-send small small-IsWire (Message.ping ∷ Message.stop ∷ [])
      (1 ∷ 0 ∷ 0 ∷ 0 ∷ 1 ∷ 1 ∷ 0 ∷ 0 ∷ 0 ∷ 2 ∷ []) Message.ping (1 ∷ 0 ∷ 0 ∷ 0 ∷ 1 ∷ []) 4
      (text "timeout") refl refl (omega arith)

inbox-ends_example :
    (ms : List (Message (Unit {0}))) × (e : Text) × (inbox small 7 (1 ∷ 0 ∷ 0 ∷ 0 ∷ 1 ∷ [])
      ≡ map ok ms ++ err e ∷ [])
inbox-ends_example = inbox-ends small 7 (1 ∷ 0 ∷ 0 ∷ 0 ∷ 1 ∷ []) (omega arith)
