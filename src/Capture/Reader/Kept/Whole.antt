-- ===== src/Capture/Reader/Kept/Whole.antt =====
-- What `read_with` of crates/netlane-capture/src/reader.rs returns.
use netlane.Prelude.{
  ℕ, zero, suc, ◌∷◌, take, ap, List, [], length, Option, Text, str_eq, str_eq_sound, ◌≤◌, ◌≡◌, refl,
  arith,
}
use netlane.Capture.Types.{Format, CaptureFile}
use netlane.Capture.Reader.Input.{Limits, Reading, Read, failed, panicked, got, exact}
use netlane.Capture.Reader.Retain.{Library, Sink}
use netlane.Capture.Reader.Blocks.{shb}
use netlane.Capture.Reader.{
  empty_capture, begin_capture, finish, read_format, read_capture, read_with,
}
use netlane.Capture.Reader.Safe.{
  Ends, fine, stopped, Ends-bind, Ends-choose, got-then, InBounds, Taken, fill-Ends,
}
use netlane.Capture.Reader.Kept.{IsKept}
use netlane.Capture.Reader.Kept.Pcap.{read_pcap-Ends}
use netlane.Capture.Reader.Kept.Loop.{read_ng-Ends, Left}

empty_capture-IsKept : (limits : Limits) (format : Format) → IsKept limits (empty_capture format)
empty_capture-IsKept limits format = record {
  counts = refl;
  numbered = tt;
  whole = tt;
  few = omega arith;
  sum = refl;
  small = omega arith;
  records = omega arith;
  interfaces = omega arith;
}

-- The capture is kept, and it is of the whole file, which is within the limits.
abbrev pub IsRead : {S : Type 0} → Library → Limits → List ℕ → CaptureFile × S → Type 0
IsRead lib limits file p =
    IsKept limits p.0
    × (p.0.file_bytes ≤ limits.bytes)
    × (p.0.file_bytes ≡ length file)
    × (p.0.sha256 ≡ lib.sha256 file)

take-all : (n : ℕ) (xs : List ℕ) → length xs ≤ n → take n xs ≡ xs
take-all zero [] h = refl
take-all zero (x ∷ xs) h = absurd (omega arith)
take-all (suc n) [] h = refl
take-all (suc n) (x ∷ xs) h = ap (◌∷◌ x) (take-all n xs (omega arith))

module _ {S : Type 0} (lib : Library) (sink : Option (Sink S)) (limits : Limits) where
  read_format-Ends :
      (size : ℕ) (magic : List ℕ) (r : Reading S)
      → InBounds limits size r
      → Ends (Left lib sink limits size) (read_format lib sink limits magic r)
  unfolding read_format
  read_format-Ends size magic r b =
      Ends-choose (str_eq magic shb) _ _ r
        (λ e.
          let s = record r { capture = empty_capture Format.pcap_ng } in
          got-then (begin_capture Format.pcap_ng) _ r tt s refl (
            read_ng-Ends lib sink limits size magic s (str_eq_sound magic shb e)
              (empty_capture-IsKept limits Format.pcap_ng)
              (record { within = b.within; whole = b.whole })))
        (λ _.
          let s = record r { capture = empty_capture Format.pcap } in
          got-then (begin_capture Format.pcap) _ r tt s refl (
            read_pcap-Ends sink limits size magic s (empty_capture-IsKept limits Format.pcap)
              (record { within = b.within; whole = b.whole }) refl))

  finish-IsRead :
      (file : List ℕ) (r : Reading S)
      → IsKept limits r.capture
      → InBounds limits (length file) r
      → length r.rest ≡ 0
      → IsRead lib limits file (finish lib.sha256 file r)
  finish-IsRead file r k b e =
      let all_read : r.count ≡ length file = omega (arith, b.whole, e) in
      (
        record {
          counts = k.counts;
          numbered = k.numbered;
          whole = k.whole;
          few = k.few;
          sum = k.sum;
          small = k.small;
          records = k.records;
          interfaces = k.interfaces;
        },
        b.within,
        all_read,
        ap lib.sha256 (take-all r.count file (omega (arith, all_read))),
      )

  -- A read of any file, whatever comes behind its bytes, ends with an error or with a capture: no index is out of
  -- range, no `unwrap` panics and the fuel of the loops suffices. The capture numbers its packets from 1 on; each
  -- names an interface of the capture and has as many bytes as it says, and at most as many as the packet had.
  -- It holds at most 50,000 packets and 32 MiB of them, counts those it omits, and its bytes, records and
  -- interfaces stay within the limits. It is of the whole file, and so is its hash.
  pub read_with-IsRead :
      (file : List ℕ) (ending : Option Text) (sunk : S)
      → Ends (IsRead lib limits file) (read_with lib sink limits file ending sunk)
  unfolding read_with read_capture
  read_with-IsRead file ending sunk =
      let r : Reading S = record {
        rest = file;
        ending = ending;
        count = 0;
        capture = empty_capture Format.pcap;
        sunk = sunk;
      } in
      finished (read_capture lib sink limits r) (
        Ends-bind (λ p. InBounds limits (length file) p.1 × Taken 4 r p.1 × (length p.0 ≡ 4))
          (exact limits 4) _ r
          (fill-Ends limits (length file) 4 _ r
            (record { within = omega arith; whole = omega arith }))
          λ magic s h. read_format-Ends (length file) magic s h.0)
    where
      finished :
          (o : Read (Unit {0} × Reading S))
          → Ends (Left lib sink limits (length file)) o
          → Ends (IsRead lib limits file) (elim o [
            | failed e ↦ failed e
            | panicked ↦ panicked
            | got p ↦ got (finish lib.sha256 file p.1)
          ])
      finished _ (stopped e) = stopped e
      finished _ (fine p h) = fine _ (finish-IsRead file p.1 h.0 h.1 h.2)
