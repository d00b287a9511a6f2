-- ===== src/Capture/Decode/Tests.antt =====
-- Witnesses and tests for the modules on crates/netlane-capture/src/decode.rs.
use netlane.Prelude.{ℕ, List, [], ◌∷◌, ◌++◌, length, some, Text, text, str_eq, ◌≡◌, refl}
use netlane.Capture.Decode.Outcomes.{Summary, ◌>>=◌, ◌>>◌, unwrap, return_if}
use netlane.Capture.Bytes.{word, join, show}
use netlane.Capture.Decode.{summarize}
use netlane.Capture.Decode.Safe.{InFrame}
use netlane.Capture.Decode.Payload.{summarize-InFrame}

-- A frame that the segmentation of the card left with length 0: Ethernet, IPv4, TCP, 8 bytes of data.
abbrev offloaded_frame : List ℕ
offloaded_frame =
    (0 ∷ 0 ∷ 0 ∷ 0 ∷ 0 ∷ 0 ∷ 0 ∷ 0 ∷ 0 ∷ 0 ∷ 0 ∷ 0 ∷ 8 ∷ 0 ∷ [])
    ++ (0x45 ∷ 0 ∷ 0 ∷ 0 ∷ 0 ∷ 0 ∷ 0x40 ∷ 0 ∷ 64 ∷ 6 ∷ 0 ∷ 0 ∷ 192 ∷ 0 ∷ 2 ∷ 1 ∷ 203 ∷ 0 ∷ 113 ∷ 5
        ∷ [])
    ++ (195 ∷ 80 ∷ 1 ∷ 187 ∷ 0 ∷ 0 ∷ 0 ∷ 0 ∷ 0 ∷ 0 ∷ 0 ∷ 0 ∷ 0x50 ∷ 0x18 ∷ 255 ∷ 255 ∷ 0 ∷ 0 ∷ 0 ∷ 0
        ∷ [])
    ++ (7 ∷ 7 ∷ 7 ∷ 7 ∷ 7 ∷ 7 ∷ 7 ∷ 7 ∷ [])

abbrev no_text : List ℕ → Text
no_text bytes = []

offloaded_frame_decoded :
    summarize no_text offloaded_frame 1
    ≡ some (record {
      protocol = text "TCP";
      source = text "192.0.2.1:50000";
      destination = text "203.0.113.5:443";
      info =
          text "ACK PSH · 8 bytes de dados · comprimento IP 0, provável segmentação na placa (TSO)";
      service = text "https";
      payload = some (54, 62);
    })
unfolding summarize ◌>>=◌ unwrap word ◌>>◌ return_if text join str_eq show
offloaded_frame_decoded = refl

summarize-InFrame_example :
    (s : Summary) × (summarize no_text offloaded_frame 1 ≡ some s)
    × InFrame (length offloaded_frame) s.payload
summarize-InFrame_example = summarize-InFrame no_text offloaded_frame 1
