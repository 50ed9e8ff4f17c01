-- ===== src/Tests/GatewayRuns.antt =====
-- Frames of a cBot's connection.
use ctreader.Prelude.{◌≡◌, refl, true, none, List, ℕ, [], ◌∷◌, ◌++◌, arith}
use ctreader.Gateway.{
  WsConnection, frame, read_front, consume, receive, and_then, goes_on, handle, xor_byte,
}
use ctreader.Gateway.RoundTrip.{client_header, masked_tail, IsMasked, read_front-client_frame}
use ctreader.Gateway.Stream.{receive-append, consume_same}

-- "Hi!", its frame, and the frame of an empty message behind it.
abbrev text : List ℕ
text = 72 ∷ 105 ∷ 33 ∷ []

abbrev behind : List ℕ
behind = 129 ∷ 128 ∷ 0 ∷ 0 ∷ 0 ∷ 0 ∷ []

-- 72 xor 9, 105 xor 8 and 33 xor 7.
abbrev masked_text : List ℕ
masked_text = 65 ∷ 97 ∷ 38 ∷ []

masked_text-IsMasked : IsMasked 9 8 7 6 text masked_text
masked_text-IsMasked = (
  65,
  97 ∷ 38 ∷ [],
  refl,
  (refl, (refl, (refl, (refl, (refl, (refl, (refl, (refl, tt)))))))),
  (
    97,
    38 ∷ [],
    refl,
    (refl, (refl, (refl, (refl, (refl, (refl, (refl, (refl, tt)))))))),
    (38, [], refl, (refl, (refl, (refl, (refl, (refl, (refl, (refl, (refl, tt)))))))), refl),
  ),
)

read_front-client_frame_example :
    read_front (client_header 1 3 ++ masked_tail 1 9 8 7 6 text masked_text behind)
    ≡ frame true 1 text behind
read_front-client_frame_example =
    read_front-client_frame 1 9 8 7 6 text masked_text behind (ground arith)
      (ground arith, (ground arith, (ground arith, tt))) masked_text-IsMasked (ground arith)

abbrev idle : WsConnection
idle = record { buffer = []; fragments = []; fragment_opcode = none }

-- 72 xor 9, 105 xor 8 and 33 xor 7 are 65, 97 and 38.
abbrev first_part : List ℕ
first_part = 129 ∷ 131 ∷ 9 ∷ 8 ∷ 7 ∷ []

abbrev second_part : List ℕ
second_part = 6 ∷ 65 ∷ 97 ∷ 38 ∷ behind

both_handled :
    receive (first_part ++ second_part) idle ≡ goes_on (handle text ∷ handle [] ∷ []) idle
unfolding receive xor_byte
both_handled = refl

receive-append_example :
    and_then (receive second_part) (receive first_part idle)
    ≡ receive (first_part ++ second_part) idle
receive-append_example = receive-append first_part second_part idle

consume_same_example :
    consume 7 (record idle { buffer = behind }) ≡ consume 6 (record idle { buffer = behind })
consume_same_example =
    consume_same 7 6 (record idle { buffer = behind }) (ground arith) (ground arith)
