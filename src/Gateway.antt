-- ===== src/Gateway.antt =====
-- src/cbot/cbot-websocket.gateway.ts: the frames of a WebSocket connection of a cBot, as lists of
-- bytes. `consume` takes whole frames off the front of the buffer; what it does outside (sending,
-- handing a message on) is a list of effects in their order.
pub mod Frames
pub mod Chunks
pub mod Stream
pub mod RoundTrip
use ctreader.Prelude.{
  ℕ, zero, suc, ◌+◌, ◌*◌, ◌/◌, ◌%◌, Bool, true, false, ◌&&◌, ◌||◌, not, Option, none, some, List,
  [], ◌∷◌, ◌++◌, ◌==◌, ltb, leb, if◌then◌else◌, length, take, drop, sum, map,
}

-- The exclusive or of two bytes, bit by bit.
unfoldable pub xor_bits : ℕ → ℕ → ℕ → ℕ
xor_bits zero a b = 0
xor_bits (suc n) a b = (a % 2 + b % 2) % 2 + 2 * xor_bits n (a / 2) (b / 2)

unfoldable pub xor_byte : ℕ → ℕ → ℕ
unfolding xor_bits
xor_byte a b = xor_bits 8 a b

-- A byte of the buffer; the loop reads none past its end.
abbrev pub byte_at : ℕ → List ℕ → ℕ
byte_at i [] = 0
byte_at zero (b ∷ bytes) = b
byte_at (suc i) (b ∷ bytes) = byte_at i bytes

-- `readUInt16BE` and `readBigUInt64BE`: the first bytes as a number.
unfoldable pub read_be : ℕ → ℕ → List ℕ → ℕ
read_be zero acc bytes = acc
read_be (suc n) acc [] = acc
read_be (suc n) acc (b ∷ bytes) = read_be n (acc * 256 + b) bytes

-- `payload[index] ^= mask[index % 4]`, the mask's four bytes turning.
unfoldable pub unmask : ℕ → ℕ → ℕ → ℕ → List ℕ → List ℕ
unmask a b c d [] = []
unmask a b c d (x ∷ xs) = xor_byte x a ∷ unmask b c d a xs

pub data Effect : Type 0 where
  handle pong : List ℕ → Effect
  close_with : ℕ → Effect

-- What a connection keeps between two chunks.
pub record WsConnection : Type 0 where
  pub buffer : List ℕ
  pub fragments : List (List ℕ)
  pub fragment_opcode : Option ℕ

-- What the front of a buffer is: not a whole frame yet, a reason to close, or a frame.
pub data Front : Type 0 where
  incomplete : Front
  refused : ℕ → Front
  frame : (fin : Bool) → (opcode : ℕ) → (payload rest : List ℕ) → Front

-- The frame after its header, which is `offset` bytes long and announces `size` bytes.
unfoldable pub read_body : Bool → ℕ → Bool → ℕ → ℕ → List ℕ → Front
unfolding unmask
read_body fin opcode masked size offset buffer =
    if not masked
    then refused 1002
    else if ltb (length buffer) (offset + 4 + size)
    then incomplete
    else let mask = drop offset buffer in
      let body = drop (offset + 4) buffer in
      frame fin opcode
        (unmask (byte_at 0 mask) (byte_at 1 mask) (byte_at 2 mask) (byte_at 3 mask)
          (take size body))
        (drop size body)

unfoldable pub read_front : List ℕ → Front
unfolding read_body read_be
read_front (first ∷ second ∷ rest) =
    let buffer = first ∷ second ∷ rest in
    let fin = leb 128 first in
    let opcode = first % 16 in
    let masked = leb 128 second in
    let size = second % 128 in
    if size == 126
    then if ltb (length buffer) 4
      then incomplete
      else read_body fin opcode masked (read_be 2 0 rest) 4 buffer
    else if size == 127
    then if ltb (length buffer) 10
      then incomplete
      else if ltb 1048576 (read_be 8 0 rest)
      then refused 1009
      else read_body fin opcode masked (read_be 8 0 rest) 10 buffer
    else read_body fin opcode masked size 2 buffer
read_front _ = incomplete

abbrev pub concat : List (List ℕ) → List ℕ
concat [] = []
concat (xs ∷ xss) = xs ++ concat xss

-- The effects so far and the connection, and whether the loop goes on.
pub data Outcome : Type 0 where
  goes_on : List Effect → WsConnection → Outcome
  stops : List Effect → Outcome

-- A text frame or a continuation, once its payload is among the fragments.
unfoldable pub add_fragment : Bool → List (List ℕ) → Option ℕ → List ℕ → Outcome
add_fragment fin fragments opcode rest =
    if ltb 1048576 (sum (map length fragments))
    then stops (close_with 1009 ∷ [])
    else if fin
    then goes_on (handle (concat fragments) ∷ [])
        (record { buffer = rest; fragments = []; fragment_opcode = none })
    else goes_on [] (record { buffer = rest; fragments = fragments; fragment_opcode = opcode })

-- One frame of the loop. A closing frame, an unknown opcode and a stray continuation close.
unfoldable pub take_frame : WsConnection → Bool → ℕ → List ℕ → List ℕ → Outcome
unfolding add_fragment
take_frame c fin opcode payload rest =
    if opcode == 8
    then stops (close_with 1000 ∷ [])
    else if opcode == 9
    then goes_on (pong payload ∷ []) (record c { buffer = rest })
    else if opcode == 10
    then goes_on [] (record c { buffer = rest })
    else if not (opcode == 0 || opcode == 1)
    then stops (close_with 1003 ∷ [])
    else if opcode == 1
    then add_fragment fin (payload ∷ []) (some 1) rest
    else elim c.fragment_opcode [
      | none ↦ stops (close_with 1002 ∷ [])
      | some known ↦ add_fragment fin (c.fragments ++ payload ∷ []) (some known) rest
    ]

abbrev pub prepend : List Effect → Outcome → Outcome
prepend es (goes_on fs c) = goes_on (es ++ fs) c
prepend es (stops fs) = stops (es ++ fs)

abbrev pub and_then : (WsConnection → Outcome) → Outcome → Outcome
and_then next (goes_on es c) = prepend es (next c)
and_then next (stops es) = stops es

-- The loop of `consume`, on fuel: each frame takes bytes off the buffer.
unfoldable pub consume : ℕ → WsConnection → Outcome
unfolding read_front take_frame
consume zero c = goes_on [] c
consume (suc fuel) c = elim (read_front c.buffer) [
  | incomplete ↦ goes_on [] c
  | refused code ↦ stops (close_with code ∷ [])
  | frame fin opcode payload rest ↦ and_then (consume fuel) (take_frame c fin opcode payload rest)
]

abbrev pub extend : List ℕ → WsConnection → WsConnection
extend chunk c = record c { buffer = c.buffer ++ chunk }

-- The handler of a chunk of data; the length of the buffer is fuel enough.
unfoldable pub receive : List ℕ → WsConnection → Outcome
unfolding consume
receive chunk c = consume (length (c.buffer ++ chunk)) (extend chunk c)

-- `writeUInt16BE` and `writeBigUInt64BE`.
unfoldable pub write_be : ℕ → ℕ → List ℕ
write_be zero n = []
write_be (suc k) n = write_be k (n / 256) ++ (n % 256) ∷ []

-- The header of `sendFrame`.
unfoldable pub frame_header : ℕ → ℕ → List ℕ
unfolding write_be
frame_header opcode size =
    if ltb size 126
    then (128 + opcode) ∷ size ∷ []
    else if leb size 65535
    then (128 + opcode) ∷ 126 ∷ write_be 2 size
    else (128 + opcode) ∷ 127 ∷ write_be 8 size

unfoldable pub send_frame : ℕ → List ℕ → List ℕ
unfolding frame_header
send_frame opcode payload = frame_header opcode (length payload) ++ payload
