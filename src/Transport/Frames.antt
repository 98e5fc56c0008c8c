-- ===== src/Transport/Frames.antt =====
-- src/network/transport/quic_transport.rs: a message on a stream, its length in four bytes before
-- it. A receive stream is a parameter: a type of states, and what `read_chunk` gives in a state.
-- The loop over the body runs on fuel.
pub mod Laws
use rust_node.Base.{
  ℕ, zero, suc, ◌+◌, ◌-◌, ◌*◌, ◌/◌, ◌%◌, ◌^◌, String, Bool, List, [], ◌∷◌, ◌++◌, Option, none, some,
  Result, ok, err, length, if◌then◌else◌, ◌==◌, min, leb,
}
use rust_node.Network.{Bytes, NetworkError, message_error}

-- `u32::to_be_bytes` and `u32::from_be_bytes`.
abbrev pub to_be_bytes : ℕ → Bytes
to_be_bytes n = n / 16777216 ∷ n / 65536 % 256 ∷ n / 256 % 256 ∷ n % 256 ∷ []

abbrev pub from_be_bytes : Bytes → ℕ
from_be_bytes [] = 0
from_be_bytes (b ∷ bs) = b * 256 ^ length bs + from_be_bytes bs

-- `data.len() as u32` keeps the low 32 bits.
abbrev pub length_prefix : Bytes → Bytes
length_prefix body = to_be_bytes (length body % 4294967296)

-- What the two writes of `send_message` put on the stream.
abbrev pub frame : Bytes → Bytes
frame body = length_prefix body ++ body

-- What `read_chunk` gives: some bytes, the end of the stream or an error.
pub data Read : Type 0 where
  chunk : Bytes → Read
  closed : Read
  failed : String → Read

-- How an iteration of the loop over the body goes on.
pub data Next (S : Type 0) : Type 0 where
  stop : Result Bytes NetworkError → S → Next S
  more : ℕ → Bytes → S → Next S

-- The difference of two numbers of 64 bits, which wraps as it does in a build without overflow checks.
abbrev pub wrapping_sub : ℕ → ℕ → ℕ
wrapping_sub a b = if leb b a then a - b else a + 18446744073709551616 - b

module _ {S : Type 0} where
  -- One of the four reads of the length, and the next ones.
  abbrev pub head_next :
      (Bytes → S → Result Bytes NetworkError × S) → Bytes → Read × S → Result Bytes NetworkError × S
  head_next loop len_buf (chunk (b ∷ bs), s) = loop (len_buf ++ b ∷ []) s
  head_next loop len_buf (chunk [], s) = (err (message_error "Empty chunk received"), s)
  head_next loop len_buf (closed, s) = (err (message_error "Stream closed prematurely"), s)
  head_next loop len_buf (failed text, s) =
      (err (message_error "Failed to read message length: "), s)

  -- `break` with what was read where the stream ends or gives an empty chunk.
  abbrev pub body_step : ℕ → Bytes → Read × S → Next S
  body_step remaining body (chunk (b ∷ bs), s) =
      more (wrapping_sub remaining (length (b ∷ bs))) (body ++ b ∷ bs) s
  body_step remaining body (chunk [], s) = stop (ok body) s
  body_step remaining body (closed, s) = stop (ok body) s
  body_step remaining body (failed text, s) =
      stop (err (message_error "Failed to read message: ")) s

  -- The next iteration, or what the loop ends with.
  abbrev pub continue_with :
      (ℕ → Bytes → S → Option (Result Bytes NetworkError × S))
      → Next S
      → Option (Result Bytes NetworkError × S)
  continue_with loop (stop outcome s) = some (outcome, s)
  continue_with loop (more remaining body s) = loop remaining body s

abbrev pub complete : ℕ → Result Bytes NetworkError → Result Bytes NetworkError
complete msg_len (err e) = err e
complete msg_len (ok body) =
    if length body == msg_len then ok body else err (message_error "Incomplete message: ")

-- After the loop.
abbrev pub completed :
    {S : Type 0} → ℕ → Option (Result Bytes NetworkError × S) → Option (Result Bytes NetworkError)
completed msg_len none = none
completed msg_len (some (outcome, s)) = some (complete msg_len outcome)

module _ {S : Type 0} (read_chunk : ℕ → S → Read × S) where
  -- The `for` loop over the places of the length, with the bytes so far.
  unfoldable pub read_head : ℕ → Bytes → S → Result Bytes NetworkError × S
  read_head zero len_buf s = (ok len_buf, s)
  read_head (suc count) len_buf s = head_next (read_head count) len_buf (read_chunk 1 s)

  -- `none` is a loop that ran out of fuel.
  unfoldable pub read_body : ℕ → ℕ → Bytes → S → Option (Result Bytes NetworkError × S)
  read_body fuel zero body s = some (ok body, s)
  read_body zero (suc remaining) body s = none
  read_body (suc fuel) (suc remaining) body s =
      continue_with (read_body fuel)
        (body_step (suc remaining) body (read_chunk (min (suc remaining) 1024) s))

  -- The body, after the four bytes of the length; the length is fuel enough.
  unfoldable pub receive_body : Result Bytes NetworkError × S → Option (Result Bytes NetworkError)
  receive_body (err e, s) = some (err e)
  receive_body (ok len_buf, s) =
      let msg_len = from_be_bytes len_buf in completed msg_len (read_body msg_len msg_len [] s)

  -- The bytes of a message, as `receive_message` takes them from a stream.
  unfoldable pub receive_bytes : S → Option (Result Bytes NetworkError)
  receive_bytes s = receive_body (read_head 4 [] s)
