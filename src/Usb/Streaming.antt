-- ===== src/Usb/Streaming.antt =====
-- usb/session.go, streamLine and interruptAndRecover: a command whose output is copied until the
-- prompt comes. A turn of the loop is what the context, the connection and the writer do in it.
pub mod Whole
use busylib_go.Prelude.{ℕ, Bool, true, false, List, [], ◌∷◌, ◌++◌, not, if◌then◌else◌}
use busylib_go.Prelude.Bytes.{Bytes}
use busylib_go.Usb.Prompt.{
  contains_prompt, trailing_bytes, ReadResult, ReadOutcome, prompt_found, read_until_prompt,
  is_empty,
}

pub record Turn : Type 0 where
  -- The context is done before the read.
  pub cancelled : Bool
  pub chunk : Bytes
  pub read_failed : Bool
  -- The writer takes the whole chunk.
  pub written : Bool
  -- The context is done when a failed read returns.
  pub cancelled_reading : Bool

pub data Interruption : Type 0 where
  by_context by_writer : Interruption

-- How the loop ends; `streaming` is a loop that has not ended.
pub data StreamEnd : Type 0 where
  completed broken streaming : StreamEnd
  interrupted : Interruption → StreamEnd

-- The bytes that the writer has taken, and the end.
stream_from : List Turn → Bytes → Bytes → Bytes × StreamEnd
stream_from [] prompt_tail copied = (copied, streaming)
stream_from (t ∷ turns) prompt_tail copied =
    let combined = prompt_tail ++ t.chunk in
    let next_tail = if is_empty t.chunk then prompt_tail else trailing_bytes combined 2 in
    let further = stream_from turns next_tail (copied ++ t.chunk) in
    let after =
      if t.read_failed
      then (if t.cancelled_reading
          then (copied ++ t.chunk, interrupted by_context)
          else (copied ++ t.chunk, broken))
      else further in
    if t.cancelled
    then (copied, interrupted by_context)
    else if is_empty t.chunk
    then after
    else if not t.written
    then (copied, interrupted by_writer)
    else if contains_prompt combined
    then (copied ++ t.chunk, completed)
    else after

unfoldable pub stream_output : List Turn → Bytes × StreamEnd
unfolding stream_from
stream_output turns = stream_from turns [] []

-- What the connection does when the loop is interrupted: whether it takes the interrupt byte, and
-- what it sends back.
pub record Recovery : Type 0 where
  pub interrupt_sent : Bool
  pub reads : List ReadResult

is_found : ReadOutcome → Bool
is_found prompt_found = true
is_found _ = false

-- Whether the session is closed afterwards.
unfoldable pub interrupt_and_recover : Recovery → ℕ → Bool
unfolding is_found
interrupt_and_recover r maximum =
    if not r.interrupt_sent then true else not (is_found (read_until_prompt r.reads maximum).1)

-- Whether the stream leaves its session closed, by the end of the loop.
unfoldable pub closes_session : StreamEnd → Recovery → ℕ → Bool
closes_session completed r maximum = false
closes_session streaming r maximum = false
closes_session broken r maximum = true
closes_session (interrupted _) r maximum = interrupt_and_recover r maximum
