-- ===== src/Stream/Local/Run.antt =====
-- internal/statusstream/stream.go: the receive loop, which connects again, and the start of the stream.
use busylib_go.Prelude.{ℕ, Bool, true, false, List, [], ◌∷◌, Option, none, some, Result, ok, err}
use busylib_go.Prelude.Bytes.{Bytes}
use busylib_go.Stream.Types.{Status, connecting, reconnecting, access_unknown, data_waiting}
use busylib_go.Stream.State.{State, Drained, BeginError, begin, ◌>>=◌}
use busylib_go.Stream.Updates.{Field, DeviceState, Message}
use busylib_go.Stream.Local.{
  Local, Failure, bare, stream_error, StreamError, external, change_status, finish_stream,
}
use busylib_go.Stream.Local.Connect.{Attempt, connect_with_retry, data_before}
use busylib_go.Stream.Local.Read.{Event, ReadEnd, reading, read_end, read_connection}

-- One connection of the loop: what is read, the context afterwards, the attempts to connect again, the
-- context after these, and the consumers.
pub record Leg (C E : Type 0) : Type 0 where
  pub events : List (Event E)
  pub context_error : Option E
  pub attempts : ℕ → Attempt C E
  pub context_after : Option E
  pub drained_reconnect : Drained
  pub drained_finish : Drained

-- Whether the goroutine still runs.
pub data Progress : Type 0 where
  running ended : Progress

abbrev pub now_reconnecting : {E : Type 0} → E → Status E → Status E
now_reconnecting e status = record status {
  lifecycle = reconnecting;
  access = access_unknown;
  freshness = data_before status.last_state_at;
  last_error = some e;
}

abbrev pub now_connecting : {E : Type 0} → Status E → Status E
now_connecting status = record status {
  lifecycle = connecting;
  access = access_unknown;
  freshness = data_waiting;
  last_error = none;
}

-- The error of connecting, or the context's if it is done. Without an attempt the error would be a nil
-- pointer.
abbrev pub unless_done :
    {E : Type 0} → Option E → Option (Failure E) → Option (StreamError E) → Option (Failure E)
unless_done (some _) instead e = instead
unless_done none instead none = none
unless_done none instead (some e) = some (stream_error e)

module _ {E M C : Type 0} where
  abbrev pub end_with : Option (Failure E) → Drained → Local E M C → Option (Local E M C × Progress)
  end_with terminal drained w = do w' ← finish_stream terminal drained w; some (w', ended)

  abbrev pub after_connect :
      Leg C E
      → Local E M C × Result (Option (StreamError E)) C
      → (Local E M C → Option (Local E M C × Progress))
      → Option (Local E M C × Progress)
  after_connect leg (w, ok _) further = further w
  after_connect leg (w, err e) further =
      end_with (unless_done leg.context_after none e) leg.drained_finish w

  module _ (max_attempts : ℕ) (negotiation : Bool) where
    abbrev pub reconnect :
        Leg C E
        → Failure E
        → Local E M C
        → (Local E M C → Option (Local E M C × Progress))
        → Option (Local E M C × Progress)
    reconnect leg e w further = do
      w' ← change_status (now_reconnecting e) leg.drained_reconnect w
      connected ← connect_with_retry max_attempts negotiation reconnecting leg.attempts w'
      after_connect leg connected further

    -- After a connection has ended: the context first, then a terminal result, else a new connection.
    abbrev pub after_read :
        Leg C E
        → Option E
        → Local E M C × ReadEnd E
        → (Local E M C → Option (Local E M C × Progress))
        → Option (Local E M C × Progress)
    after_read leg _ (w, reading) further = some (w, running)
    after_read leg (some _) (w, read_end e terminal) further = end_with none leg.drained_finish w
    after_read leg none (w, read_end e true) further = end_with (some e) leg.drained_finish w
    after_read leg none (w, read_end e false) further = reconnect leg e w further

-- What Start returns; `began` is nil.
pub data StartResult (E : Type 0) : Type 0 where
  refused : BeginError → StartResult E
  began : StartResult E
  start_failed : Option (Failure E) → StartResult E

-- The context's error in place of that of connecting, if it is done.
abbrev pub start_error : {E : Type 0} → Option E → Option (StreamError E) → Option (Failure E)
start_error (some e) _ = some (bare (external e))
start_error none e = unless_done none none e

module _ {E M C : Type 0} where
  abbrev pub after_start :
      Leg C E
      → Local E M C × Result (Option (StreamError E)) C
      → Option (Local E M C × StartResult E)
  after_start leg (w, ok _) = some (w, began)
  after_start leg (w, err e) = do
    let terminal = start_error leg.context_after e
    w' ← finish_stream terminal leg.drained_finish w
    some (w', start_failed terminal)

module _ {E M C : Type 0} (max_attempts : ℕ) (negotiation : Bool) where
  abbrev pub after_begin :
      Leg C E
      → Local E M C
      → State (Failure E) M × Option BeginError
      → Option (Local E M C × StartResult E)
  after_begin leg w (state, some e) = some (record w { state = state }, refused e)
  after_begin leg w (state, none) = do
    w' ← change_status now_connecting leg.drained_reconnect (record w { state = state })
    connected ← connect_with_retry max_attempts negotiation connecting leg.attempts w'
    after_start leg connected

  -- Start, with the attempts and the context of the leg.
  unfoldable pub start : Leg C E → Local E M C → Option (Local E M C × StartResult E)
  start leg w = after_begin leg w (begin w.state)

module _ {V : Field → Type 0} {E C : Type 0} (unmarshal : Bytes → Result E (DeviceState V))
    (decode_failure : E → Bytes → E) (path : Bytes) (stale_after max_attempts : ℕ)
    (negotiation : Bool) where
  -- The loop of run, connection by connection.
  unfoldable pub run :
      List (Leg C E) → Local E (Message V E) C → Option (Local E (Message V E) C × Progress)
  run [] w = some (w, running)
  run (leg ∷ legs) w = do
    result ← read_connection unmarshal decode_failure path stale_after leg.events w
    after_read max_attempts negotiation leg leg.context_error result (run legs)
