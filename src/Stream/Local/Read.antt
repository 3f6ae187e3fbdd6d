-- ===== src/Stream/Local/Read.antt =====
-- internal/statusstream/stream.go: reading a connection, with the watch of staleness beside it.
use busylib_go.Prelude.{
  ℕ, ◌+◌, Bool, true, false, not, ◌&&◌, List, [], ◌∷◌, Option, none, some, Result, ltb, leb, ◌==◌,
  if◌then◌else◌,
}
use busylib_go.Prelude.Bytes.{Bytes}
use busylib_go.Prelude.Int.{ℤ, pos_part}
use busylib_go.Stream.Channel.{try_receive}
use busylib_go.Stream.Types.{Status, Lifecycle, connected, DataStatus, data_fresh, data_stale}
use busylib_go.Stream.State.{
  State, Drained, Delivery, delivered, context_error, slow_consumer, deliver, ◌>>=◌,
}
use busylib_go.Stream.Updates.{
  Field, DeviceState, Message, message_text, message_binary, MessageKind,
}
use busylib_go.Stream.Decode.{decode_binary}
use busylib_go.Stream.Local.{
  Local, Failure, bare, stream_error, Cause, external, device, consumer_too_slow, change_status,
  read_operation, deliver_operation, device_error_operation,
}

-- The context while a message is delivered and after it, and what the consumers do meanwhile.
pub record Delivering (E : Type 0) : Type 0 where
  pub context_during : Option E
  pub prefers_send : Bool
  pub context_after : Option E
  pub drained : Drained

-- What happens next: Read fails, with its close status, or returns a message; the ticker fires; or a
-- consumer takes something.
pub data Event (E : Type 0) : Type 0 where
  read_failed : ℤ → E → Event E
  received : MessageKind → Bytes → ℕ → Delivering E → Event E
  ticked : ℕ → Drained → Event E
  status_taken message_taken : Event E

-- readResult, or a Read that still waits.
pub data ReadEnd (E : Type 0) : Type 0 where
  reading : ReadEnd E
  read_end : Failure E → Bool → ReadEnd E

-- websocketError: a negative close status is none.
abbrev pub websocket_error : {E : Type 0} → ℤ → E → Failure E
websocket_error close_status e = stream_error (record {
  operation = read_operation;
  attempt = 0;
  status_code = 0;
  close_code = pos_part close_status;
  terminal = false;
  cause = external e;
})

abbrev pub cause_of : {E : Type 0} → Failure E → Cause E
cause_of (bare cause) = cause
cause_of (stream_error e) = e.cause

abbrev pub deliver_error : {E : Type 0} → Failure E → Failure E
deliver_error e = stream_error (record {
  operation = deliver_operation;
  attempt = 0;
  status_code = 0;
  close_code = 0;
  terminal = true;
  cause = cause_of e;
})

abbrev pub as_failure : {E : Type 0} → Option E → Option (Failure E)
as_failure none = none
as_failure (some e) = some (bare (external e))

-- After a delivery that failed: the context's error, if it has one by now.
abbrev pub refused_delivery :
    {E M C : Type 0} → Option E → Failure E → Local E M C → Option (Local E M C × ReadEnd E)
refused_delivery (some e) _ w = some (w, read_end (bare (external e)) false)
refused_delivery none e w = some (w, read_end (deliver_error e) true)

abbrev pub fresh_at : {E : Type 0} → ℕ → Status E → Status E
fresh_at received_at status = record status { freshness = data_fresh; last_state_at = received_at }

abbrev pub is_connected : Lifecycle → Bool
is_connected connected = true
is_connected _ = false

abbrev pub is_stale : DataStatus → Bool
is_stale data_stale = true
is_stale _ = false

-- The change that a tick makes. A time of 0 is the zero time.
abbrev pub grow_stale : {E : Type 0} (stale_after now : ℕ) → Status E → Status E
grow_stale stale_after now status =
    let reference =
      if status.last_state_at == 0 then status.connected_at else status.last_state_at in
    if (is_connected status.lifecycle && not (is_stale status.freshness))
      && (ltb 0 reference && leb (reference + stale_after) now)
    then record status { freshness = data_stale }
    else status

module _ {V : Field → Type 0} {E : Type 0} (unmarshal : Bytes → Result E (DeviceState V))
    (decode_failure : E → Bytes → E) (path : Bytes) where
  -- decodeMessage
  abbrev pub decode_message : MessageKind → Bytes → ℕ → Message V E × Bool
  decode_message message_text payload now = (
    record {
      kind = message_text;
      received_at = now;
      raw = payload;
      text = payload;
      state = none;
      updates = [];
      device_error = none;
      decode_error = none;
    },
    false,
  )
  decode_message message_binary payload now =
      decode_binary unmarshal decode_failure now payload path

  abbrev pub is_state : Option (DeviceState V) → Option E → Bool
  is_state (some _) none = true
  is_state _ _ = false

  abbrev pub device_failure : Message V E → Failure E
  device_failure message = stream_error (record {
    operation = device_error_operation;
    attempt = 0;
    status_code = 0;
    close_code = 0;
    terminal = true;
    cause = device message.device_error;
  })

  module _ {C : Type 0} where
    abbrev pub freshen :
        Message V E → Drained → Local E (Message V E) C → Option (Local E (Message V E) C)
    freshen message drained w =
        if is_state message.state message.decode_error
        then change_status (fresh_at message.received_at) drained w
        else some w

    -- After the delivery of a message; `further` reads on.
    abbrev pub after_delivery :
        Message V E × Bool
        → Delivering E
        → Local E (Message V E) C
        → State (Failure E) (Message V E) × Delivery (Failure E)
        → (Local E (Message V E) C → Option (Local E (Message V E) C × ReadEnd E))
        → Option (Local E (Message V E) C × ReadEnd E)
    after_delivery (message, true) d w (state, delivered) further =
        some (record w { state = state }, read_end (device_failure message) true)
    after_delivery (message, false) d w (state, delivered) further =
        further (record w { state = state })
    after_delivery decoded d w (state, context_error e) further =
        refused_delivery d.context_after e (record w { state = state })
    after_delivery decoded d w (state, slow_consumer e) further =
        refused_delivery d.context_after e (record w { state = state })

    -- The loop of readConnection.
    unfoldable pub read_connection :
        (stale_after : ℕ)
        → List (Event E)
        → Local E (Message V E) C
        → Option (Local E (Message V E) C × ReadEnd E)
    read_connection stale_after [] w = some (w, reading)
    read_connection stale_after (read_failed close_status e ∷ events) w =
        some (w, read_end (websocket_error close_status e) false)
    read_connection stale_after (received kind payload now d ∷ events) w = do
      let decoded = decode_message kind payload now
      w' ← freshen decoded.0 d.drained w
      sent ←
          deliver (as_failure d.context_during) d.prefers_send decoded.0 (bare consumer_too_slow)
            w'.state
      after_delivery decoded d w' sent (read_connection stale_after events)
    read_connection stale_after (ticked now drained ∷ events) w = do
      w' ← change_status (grow_stale stale_after now) drained w
      read_connection stale_after events w'
    read_connection stale_after (status_taken ∷ events) w =
        read_connection stale_after events
          (record w { state = record (w.state) { statuses = try_receive w.state.statuses } })
    read_connection stale_after (message_taken ∷ events) w =
        read_connection stale_after events
          (record w { state = record (w.state) { messages = try_receive w.state.messages } })
