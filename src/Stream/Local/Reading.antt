-- ===== src/Stream/Local/Reading.antt =====
-- Reading a connection never panics and does not end the stream.
use busylib_go.Prelude.{
  ℕ, ◌≡◌, inl, inr, refl, ◌∙◌, Bool, true, false, List, [], ◌∷◌, Option, none, some, Result, arith,
  if◌then◌else◌,
}
use busylib_go.Prelude.Bytes.{Bytes}
use busylib_go.Stream.Channel.{try_receive}
use busylib_go.Stream.State.{State, Delivery, delivered, context_error, slow_consumer}
use busylib_go.Stream.State.Invariant.{Inv, deliver-Inv}
use busylib_go.Stream.State.Delivered.{deliver-finished}
use busylib_go.Stream.Updates.{Field, DeviceState, Message}
use busylib_go.Stream.Local.{Local, Failure, bare, consumer_too_slow, change_status}
use busylib_go.Stream.Local.Live.{IsLive, change_status_lem, true_ne_false}
use busylib_go.Stream.Local.Read.{
  Event, read_failed, received, ticked, status_taken, message_taken, ReadEnd, reading, Delivering,
  decode_message, is_state, fresh_at, grow_stale, after_delivery, refused_delivery, as_failure,
  read_connection,
}

module _ {E M C : Type 0} where
  -- A computation that goes through, with the stream still live.
  abbrev pub Reads : Option (Local E M C × ReadEnd E) → Bool → Type 0
  Reads o started =
      (w : Local E M C) × (r : ReadEnd E) × (o ≡ some (w, r))
      × IsLive w
      × (w.state.started ≡ started)

  status_taken-IsLive :
      (w : Local E M C)
      → IsLive w
      → IsLive (record w { state = record (w.state) { statuses = try_receive w.state.statuses } })
  unfolding try_receive
  status_taken-IsLive w l =
      let v : Inv w.state = l.invariant in record { invariant = ground arith; live = l.live }

  message_taken-IsLive :
      (w : Local E M C)
      → IsLive w
      → IsLive (record w { state = record (w.state) { messages = try_receive w.state.messages } })
  unfolding try_receive
  message_taken-IsLive w l =
      let v : Inv w.state = l.invariant in record { invariant = ground arith; live = l.live }

module _ {V : Field → Type 0} {E C : Type 0} (unmarshal : Bytes → Result E (DeviceState V))
    (decode_failure : E → Bytes → E) (path : Bytes) where
  freshen_if :
      (fresh : Bool) (at : ℕ) (drained : _) (w : Local E (Message V E) C)
      → IsLive w
      → (w' : Local E (Message V E) C) × ((if fresh
            then change_status (fresh_at at) drained w
            else some w)
          ≡ some w')
        × IsLive w'
        × (w'.state.started ≡ w.state.started)
  freshen_if false at drained w l = (w, refl, l, refl)
  freshen_if true at drained w l =
      let (w', same, kept, _, _) = change_status_lem (fresh_at at) drained w l in
      (w', same, kept.kept_live, kept.started)

  refused-Reads :
      (context : Option E) (e : Failure E) (w : Local E (Message V E) C)
      → IsLive w
      → Reads (refused_delivery context e w) w.state.started
  refused-Reads none e w l = (w, _, refl, l, refl)
  refused-Reads (some x) e w l = (w, _, refl, l, refl)

  after_delivery-Reads :
      (message : Message V E) (fatal : Bool) (d : Delivering E) (w : Local E (Message V E) C)
      (state : State (Failure E) (Message V E)) (sent : Delivery (Failure E))
      (further : Local E (Message V E) C → Option (Local E (Message V E) C × ReadEnd E))
      → IsLive (record w { state = state })
      → ((u : Local E (Message V E) C) → IsLive u → Reads (further u) u.state.started)
      → Reads
          (after_delivery unmarshal decode_failure path (message, fatal) d w (state, sent) further)
          state.started
  after_delivery-Reads message true d w state delivered further l next = (_, _, refl, l, refl)
  after_delivery-Reads message false d w state delivered further l next =
      next (record w { state = state }) l
  after_delivery-Reads message true d w state (context_error e) further l next =
      refused-Reads d.context_after e (record w { state = state }) l
  after_delivery-Reads message false d w state (context_error e) further l next =
      refused-Reads d.context_after e (record w { state = state }) l
  after_delivery-Reads message true d w state (slow_consumer e) further l next =
      refused-Reads d.context_after e (record w { state = state }) l
  after_delivery-Reads message false d w state (slow_consumer e) further l next =
      refused-Reads d.context_after e (record w { state = state }) l

  -- Reading goes through, and the stream is live afterwards.
  pub read_connection-Reads :
      (stale_after : ℕ) (events : List (Event E)) (w : Local E (Message V E) C)
      → IsLive w
      → Reads (read_connection unmarshal decode_failure path stale_after events w) w.state.started
  unfolding read_connection
  read_connection-Reads stale_after [] w l = (w, reading, refl, l, refl)
  read_connection-Reads stale_after (read_failed close_status e ∷ events) w l =
      (w, _, refl, l, refl)
  read_connection-Reads stale_after (received kind payload now d ∷ events) w l =
      let decoded = decode_message unmarshal decode_failure path kind payload now in
      let message = decoded.0 in
      let (w', fresh, l', begun) =
        freshen_if (is_state unmarshal decode_failure path message.state message.decode_error)
          message.received_at d.drained w l in
      elim (deliver-Inv (as_failure d.context_during) d.prefers_send message
        (bare consumer_too_slow) w'.state l'.invariant) [
          | inl (over, _, _) ↦ absurd (true_ne_false over l'.live)
          | inr (_, (state, sent, same, v, _)) ↦
              let (alive, begun') =
                deliver-finished (as_failure d.context_during) d.prefers_send message
                  (bare consumer_too_slow) w'.state same in
              let (u, r, reads, live, started) =
                after_delivery-Reads message decoded.1 d w' state sent
                  (read_connection unmarshal decode_failure path stale_after events)
                  (record { invariant = v; live = alive ∙ l'.live })
                  (read_connection-Reads stale_after events) in
              (u, r, rw (fresh, same) reads, live, started ∙ begun' ∙ begun)
        ]
  read_connection-Reads stale_after (ticked now drained ∷ events) w l =
      let (w', same, kept, _, _) = change_status_lem (grow_stale stale_after now) drained w l in
      let (u, r, reads, live, started) =
        read_connection-Reads stale_after events w' kept.kept_live in
      (u, r, rw same reads, live, started ∙ kept.started)
  read_connection-Reads stale_after (status_taken ∷ events) w l =
      read_connection-Reads stale_after events
        (record w { state = record (w.state) { statuses = try_receive w.state.statuses } })
        (status_taken-IsLive w l)
  read_connection-Reads stale_after (message_taken ∷ events) w l =
      read_connection-Reads stale_after events
        (record w { state = record (w.state) { messages = try_receive w.state.messages } })
        (message_taken-IsLive w l)
