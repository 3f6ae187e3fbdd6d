-- ===== src/Stream/State.antt =====
-- internal/streamstate/state.go: the lifecycle state that the stream transports share.
-- Each operation holds the mutex, so operations are steps. Only the consumers of the channels run
-- between the statements of one: `drained` says where a consumer takes a status meanwhile. A panic
-- is `none`. `E` is the type of errors and `M` that of messages.
pub mod Invariant
pub mod Runs
pub mod Delivered
use busylib_go.Prelude.{ℕ, Bool, true, false, List, [], ◌∷◌, Option, none, some, if◌then◌else◌}
use busylib_go.Stream.Types.{Status, idle, stopped, failed, access_unknown, data_waiting}
use busylib_go.Stream.Channel.{Channel, make, try_send, try_receive, close}

pub record State (E M : Type 0) : Type 0 where
  pub messages : Channel M
  pub statuses : Channel (Status E)
  pub done_closed : Bool
  pub status : Status E
  pub started : Bool
  pub finished : Bool
  pub final_err : Option E
  -- The sync.Once has run.
  pub finish_called : Bool

pub data BeginError : Type 0 where
  already_started : BeginError

-- What a consumer of the statuses takes between the three selects of a publication.
pub record Drained : Type 0 where
  pub before_receive : Bool
  pub before_send : Bool

pub data Delivery (E : Type 0) : Type 0 where
  delivered : Delivery E
  context_error slow_consumer : E → Delivery E

infixl 5 ◌>>=◌
abbrev pub ◌>>=◌ : {A B : Type 0} → Option A → (A → Option B) → Option B
none >>= k = none
some a >>= k = k a

abbrev drain_if : {A : Type 0} → Bool → Channel A → Channel A
drain_if b c = if b then try_receive c else c

pub data WaitResult (E : Type 0) : Type 0 where
  not_started blocked : WaitResult E
  completion : Option E → WaitResult E

abbrev pub initial_status : {E : Type 0} → Status E
initial_status = record {
  lifecycle = idle;
  access = access_unknown;
  freshness = data_waiting;
  attempt = 0;
  connected_at = 0;
  last_state_at = 0;
  last_error = none;
}

abbrev pub terminal_status : {E : Type 0} → Option E → Status E → Status E
terminal_status none status = record status { lifecycle = stopped }
terminal_status (some e) status = record status { lifecycle = failed; last_error = some e }

-- `join` is errors.Join. Without a cleanup the terminal error stays as it is.
abbrev pub with_cleanup :
    {E : Type 0} → (Option E → Option E → Option E) → Option E → Option (Option E) → Option E
with_cleanup join terminal none = terminal
with_cleanup join terminal (some cleanup_error) = join terminal cleanup_error

module _ {E M : Type 0} where
  unfoldable pub new_state : ℕ → Option (State E M)
  new_state message_buffer = do
    sent ← try_send initial_status (make 1)
    some (record {
      messages = make message_buffer;
      statuses = sent.0;
      done_closed = false;
      status = initial_status;
      started = false;
      finished = false;
      final_err = none;
      finish_called = false;
    })

  unfoldable pub begin : State E M → State E M × Option BeginError
  begin s = if s.started then (s, some already_started) else (record s { started = true }, none)

  unfoldable pub stop_before_start : State E M → State E M × Bool
  stop_before_start s = if s.started then (s, false) else (record s { started = true }, true)

  -- The three selects: send; else receive and send again.
  publish_status : Drained → State E M → Option (State E M)
  publish_status drained s = do
    first ← try_send s.status s.statuses
    let emptied = try_receive (drain_if drained.before_receive s.statuses)
    let second = try_send s.status (drain_if drained.before_send emptied)
    if first.1
        then some (record s { statuses = first.0 })
        else (second >>= λ sent. some (record s { statuses = sent.0 }))

  unfoldable pub set_status : (Status E → Status E) → Drained → State E M → Option (State E M)
  unfolding publish_status
  set_status change drained s =
      if s.finished then some s else publish_status drained (record s { status = change s.status })

  -- The send of the `select`, and what is returned where the queue has no room.
  send_or : Delivery E → M → State E M → Option (State E M × Delivery E)
  send_or otherwise message s = do
    sent ← try_send message s.messages
    if sent.1 then some (record s { messages = sent.0 }, delivered) else some (s, otherwise)

  -- Where the context is done, `select` may choose the send or the context if both are ready:
  -- `prefers_send`. A send that panics is ready.
  unfoldable pub deliver : Option E → Bool → M → E → State E M → Option (State E M × Delivery E)
  unfolding send_or
  deliver none prefers_send message slow s = send_or (slow_consumer slow) message s
  deliver (some e) true message slow s = send_or (context_error e) message s
  deliver (some e) false message slow s = some (s, context_error e)

  finish_once : Option E → Drained → State E M → Option (State E M)
  finish_once terminal drained s = do
    published ← publish_status drained (record s {
      status = terminal_status terminal s.status;
      final_err = terminal;
      finished = true;
      finish_called = true;
    })
    messages ← close published.messages
    statuses ← close published.statuses
    if published.done_closed
        then none
        else some
            (record published { messages = messages; statuses = statuses; done_closed = true })

  unfoldable pub finish :
      (Option E → Option E → Option E)
      → Option E
      → Option (Option E)
      → Drained
      → State E M
      → Option (State E M)
  unfolding finish_once publish_status
  finish join terminal cleanup drained s =
      if s.finish_called then some s else finish_once (with_cleanup join terminal cleanup) drained s

  -- Wait blocks until the channel `done` is closed.
  unfoldable pub wait : State E M → WaitResult E
  wait s =
      if s.started then (if s.done_closed then completion s.final_err else blocked) else not_started
