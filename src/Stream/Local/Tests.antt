-- ===== src/Stream/Local/Tests.antt =====
-- Runs of the local stream, and its theorems at small scripts.
use busylib_go.Prelude.{
  ℕ, ◌≡◌, ◌⊎◌, refl, Bool, true, false, [], ◌∷◌, Option, none, some, Result, err, arith, ◌==◌,
  if◌then◌else◌,
}
use busylib_go.Prelude.Bytes.{Bytes}
use busylib_go.Prelude.Int.{negsuc}
use busylib_go.Stream.Types.{idle, connecting, access_unknown, data_waiting}
use busylib_go.Stream.Channel.{make}
use busylib_go.Stream.State.{Drained, already_started}
use busylib_go.Stream.Updates.{Field, DeviceState, Message, message_text}
use busylib_go.Stream.Local.{Local, StreamError}
use busylib_go.Stream.Local.Connect.{Attempt, refused, opened, connect_with_retry}
use busylib_go.Stream.Local.Live.{IsLive}
use busylib_go.Stream.Local.Ended.{IsOutcome}
use busylib_go.Stream.Local.Attempts.{connect_with_retry-IsOutcome}
use busylib_go.Stream.Local.Read.{received, read_failed}
use busylib_go.Stream.Local.Run.{Leg, run, start, refused}
use busylib_go.Stream.Local.Running.{IsRun, run-IsRun}
use busylib_go.Stream.Local.Starting.{IsStarted, start-IsStarted}

abbrev Payload : Field → Type 0
Payload f = ℕ

abbrev Text : Type 0
Text = Message Payload ℕ

abbrev quiet : Drained
quiet = record { before_receive = false; before_send = false }

-- A stream before and after its start.
abbrev stream_with : Bool → Local ℕ Text ℕ
stream_with started = record {
  state = record {
    messages = make 64;
    statuses = make 1;
    done_closed = false;
    status = record {
      lifecycle = idle;
      access = access_unknown;
      freshness = data_waiting;
      attempt = 0;
      connected_at = 0;
      last_state_at = 0;
      last_error = none;
    };
    started = started;
    finished = false;
    final_err = none;
    finish_called = false;
  };
  connection = none;
}

stream_with-IsLive : (started : Bool) → IsLive (stream_with started)
stream_with-IsLive started = record { invariant = ground arith; live = refl }

-- The first attempt meets 405 and then 503, the second one connects.
abbrev busy_then_open : ℕ → Attempt ℕ ℕ
busy_then_open attempt = record {
  tries = λ left. record {
    version = none;
    dial = if attempt == 2 then opened 7 none else refused (if left == 1 then 405 else 503) 9;
    refresh = none;
  };
  now = 100;
  context_error = none;
  wait_error = none;
  drained_before = quiet;
  drained_after = quiet;
}

connect_with_retry-IsOutcome_example :
    (w : Local ℕ Text ℕ) × (r : Result (Option (StreamError ℕ)) ℕ) × (n : ℕ) × (connect_with_retry 3
        true connecting busy_then_open
        (stream_with true)
      ≡ some (w, r))
    × IsOutcome 3 true connecting busy_then_open 1 n (stream_with true) w r
connect_with_retry-IsOutcome_example =
    connect_with_retry-IsOutcome 3 true connecting busy_then_open (stream_with true) (omega arith)
      (stream_with-IsLive true)

abbrev text_then_loss : Leg ℕ ℕ
text_then_loss = record {
  events =
      received message_text (104 ∷ []) 101 (record {
        context_during = none;
        prefers_send = false;
        context_after = none;
        drained = quiet;
      })
      ∷ read_failed (negsuc 0) 5
      ∷ [];
  context_error = none;
  attempts = busy_then_open;
  context_after = none;
  drained_reconnect = quiet;
  drained_finish = quiet;
}

abbrev no_state : Bytes → Result ℕ (DeviceState Payload)
no_state payload = err 0

run-IsRun_example :
    IsRun
      (text_then_loss ∷ [])
      (run no_state (λ e path. e) [] 5 1 false (text_then_loss ∷ []) (stream_with true))
run-IsRun_example =
    run-IsRun no_state (λ e path. e) [] 5 1 false (text_then_loss ∷ []) (stream_with true)
      (omega arith) (stream_with-IsLive true) refl

start-IsStarted_example :
    ((false ≡ true)
      × (start 2 true text_then_loss (stream_with false)
          ≡ some (stream_with false, refused already_started)))
    ⊎ ((false ≡ false)
        × IsStarted text_then_loss.context_after (start 2 true text_then_loss (stream_with false)))
start-IsStarted_example =
    start-IsStarted 2 true text_then_loss (stream_with false) (omega arith)
      (stream_with-IsLive false)
