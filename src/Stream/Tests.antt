-- ===== src/Stream/Tests.antt =====
-- The theorems on internal/streamstate/state.go at concrete states.
use busylib_go.Prelude.{ℕ, ◌≡◌, ◌⊎◌, inr, refl, true, false, List, [], ◌∷◌, Option, none, some}
use busylib_go.Prelude.{Result, ok}
use busylib_go.Prelude.Bytes.{Bytes}
use busylib_go.Stream.Updates.{Field, StateUpdate, DeviceState, fatal, power, kind, proto}
use busylib_go.Stream.Decode.{map_update, decode_binary}
use busylib_go.Stream.Decode.Carried.{carried, IsMapped}
use busylib_go.Stream.Decode.Lossless.{
  source_of, IsDecoding, map_update-source_of, decode_binary-IsDecoding,
}
use busylib_go.Stream.Types.{Status, connected}
use busylib_go.Stream.Channel.{make, try_receive}
use busylib_go.Stream.State.{
  State, Drained, completion, initial_status, terminal_status, set_status, begin, finish, wait,
}
use busylib_go.Stream.State.Invariant.{Inv, set_status-Inv}
use busylib_go.Stream.State.Runs.{
  Op, changes, finishes, begins, take_status, apply, run, IsDeliver, apply-Inv, wait_stable,
}

-- Payloads of the fields are numbers.
abbrev Numbers : Field → Type 0
Numbers _ = ℕ

abbrev low_power : Option (StateUpdate Numbers)
low_power = some (record { state = some (power 3) })

map_update-source_of_example :
    (source_of (map_update low_power) ≡ low_power)
    × (proto (map_update low_power) ≡ carried low_power)
    × IsMapped (kind (map_update low_power)) (carried low_power)
map_update-source_of_example = map_update-source_of low_power

-- A library that reads every message as a state with one update and a fatal error.
abbrev unmarshal : Bytes → Result ℕ (DeviceState Numbers)
unmarshal _ = ok (record {
  timestamp = 42;
  updates = low_power ∷ none ∷ [];
  error = some (record { cause = 2; severity = fatal });
})

abbrev with_path : ℕ → Bytes → ℕ
with_path e _ = e

decode_binary-IsDecoding_example :
    IsDecoding unmarshal with_path (8 ∷ []) [] (decode_binary unmarshal with_path 100 (8 ∷ []) [])
decode_binary-IsDecoding_example = decode_binary-IsDecoding unmarshal with_path 100 (8 ∷ []) []

-- Errors and messages are numbers.
abbrev running : State ℕ ℕ
running = record {
  messages = make 1;
  statuses = record { capacity = 1; queue = initial_status ∷ []; closed = false };
  done_closed = false;
  status = initial_status;
  started = true;
  finished = false;
  final_err = none;
  finish_called = false;
}

abbrev failed_status : Status ℕ
failed_status = terminal_status (some 7) initial_status

abbrev ended : State ℕ ℕ
ended = record {
  messages = record { capacity = 1; queue = []; closed = true };
  statuses = record { capacity = 1; queue = failed_status ∷ []; closed = true };
  done_closed = true;
  status = failed_status;
  started = true;
  finished = true;
  final_err = some 7;
  finish_called = true;
}

running-Inv : Inv running
running-Inv = record {
  one_status = refl;
  latest = inr refl;
  once = refl;
  statuses_closed = refl;
  messages_closed = refl;
  done_closed = refl;
}

ended-Inv : Inv ended
ended-Inv = record {
  one_status = refl;
  latest = inr refl;
  once = refl;
  statuses_closed = refl;
  messages_closed = refl;
  done_closed = refl;
}

abbrev connect : Status ℕ → Status ℕ
connect status = record status { lifecycle = connected }

abbrev quiet : Drained
quiet = record { before_receive = false; before_send = false }

abbrev join_first : Option ℕ → Option ℕ → Option ℕ
join_first none other = other
join_first (some e) other = some e

set_status-Inv_example :
    (s' : State ℕ ℕ) × (set_status connect quiet running ≡ some s')
    × Inv s'
    × ((running.finished ≡ true) × (s' ≡ running)
        ⊎ (running.finished ≡ false)
          × (s'.status ≡ connect running.status)
          × (s'.statuses.queue ≡ connect running.status ∷ [])
          × (s'.messages ≡ running.messages)
          × (s'.started ≡ running.started)
          × (s'.final_err ≡ running.final_err))
set_status-Inv_example = set_status-Inv connect quiet running running-Inv

apply-Inv_example :
    (apply (changes connect quiet) running ≡ none)
      × (running.finished ≡ true)
      × IsDeliver {E = ℕ} {M = ℕ} (changes connect quiet)
    ⊎ (s' : State ℕ ℕ) × (apply (changes connect quiet) running ≡ some s') × Inv s'
apply-Inv_example = apply-Inv (changes connect quiet) running running-Inv

abbrev later_ops : List (Op ℕ ℕ)
later_ops = begins ∷ changes connect quiet ∷ take_status ∷ finishes join_first none none quiet ∷ []

abbrev ended_drained : State ℕ ℕ
ended_drained = record ended { statuses = record { capacity = 1; queue = []; closed = true } }

later_run : run later_ops ended ≡ some ended_drained
unfolding run apply begin set_status finish try_receive
later_run = refl

wait-ended : wait ended ≡ completion (some 7)
unfolding wait
wait-ended = refl

wait_stable_example :
    (wait ended_drained ≡ completion (some 7)) × (ended_drained.status ≡ ended.status)
wait_stable_example = wait_stable later_ops ended ended-Inv wait-ended later_run
