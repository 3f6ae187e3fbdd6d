-- ===== src/Stream/State/Delivered.antt =====
-- What a delivery leaves as it is.
use busylib_go.Prelude.{◌≡◌, Bool, true, false, Option, none, some, arith}
use busylib_go.Stream.Channel.{try_send}
use busylib_go.Stream.State.{State, Delivery, send_or, deliver}

pub deliver-finished :
    {E M : Type 0} (ctx_err : Option E) (prefers_send : Bool) (message : M) (slow : E)
    (s : State E M) {s' : State E M} {d : Delivery E}
    → deliver ctx_err prefers_send message slow s ≡ some (s', d)
    → (s'.finished ≡ s.finished) × (s'.started ≡ s.started)
unfolding deliver send_or try_send
deliver-finished none prefers_send message slow s e = ground arith
deliver-finished (some x) true message slow s e = ground arith
deliver-finished (some x) false message slow s e = ground arith
