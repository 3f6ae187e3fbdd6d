-- ===== src/Stream/Channel.antt =====
-- Go's buffered channels, as internal/streamstate/state.go uses them: a `select` with a default.
use busylib_go.Prelude.{
  ℕ, Bool, true, false, List, [], ◌∷◌, ◌++◌, Option, none, some, ltb, if◌then◌else◌, length,
}

pub record Channel (A : Type 0) : Type 0 where
  pub capacity : ℕ
  pub queue : List A
  pub closed : Bool

module _ {A : Type 0} where
  abbrev pub make : ℕ → Channel A
  make capacity = record { capacity = capacity; queue = []; closed = false }

  -- A send on a closed channel panics: `none`. Otherwise the value is queued where there is room.
  unfoldable pub try_send : A → Channel A → Option (Channel A × Bool)
  try_send a c =
      if c.closed
      then none
      else if ltb (length c.queue) c.capacity
      then some (record c { queue = c.queue ++ a ∷ [] }, true)
      else some (c, false)

  abbrev pub pop_front : List A → List A
  pop_front [] = []
  pop_front (_ ∷ queue) = queue

  -- A receive takes the oldest value, if there is one.
  unfoldable pub try_receive : Channel A → Channel A
  try_receive c = record c { queue = pop_front c.queue }

  -- Closing a closed channel panics.
  unfoldable pub close : Channel A → Option (Channel A)
  close c = if c.closed then none else some (record c { closed = true })
