-- ===== src/Stream/Local/Live.antt =====
-- Changes of the status on a stream that has not ended.
use busylib_go.Prelude.{◌≡◌, inl, inr, refl, sym, ap, ◌∙◌, Bool, true, false, some}
use busylib_go.Stream.Types.{Status}
use busylib_go.Stream.State.{Drained}
use busylib_go.Stream.State.Invariant.{Inv, set_status-Inv}
use busylib_go.Stream.Local.{Local, Failure, change_status, with_state}

pub true_ne_false : {b : Bool} → b ≡ true → b ≡ false → ⊥
true_ne_false yes_it_is no_it_is = cc

module _ {E M C : Type 0} where
  -- The stream has not ended, and its state keeps the invariant.
  pub record IsLive (w : Local E M C) : Type 0 where
    pub invariant : Inv w.state
    pub live : w.state.finished ≡ false

  -- Only the status and the connection may differ.
  pub record IsKept (w w' : Local E M C) : Type 0 where
    pub kept_live : IsLive w'
    pub messages : w'.state.messages ≡ w.state.messages
    pub started : w'.state.started ≡ w.state.started

  pub IsKept-trans : (u v w : Local E M C) → IsKept u v → IsKept v w → IsKept u w
  IsKept-trans u v w a b = record {
    kept_live = b.kept_live;
    messages = b.messages ∙ a.messages;
    started = b.started ∙ a.started;
  }

  pub change_status_lem :
      (change : Status (Failure E) → Status (Failure E)) (drained : Drained) (w : Local E M C)
      → IsLive w
      → (w' : Local E M C) × (change_status change drained w ≡ some w')
        × IsKept w w'
        × (w'.state.status ≡ change w.state.status)
        × (w'.connection ≡ w.connection)
  change_status_lem change drained w l =
      let (s', same, v, ends) = set_status-Inv change drained w.state l.invariant in
      elim ends [
        | inl (over, _) ↦ absurd (true_ne_false over l.live)
        | inr (_, status, _, messages, started, _) ↦ (
          record w { state = s' },
          ap (with_state w) same,
          record {
            kept_live = record {
              invariant = v;
              live =
                  sym v.messages_closed
                  ∙ ap (λ c. c.closed) messages
                  ∙ l.invariant.messages_closed
                  ∙ l.live;
            };
            messages = messages;
            started = started;
          },
          status,
          refl,
        )
      ]
