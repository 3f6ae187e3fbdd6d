-- ===== src/Usb/Session/Steps.antt =====
-- What the operations of usb/session.go do to a session.
use busylib_go.Prelude.{
  ℕ, ◌≤◌, ◌≡◌, ◌⊎◌, inl, inr, refl, sym, ◌∙◌, Bool, true, false, not, List, [], ◌∷◌, ◌++◌, length,
  All, Bool-cases, arith, if◌then◌else◌,
}
use mathlib.Core.Bool.{false≢true}
use busylib_go.Prelude.Bytes.{Bytes}
use busylib_go.Usb.Command.{Text, any_of, breaks_line, build_command}
use busylib_go.Usb.Command.Line.{build_command_lem}
use busylib_go.Usb.Prompt.{
  contains_prompt, ReadResult, ReadOutcome, prompt_found, response_too_large, prompt_not_found,
  still_waiting, read_until_prompt,
}
use busylib_go.Usb.Prompt.Found.{Describes, read_until_prompt-IsRun}
use busylib_go.Usb.Streaming.{
  Turn, Recovery, StreamEnd, completed, broken, streaming, interrupted, stream_output,
  closes_session,
}
use busylib_go.Usb.Session.{
  Session, Outcome, invalid_command, no_writer, session_closed, write_failed, waiting, rebooted,
  closed_by_caller, responded, read_failed, streamed, close_session, write_line, conclude,
  send_line, stream_line, reboot, reboot_line, Operation, closes, reboots, sends, streams, step,
}

-- Outcomes after which a session may be used again.
abbrev pub IsUsable : ℕ → Outcome → Type 0
IsUsable maximum invalid_command = Unit
IsUsable maximum no_writer = Unit
IsUsable maximum waiting = Unit
IsUsable maximum (responded raw) = (contains_prompt raw ≡ true) × (length raw ≤ maximum)
IsUsable maximum (streamed completed) = Unit
IsUsable maximum (streamed streaming) = Unit
IsUsable maximum (streamed (interrupted _)) = Unit
IsUsable maximum (streamed broken) = ⊥
IsUsable maximum session_closed = ⊥
IsUsable maximum write_failed = ⊥
IsUsable maximum rebooted = ⊥
IsUsable maximum closed_by_caller = ⊥
IsUsable maximum (read_failed _ _) = ⊥

-- Nothing was sent, or one line on an open session; and the session is closed now, or was open and
-- may be used again.
abbrev pub IsStep : ℕ → Session → Session × Outcome → Type 0
IsStep maximum s (s', outcome) =
    ((s'.sent ≡ s.sent)
      ⊎ (line : Text) × (s.closed ≡ false)
        × (any_of breaks_line line ≡ false)
        × (s'.sent ≡ s.sent ++ line ∷ []))
    × ((s'.closed ≡ true) ⊎ (s'.closed ≡ false) × (s.closed ≡ false) × IsUsable maximum outcome)

abbrev pub IsScript : Operation → Type 0
IsScript closes = Unit
IsScript reboots = Unit
IsScript (sends _ _ _ reads) = All (λ r. length r.chunk ≤ 4096) reads
IsScript (streams _ _ _ _ _ _) = Unit

closed_session : (s : Session) → (close_session s).closed ≡ true
unfolding close_session
closed_session s = ground arith

sent_session : (s : Session) → (close_session s).sent ≡ s.sent
unfolding close_session
sent_session s = ground arith

module _ (maximum : ℕ) (s : Session) where
  either-IsStep :
      (b : Bool) (x y : Session × Outcome)
      → (b ≡ true → IsStep maximum s x)
      → (b ≡ false → IsStep maximum s y)
      → IsStep maximum s (if b then x else y)
  either-IsStep true x y if_true if_false = if_true refl
  either-IsStep false x y if_true if_false = if_false refl

  -- Nothing was done.
  same-IsStep : (outcome : Outcome) → IsUsable maximum outcome → IsStep maximum s (s, outcome)
  same-IsStep outcome usable = elim (Bool-cases s.closed) [
    | inl shut ↦ (inl refl, inl shut)
    | inr live ↦ (inl refl, inr (live, live, usable))
  ]

module _ (maximum : ℕ) (line : Text) (clean : any_of breaks_line line ≡ false) where
  module _ (s : Session) (is_open : s.closed ≡ false) where
    fails-IsStep :
        (outcome : Outcome) → IsStep maximum s (close_session (write_line line s), outcome)
    fails-IsStep outcome = (
      inr (line, is_open, clean, sent_session (write_line line s)),
      inl (closed_session (write_line line s)),
    )

    stays-IsStep :
        (outcome : Outcome)
        → IsUsable maximum outcome
        → IsStep maximum s (write_line line s, outcome)
    stays-IsStep outcome usable = (inr (line, is_open, clean, refl), inr (is_open, is_open, usable))

    conclude-IsStep :
        (reads : List ReadResult) (raw : Bytes) (outcome : ReadOutcome)
        → Describes maximum reads raw outcome
        → IsStep maximum s (conclude (write_line line s) (raw, outcome))
    unfolding conclude
    conclude-IsStep reads raw prompt_found found = stays-IsStep (responded raw) found
    conclude-IsStep reads raw response_too_large h =
        fails-IsStep (read_failed raw response_too_large)
    conclude-IsStep reads raw prompt_not_found h = fails-IsStep (read_failed raw prompt_not_found)
    conclude-IsStep reads raw still_waiting h = stays-IsStep waiting tt

    ended-IsStep :
        (ended : StreamEnd) (recovery : Recovery)
        → closes_session ended recovery maximum ≡ false
        → IsStep maximum s (write_line line s, streamed ended)
    unfolding closes_session
    ended-IsStep completed recovery h = stays-IsStep (streamed completed) tt
    ended-IsStep streaming recovery h = stays-IsStep (streamed streaming) tt
    ended-IsStep broken recovery h = cc
    ended-IsStep (interrupted cause) recovery h = stays-IsStep (streamed (interrupted cause)) tt

  send_line-IsStep :
      (write_fails : Bool) (reads : List ReadResult) (s : Session)
      → All (λ r. length r.chunk ≤ 4096) reads
      → IsStep maximum s (send_line maximum line write_fails reads s)
  unfolding send_line
  send_line-IsStep write_fails reads s small =
      either-IsStep maximum s s.closed _ _ (λ shut. (inl refl, inl shut))
        (λ live.
          either-IsStep maximum s write_fails _ _ (λ _. fails-IsStep s live write_failed)
            (λ _.
              let (n, _, _, described) = read_until_prompt-IsRun maximum reads small in
              conclude-IsStep s live reads (read_until_prompt reads maximum).0
                (read_until_prompt reads maximum).1 described))

  stream_line-IsStep :
      (has_writer write_fails : Bool) (turns : List Turn) (recovery : Recovery) (s : Session)
      → IsStep maximum s (stream_line maximum line has_writer write_fails turns recovery s)
  unfolding stream_line
  stream_line-IsStep has_writer write_fails turns recovery s =
      let ended = (stream_output turns).1 in
      either-IsStep maximum s (not has_writer) _ _ (λ _. same-IsStep maximum s no_writer tt)
        (λ _.
          either-IsStep maximum s s.closed _ _ (λ shut. (inl refl, inl shut))
            (λ live.
              either-IsStep maximum s write_fails _ _ (λ _. fails-IsStep s live write_failed)
                (λ _.
                  either-IsStep maximum s (closes_session ended recovery maximum) _ _
                    (λ _. fails-IsStep s live (streamed ended))
                    (ended-IsStep s live ended recovery))))

-- The line of an accepted command holds no line break.
clean_line :
    (command : Text) (arguments : List Text)
    → (build_command command arguments).1 ≡ true
    → any_of breaks_line (build_command command arguments).0 ≡ false
clean_line command arguments accepted = elim (build_command_lem command arguments) [
  | inl (_, _, clean) ↦ clean
  | inr (_, refused) ↦ absurd (false≢true (sym refused ∙ accepted))
]

reboot_clean : any_of breaks_line reboot_line ≡ false
unfolding any_of
reboot_clean = refl

-- Every operation sends one line at most, with no line break or NUL in it, and only on an open
-- session; it never opens a session again. Where the session is still open, the operation has not
-- ended in a failed write, a failed read or a stream that broke off, and a response ends in the
-- prompt and fits the maximum. The reads of a sent command return 4096 bytes at most.
pub step-IsStep :
    (maximum : ℕ) (op : Operation) (s : Session)
    → IsScript op
    → IsStep maximum s (step maximum op s)
unfolding step reboot
step-IsStep maximum closes s h = (inl (sent_session s), inl (closed_session s))
step-IsStep maximum reboots s h =
    either-IsStep maximum s s.closed _ _ (λ shut. (inl refl, inl shut))
      (λ live. fails-IsStep maximum reboot_line reboot_clean s live rebooted)
step-IsStep maximum (sends command arguments write_fails reads) s small =
    either-IsStep maximum s (build_command command arguments).1 _ _
      (λ accepted.
        send_line-IsStep maximum (build_command command arguments).0
          (clean_line command arguments accepted) write_fails reads s small)
      (λ _. same-IsStep maximum s invalid_command tt)
step-IsStep maximum (streams command arguments has_writer write_fails turns recovery) s h =
    either-IsStep maximum s (build_command command arguments).1 _ _
      (λ accepted.
        stream_line-IsStep maximum (build_command command arguments).0
          (clean_line command arguments accepted) has_writer write_fails turns recovery s)
      (λ _. same-IsStep maximum s invalid_command tt)
