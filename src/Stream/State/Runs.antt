-- ===== src/Stream/State/Runs.antt =====
-- Interleavings of the operations of internal/streamstate/state.go with its consumers.
use busylib_go.Prelude.{
  ◌≡◌, ◌⊎◌, inl, inr, refl, ◌∙◌, Bool, true, List, [], ◌∷◌, Option, none, some, arith,
}
use busylib_go.Stream.Types.{Status}
use busylib_go.Stream.Channel.{try_receive}
use busylib_go.Stream.State.{
  State, Drained, Delivery, completion, begin, stop_before_start, set_status, deliver, finish, wait,
  ◌>>=◌,
}
use busylib_go.Stream.State.Invariant.{Inv, set_status-Inv, finish-Inv, deliver-Inv}

-- What a transport, a caller or a consumer does next.
pub data Op (E M : Type 0) : Type 0 where
  begins stops take_status take_message : Op E M
  changes : (Status E → Status E) → Drained → Op E M
  delivers : Option E → Bool → M → E → Op E M
  finishes : (Option E → Option E → Option E) → Option E → Option (Option E) → Drained → Op E M

module _ {E M : Type 0} where
  abbrev forget : Option (State E M × Delivery E) → Option (State E M)
  forget none = none
  forget (some (s, d)) = some s

  unfoldable pub apply : Op E M → State E M → Option (State E M)
  apply begins s = some (begin s).0
  apply stops s = some (stop_before_start s).0
  apply take_status s = some (record s { statuses = try_receive s.statuses })
  apply take_message s = some (record s { messages = try_receive s.messages })
  apply (changes change drained) s = set_status change drained s
  apply (delivers ctx_err prefers_send message slow) s =
      forget (deliver ctx_err prefers_send message slow s)
  apply (finishes join terminal cleanup drained) s = finish join terminal cleanup drained s

  unfoldable pub run : List (Op E M) → State E M → Option (State E M)
  run [] s = some s
  run (op ∷ ops) s = apply op s >>= run ops

  abbrev pub IsDeliver : Op E M → Type 0
  IsDeliver (delivers _ _ _ _) = Unit
  IsDeliver _ = ⊥

  -- A state that an operation leads to keeps the invariant, and once the stream is finished its
  -- outcome, status and start are settled.
  abbrev Keeps : State E M → State E M → Type 0
  Keeps s s' =
      Inv s'
      × (s.finished ≡ true
          → (s'.finished ≡ true) × (s'.final_err ≡ s.final_err) × (s'.status ≡ s.status))
      × (s.started ≡ true → s'.started ≡ true)

  abbrev Outcome : Op E M → State E M → Option (State E M) → Type 0
  Outcome op s none = (s.finished ≡ true) × IsDeliver op
  Outcome op s (some s') = Keeps s s'

  Keeps-same : (s s' : State E M) → Inv s → s' ≡ s → Keeps s s'
  Keeps-same s s' v e = rw e (v, (λ f. (f, refl, refl)), λ t. t)

  apply-Outcome : (op : Op E M) (s : State E M) → Inv s → Outcome op s (apply op s)
  unfolding apply begin stop_before_start try_receive
  apply-Outcome begins s v = ground arith
  apply-Outcome stops s v = ground arith
  apply-Outcome take_status s v = ground arith
  apply-Outcome take_message s v = ground arith
  apply-Outcome (changes change drained) s v =
      let (s', same, v', ends) = set_status-Inv change drained s v in
      elim ends [
        | inl (over, still) ↦ rw same (Keeps-same s s' v still)
        | inr (live, _, _, _, start, _) ↦ rw same (v', (λ f. cc), λ t. start ∙ t)
      ]
  apply-Outcome (delivers ctx_err prefers_send message slow) s v =
      elim (deliver-Inv ctx_err prefers_send message slow s v) [
        | inl (over, _, panics) ↦ rw panics (over, tt)
        | inr (_, (s', d, same, v', ends)) ↦ elim ends [
          | inl (_, live, _, _, _, start) ↦ rw same (v', (λ f. cc), λ t. start ∙ t)
          | inr (_, still) ↦ rw same (Keeps-same s s' v still)
        ]
      ]
  apply-Outcome (finishes join terminal cleanup drained) s v =
      let (s', same, v', over', ends) = finish-Inv join terminal cleanup drained s v in
      elim ends [
        | inl (over, still) ↦ rw same (Keeps-same s s' v still)
        | inr (live, _, _, _, _, start) ↦ rw same (v', (λ f. cc), λ t. start ∙ t)
      ]

  -- No operation panics on a state that keeps the invariant but a delivery after the end, and every
  -- other one leads to a state that keeps it again.
  pub apply-Inv :
      (op : Op E M) (s : State E M)
      → Inv s
      → (apply op s ≡ none) × (s.finished ≡ true) × IsDeliver op
        ⊎ (s' : State E M) × (apply op s ≡ some s') × Inv s'
  apply-Inv op s v = by_outcome (apply op s) refl (apply-Outcome op s v)
    where
      by_outcome :
          (r : Option (State E M))
          → apply op s ≡ r
          → Outcome op s r
          → (apply op s ≡ none) × (s.finished ≡ true) × IsDeliver op
            ⊎ (s' : State E M) × (apply op s ≡ some s') × Inv s'
      by_outcome none e (over, late) = inl (e, over, late)
      by_outcome (some s') e (v', _, _) = inr (s', e, v')

  Keeps-trans : (s t u : State E M) → Keeps s t → Keeps t u → Keeps s u
  Keeps-trans s t u (_, settled, begun) (v, settled', begun') = (
    v,
    λ f. let (f', e, st) = settled f in let (f'', e', st') = settled' f' in (f'', e' ∙ e, st' ∙ st),
    λ b. begun' (begun b),
  )

  -- One operation in front of a run.
  run-Keeps_cons :
      (op : Op E M) (ops : List (Op E M)) (s : State E M) {s' : State E M} (r : Option (State E M))
      → ((s1 : State E M) → Inv s1 → run ops s1 ≡ some s' → Keeps s1 s')
      → Outcome op s r
      → (r >>= run ops) ≡ some s'
      → Keeps s s'
  run-Keeps_cons op ops s none rest o h = cc
  run-Keeps_cons op ops s (some s1) rest o h = Keeps-trans s s1 _ o (rest s1 o.0 h)

  run-Keeps :
      (ops : List (Op E M)) (s : State E M) {s' : State E M}
      → Inv s
      → run ops s ≡ some s'
      → Keeps s s'
  unfolding run
  run-Keeps [] s {s' = s'} v h = Keeps-same s s' v (ground arith)
  run-Keeps (op ∷ ops) s {s' = s'} v h =
      run-Keeps_cons op ops s (apply op s) (λ s1 v1 e. run-Keeps ops s1 {s' = s'} v1 e)
        (apply-Outcome op s v) h

  -- What Wait returns never changes: from a state that keeps the invariant and in which it returns a
  -- completion, it returns that after any further operations of the transport, the callers and the
  -- consumers that run without a panic, and the status stays what it was.
  pub wait_stable :
      (ops : List (Op E M)) (s : State E M) {s' : State E M} {e : Option E}
      → Inv s
      → wait s ≡ completion e
      → run ops s ≡ some s'
      → (wait s' ≡ completion e) × (s'.status ≡ s.status)
  unfolding wait
  wait_stable ops s v w h = let (v', settled, begun) = run-Keeps ops s v h in ground arith
