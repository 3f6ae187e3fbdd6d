-- ===== src/Client/Execute/Retries.antt =====
-- Which requests of executePreparedWith in request.go go out again, and that its loop ends.
use busylib_go.Prelude.{
  one_if, one_if-le, ℕ, zero, suc, ◌+◌, ◌≤◌, ◌<◌, ◌≡◌, refl, ap, true, false, Option, none, some,
  Result, ok, err, arith, All-drop,
}
use busylib_go.Prelude.Bytes.{Bytes}
use busylib_go.Client.Prepare.{ClientConfig, map_error}
use busylib_go.Client.Execute.{
  HttpResponse, CallError, body_failed, failed_with, ExecutionResult, Execution, Round, Run,
  can_retry_compatibility, max_attempts_of, offered,
}
use busylib_go.Client.Execute.Attempts.{
  again, done, Handler, opened, made, sent, send_once, received, turn, run_turns, first_run,
  execute_prepared_with,
}
use busylib_go.Client.Execute.Repeats.{
  IsReturned, max_attempts_of-positive, IsRepeated, answers-drop, IsBegun, IsOver, TurnGood,
  more_than_one, is_version_path-no, unanswered-Good, answered-Good,
}

module _ {E : Type 0} (c : ClientConfig) (x : Execution E) (lower_rune : ℕ → ℕ) where
  abbrev begun_turn : Run E → Run E
  begun_turn run = opened (record run { attempts = suc run.attempts })

  unsent-IsOver : (run : Run E) → IsBegun c x run → IsOver c x (begun_turn run)
  unsent-IsOver run begun = record {
    bounded = omega (arith, begun.bounded);
    opened_each = omega (arith, begun.opened_each);
    repeatable = begun.repeatable;
    earlier = All-drop (IsRepeated c x) 1 run.log begun.earlier;
    once = omega (arith, answers-drop c x run.log, begun.once, one_if-le run.retried);
  }

  unsent-IsBegun :
      (run : Run E)
      → IsBegun c x run
      → suc run.attempts < max_attempts_of c x
      → IsBegun c x (begun_turn run)
  unsent-IsBegun run begun below = record {
    bounded = omega (arith, below);
    opened_each = omega (arith, begun.opened_each);
    repeatable = begun.repeatable;
    earlier = begun.earlier;
    once = begun.once;
  }

  module _ (run : Run E) (content : Option Bytes) (begun : IsBegun c x run) where
    abbrev offered_turn : Result E (HttpResponse E) → Run E
    offered_turn answer = offered (begun_turn run) run.header x.body content answer

    offered-IsOver : (answer : Result E (HttpResponse E)) → IsOver c x (offered_turn answer)
    offered-IsOver answer = record {
      bounded = omega (arith, begun.bounded);
      opened_each = omega (arith, begun.opened_each);
      repeatable = begun.repeatable;
      earlier = begun.earlier;
      once = omega (arith, begun.once, one_if-le run.retried);
    }

    unanswered-IsBegun :
        (e : E) → suc run.attempts < max_attempts_of c x → IsBegun c x (offered_turn (err e))
    unanswered-IsBegun e below = record {
      bounded = omega (arith, below);
      opened_each = omega (arith, begun.opened_each);
      repeatable = begun.repeatable;
      earlier = (more_than_one c x (suc run.attempts) (omega arith) below, begun.earlier);
      once = begun.once;
    }

    fresh_of :
        (r : HttpResponse E)
        → can_retry_compatibility c x.path r.status run.retried ≡ true
        → run.retried ≡ false
    fresh_of r can = ground (arith, can)

    retried-IsBegun :
        (r : HttpResponse E)
        → can_retry_compatibility c x.path r.status run.retried ≡ true
        → x.body.repeatable ≡ true
        → IsBegun c x (record (offered_turn (ok r)) { retried = true })
    retried-IsBegun r can readable = record {
      bounded = omega (arith, begun.bounded, ap one_if (fresh_of r can));
      opened_each = omega (arith, begun.opened_each);
      repeatable = λ _. readable;
      earlier = (
        (
          readable,
          ground (arith, can),
          is_version_path-no x.path (ground (arith, can)),
          ground (arith, can),
        ),
        begun.earlier,
      );
      once = omega (arith, begun.once, ap one_if (fresh_of r can));
    }

    module _ (handler : Handler E) (round : Round E) where
      offered-Good :
          (answer : Result E (HttpResponse E))
          → TurnGood c x handler (suc run.attempts) (
              received lower_rune c handler x round
                (offered_turn answer, map_error failed_with answer))
      offered-Good (err e) =
          unanswered-Good c x handler (offered_turn (err e)) round (failed_with e)
            round.context_error (offered-IsOver (err e)) (unanswered-IsBegun e)
      offered-Good (ok r) =
          answered-Good c x lower_rune handler round (offered_turn (ok r)) r (offered-IsOver (ok r))
            refl (retried-IsBegun r)

      unsent-Good :
          (e : CallError E)
          → TurnGood c x handler
              (suc run.attempts)
              (received lower_rune c handler x round (begun_turn run, err e))
      unsent-Good e =
          unanswered-Good c x handler (begun_turn run) round e round.context_error
            (unsent-IsOver run begun) (unsent-IsBegun run begun)

  -- Each turn keeps what the loop keeps, or ends it right.
  turn-Good :
      (handler : Handler E) (round : Round E) (run : Run E)
      → IsBegun c x run
      → TurnGood c x handler (suc run.attempts) (turn lower_rune c handler x round run)
  unfolding turn send_once
  turn-Good handler round run begun =
      elim (x.body.open_body run.openings)
        as (λ o.
          TurnGood c x handler (suc run.attempts)
            (received lower_rune c handler x round (sent x (begun_turn run) round o))) [
              | err e ↦ unsent-Good run none begun handler round (body_failed e)
              | ok content ↦
                  elim round.new_request
                    as (λ n. TurnGood c x handler (suc run.attempts) (
                      received lower_rune c handler x round
                        (made x (begun_turn run) content round n))) [
                          | none ↦ offered-Good run content begun handler round round.reply
                          | some e ↦ unsent-Good run content begun handler round (failed_with e)
                        ]
            ]

  IsBegun-first_run : IsBegun c x (first_run x)
  IsBegun-first_run = record {
    bounded = omega (arith, max_attempts_of-positive c x);
    opened_each = omega arith;
    repeatable = λ e. cc;
    earlier = tt;
    once = refl;
  }

  -- The loop ends within the fuel, and right.
  run_turns-IsOver :
      (handler : Handler E) (rounds : ℕ → Round E) (fuel : ℕ) (run : Run E)
      → IsBegun c x run
      → suc (max_attempts_of c x) ≤ fuel + run.attempts
      → (last : Run E) × (result : ExecutionResult E) × (run_turns lower_rune c handler x rounds
            fuel run
          ≡ some (last, result))
        × IsOver c x last
        × IsReturned c x handler last result
  unfolding run_turns
  run_turns-IsOver handler rounds zero run begun enough =
      absurd (omega (arith, begun.bounded, enough, one_if-le run.retried))
  run_turns-IsOver handler rounds (suc fuel) run begun enough =
      elim (turn lower_rune c handler x (rounds run.attempts) run)
          as (λ t.
            TurnGood c x handler (suc run.attempts) t
            → (last : Run E) × (result : ExecutionResult E) × (elim t [
              | again next ↦ run_turns lower_rune c handler x rounds fuel next
              | done last result ↦ some (last, result)
            ]
                ≡ some (last, result))
              × IsOver c x last
              × IsReturned c x handler last result) [
                | again next ↦ λ (good, count).
                    run_turns-IsOver handler rounds fuel next good (omega (arith, count, enough))
                | done last result ↦ λ (over, returned). (last, result, refl, over, returned)
              ]
        (turn-Good handler (rounds run.attempts) run begun)

  -- A call ends, after at most one attempt more than are allowed: one where the method is not safe or the
  -- body does not open again, and the client's number otherwise. Every request sent before the last has a
  -- body that opens again; one that got no response has the method GET, HEAD or OPTIONS, and one that
  -- got a response got 405, where versions are negotiated and the path is not /api/version. One request
  -- at most before the last got a response. A response that the call returns is what the handler makes of the
  -- answer to the last request, whose status is under 400.
  pub execute_prepared_with-IsOver :
      (handler : Handler E) (rounds : ℕ → Round E)
      → (last : Run E) × (result : ExecutionResult E) × (execute_prepared_with lower_rune c handler
            x rounds
          ≡ some (last, result))
        × IsOver c x last
        × IsReturned c x handler last result
  unfolding execute_prepared_with
  execute_prepared_with-IsOver handler rounds =
      run_turns-IsOver handler rounds (suc (max_attempts_of c x)) (first_run x) IsBegun-first_run
        (omega arith)
