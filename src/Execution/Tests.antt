-- ===== src/Execution/Tests.antt =====
-- A run that is stopped by its user, and the theorems on attempts applied to it.
use angelus.Prelude.{
  ℕ, map, ◌≤◌, ◌≡◌, refl, true, false, Option, some, none, is_some, List, [], ◌∷◌, String, ok,
  length, keep, arith,
}
use angelus.Execution.Trace.{
  WriteOutcome, written, unencodable, synced, no_directory, fails_after, dead, TraceBuffer,
  open_buffer, flush_locked, append, flush, close, tick,
}
use angelus.Execution.Durability.{records, IsRun, Holds}
use angelus.Execution.Retention.{
  TraceCall, append_call, flush_call, tick_call, run_call, run_calls, nothing_lost, close_durable,
}
use angelus.Execution.Types.{running, stopped, StopRequest, Controller, is_live}
use angelus.Execution.Attempt.{
  ExecutionAttempt, new_attempt, snapshot, start, launched, transition, request_stop, run_returned,
  run_finally, release,
}
use angelus.Execution.Steps.{Step, Reach, IsSound}
use angelus.Execution.Outcomes.{Reach-IsSound}
use angelus.Execution.Final.{final_snapshot}
use angelus.Execution.Moves.{moves, Reach-moves}
use angelus.Execution.Stopping.{is_stopped, stop_wins}
use angelus.Execution.Executor.{SessionExecutor, new_executor}
use angelus.Execution.Executor
use angelus.Execution.Hosts.{Host, after_start, HostStep, HostReach, attempts}
use angelus.Execution.Serial.{one_live}
use angelus.Execution.Shutdown.{force_stop, request_force_stop_all, settle}
use angelus.Execution.Settled.{IsSettled, shutdown_settles}
use angelus.Execution.Reconcile.{Stored, reconcile_interrupted_attempts}
use angelus.Execution.Restart.{on_disk, killed_unseen}

-- A controller that keeps the last request.
abbrev controller : Controller
controller = record {
  C = Option StopRequest;
  fresh = none;
  request_stop = λ c mode reason.
      let request : StopRequest = record { mode = mode; reason = reason; requested_at = 7 } in
      (some request, request);
  should_stop = is_some;
  stop_request = λ c. c;
  stops = λ c mode reason. refl;
}

abbrev Attempt : Type 0
Attempt = ExecutionAttempt (Option StopRequest) String String

abbrev idle_attempt : Attempt
idle_attempt = new_attempt controller "s" 1 "e1"

abbrev running_attempt : Attempt
running_attempt = transition controller running (launched controller 5 idle_attempt)

abbrev stopping_attempt : Attempt
stopping_attempt = (request_stop controller false "user" running_attempt).0

abbrev returned_attempt : Attempt
returned_attempt = run_returned controller "out" stopping_attempt

abbrev done_attempt : Attempt
done_attempt = release controller (run_finally controller 9 synced "" returned_attempt)

begins : start controller 5 idle_attempt ≡ some (launched controller 5 idle_attempt)
unfolding start new_attempt
begins = refl

running_path : Reach controller idle_attempt running_attempt
unfolding transition new_attempt
running_path =
    Reach.next (Reach.next Reach.here (Step.starts 5 begins))
      (Step.transitions running refl (λ p. cc))

stopping_path : Reach controller stopping_attempt returned_attempt
unfolding transition new_attempt request_stop
stopping_path = Reach.next Reach.here (Step.returns "out" refl)

done_path : Reach controller idle_attempt done_attempt
unfolding transition new_attempt request_stop run_returned run_finally
done_path =
    Reach.next
      (Reach.next
        (Reach.next (Reach.next running_path (Step.stops false "user")) (Step.returns "out" refl))
        (Step.finishes 9 synced "" refl))
      (Step.releases refl)

Reach-IsSound_example : IsSound done_attempt
Reach-IsSound_example = Reach-IsSound controller "s" 1 "e1" done_path

-- The run ends as stopped, and is done.
stopped_run : (done_attempt.state ≡ stopped) × (done_attempt.done ≡ true)
unfolding new_attempt transition request_stop run_returned run_finally release
stopped_run = (refl, refl)

late_path : Reach controller done_attempt (request_stop controller true "late" done_attempt).0
late_path = Reach.next Reach.here (Step.stops true "late")

final_snapshot_example :
    snapshot controller (request_stop controller true "late" done_attempt).0
    ≡ snapshot controller done_attempt
final_snapshot_example = final_snapshot controller "s" 1 "e1" done_path (stopped_run.1) late_path

Reach-moves_example : moves idle_attempt.state done_attempt.state ≡ true
Reach-moves_example = Reach-moves controller done_path

stop_wins_example :
    (is_some returned_attempt.controller ≡ true) × (is_stopped returned_attempt.state ≡ true)
unfolding transition new_attempt request_stop run_returned
stop_wins_example =
    stop_wins controller false "user" running_attempt returned_attempt refl refl stopping_path refl

abbrev executor : SessionExecutor (Option StopRequest) String String
executor = record { session_id = "s"; attempt_number = 0; attempt = none }

created : new_executor controller "s" ≡ ok executor
unfolding new_executor
created = refl

abbrev host : Host (Option StopRequest) String String
host = record { executor = executor; retired = [] }

abbrev begun_host : Host (Option StopRequest) String String
begun_host = after_start host (Executor.start controller none "e1" 5 executor)

host_path : HostReach controller host begun_host
host_path = HostReach.next HostReach.here (HostStep.begins none "e1" 5 λ a e. e)

one_live_example :
    (length (keep (λ a. is_live a.state) (attempts controller begun_host)) ≤ 1)
    × (begun_host.executor.attempt_number ≡ length (attempts controller begun_host))
one_live_example = one_live controller "s" executor begun_host created host_path

abbrev flushed : String → WriteOutcome × String
flushed id = (no_directory, "disk full")

abbrev named : List String
named = (request_force_stop_all controller "sigint" (running_attempt ∷ [])).1

shutdown_settles_example : IsSettled controller (
    settle controller 9 "sigint" named flushed
      (force_stop controller "sigint" named running_attempt))
unfolding transition new_attempt
shutdown_settles_example =
    shutdown_settles controller "s" 1 "e1" "sigint" running_attempt
      (force_stop controller "sigint" named running_attempt) [] [] 9 flushed running_path refl
      Reach.here

abbrev stored : List Stored
stored = on_disk stopping_attempt ∷ on_disk done_attempt ∷ []

-- The attempt that was stopping is found, the one that is done is not.
reconcile_run : (reconcile_interrupted_attempts 10 stored).1 ≡ "e1" ∷ []
unfolding new_attempt transition request_stop run_returned run_finally release
    reconcile_interrupted_attempts
reconcile_run = refl

killed_unseen_example :
    reconcile_interrupted_attempts 10 (on_disk running_attempt ∷ [])
    ≡ (on_disk running_attempt ∷ [], [])
killed_unseen_example =
    killed_unseen controller 5 10 idle_attempt (launched controller 5 idle_attempt) (running ∷ [])
      begins

-- Failed writes in the middle of a run.
abbrev calls : List (TraceCall String)
calls =
    append_call (written synced) "a"
    ∷ append_call (written (fails_after 1 false)) "b"
    ∷ tick_call (written (fails_after 0 false))
    ∷ flush_call (written synced)
    ∷ append_call (written synced) "c"
    ∷ []

nothing_lost_example :
    Holds 2 (records (run_calls calls (open_buffer 2)).file)
    × IsRun
        (run_calls calls (open_buffer 2)).last_committed_sequence
        (run_calls calls (open_buffer 2)).pending
        (run_calls calls (open_buffer 2)).sequence
unfolding run_calls run_call open_buffer append flush tick flush_locked
nothing_lost_example = nothing_lost calls 2 2 refl (omega arith) (omega arith)

close_durable_example :
    Holds 3 (records (close (written synced) (run_calls calls (open_buffer 2))).0.file)
unfolding run_calls run_call open_buffer append flush tick flush_locked close
close_durable_example =
    close_durable calls 2 (written synced) 3 refl refl refl (omega arith) (omega arith)

abbrev numbers : TraceBuffer String → List ℕ
numbers b = map (λ e. e.sequence) (records b.file)

-- A directory that cannot be made loses its batch, and a torn line the record behind it: the second
-- write commits number 2, but number 1 is nowhere.
lost_run :
    let b =
      run_calls {D = String}
        (append_call (written no_directory) "a" ∷ append_call (written synced) "b" ∷ [])
        (open_buffer 1) in
    (b.last_committed_sequence ≡ 2) × (numbers b ≡ 2 ∷ []) × (b.pending ≡ [])
unfolding run_calls run_call open_buffer append flush_locked
lost_run = (refl, refl, refl)

glued_run :
    let b =
      run_calls {D = String}
        (append_call (written (fails_after 0 true)) "a" ∷ append_call (written synced) "b" ∷ [])
        (open_buffer 1) in
    (b.last_committed_sequence ≡ 2) × (numbers b ≡ 2 ∷ []) × (b.pending ≡ [])
unfolding run_calls run_call open_buffer append flush_locked
glued_run = (refl, refl, refl)

-- An error that is no `OSError` ends the flusher, and the buffer records no failure.
flusher_run :
    let b =
      run_calls {D = String}
        (append_call (written synced) "a" ∷ tick_call (unencodable 0) ∷ [])
        (open_buffer 2) in
    (b.flusher ≡ dead) × (b.failed ≡ false) × (b.pending ≡ [])
unfolding run_calls run_call open_buffer append tick flush_locked
flusher_run = (refl, refl, refl)
