-- ===== src/Tests/Ends.antt =====
-- Two callers of `stop`.
use high_performance_gaming.Common.{true, false}
use high_performance_gaming.Common.Array.{update}
use high_performance_gaming.Lifecycle.{
  begin_stop, mark_complete, at_plane, at_mark, at_return, Shutdown, running, begun,
}

abbrev one_call : Shutdown
one_call = begun 0 (begin_stop (running true true).lifecycle) (running true true)

abbrev two_calls : Shutdown
two_calls = begun 1 (begin_stop one_call.lifecycle) one_call

abbrev forward_stopped : Shutdown
forward_stopped = record two_calls { calls = update two_calls.calls 0 at_plane; forward_stops = 1 }

abbrev planes_stopped : Shutdown
planes_stopped = record forward_stopped {
  calls = update forward_stopped.calls 0 at_mark;
  plane_stops = 1;
}

abbrev completed : Shutdown
completed = record planes_stopped {
  calls = update planes_stopped.calls 0 at_return;
  lifecycle = mark_complete planes_stopped.lifecycle;
}

abbrev ended : Shutdown
ended = record completed {
  is_waiting = false;
  is_destroyed = true;
  forward_again = 1;
  plane_again = 1;
}
