-- ===== src/Stream/Manager/Tests.antt =====
-- Inputs for the theorems on the stream manager.
use live.Prelude.{
  ◌+◌, ◌*◌, ◌≡◌, refl, arith, Bool, true, false, Bytes, [], ◌∷◌, none, some, codes, bytes_eq,
}
use live.Stream.Effects.{
  inc, stream_gauge, stream_up, publish_gauge, forward_event, publish_up, count, is_dec,
  is_stream_down,
}
use live.Stream.Forward.{Session, Forward}
use live.Stream.Forward.Lifecycle.{IsForward}
use live.Stream.Manager.{Manager, lookup, publish}
use live.Stream.Manager.Ticks.{publish_expired, candidates, remove_streams}
use live.Stream.Manager.Expiry.{remove_streams-gauge, publish_check-keeps, publish_check-removes}
use live.Stream.Manager.Invariant.{IsManager}
use live.Stream.Manager.Steps.{Step-IsManager, published}

abbrev publisher : Session
publisher = record { id = codes "p1"; create_at = 5; cascade = none }

-- A stream with a publisher,
abbrev live_stream : Forward
live_stream = record {
  stream = codes "a";
  create_at = 1;
  publish_leave_at = 0;
  subscribe_leave_at = 1;
  publish = some publisher;
  publish_tracks = [];
  subscribe_group = [];
  log = inc publish_gauge ∷ forward_event publish_up (codes "p1") ∷ [];
}

live_stream-IsForward : IsForward live_stream
live_stream-IsForward = record {
  publish_shown = refl;
  subscribe_shown = refl;
  reforward_shown = refl;
  publishing = λ e. refl;
  subscribed = λ e. cc;
  targeted = tt;
}

-- and one whose publisher left at 10.
abbrev left_stream : Forward
left_stream = record live_stream {
  stream = codes "b";
  publish_leave_at = 10;
  publish = none;
  log = [];
}

left_stream-IsForward : IsForward left_stream
left_stream-IsForward = record {
  publish_shown = refl;
  subscribe_shown = refl;
  reforward_shown = refl;
  publishing = λ e. cc;
  subscribed = λ e. cc;
  targeted = tt;
}

abbrev two_streams : Manager
two_streams = record {
  auto_create_pub = true;
  auto_create_sub = false;
  cascade_push_close_sub = false;
  streams = (codes "a", live_stream) ∷ (codes "b", left_stream) ∷ [];
  log = inc stream_gauge ∷ stream_up (codes "b") ∷ inc stream_gauge ∷ stream_up (codes "a") ∷ [];
}

two_streams-IsManager : IsManager two_streams
unfolding lookup bytes_eq
two_streams-IsManager = record {
  distinct = (refl, (refl, tt));
  forwards = (live_stream-IsForward, (left_stream-IsForward, tt));
  told = refl;
  raised = refl;
}

abbrev all_close : Bytes → Bool
all_close _ = true

Step-IsManager_example : IsManager (publish 20 (codes "c") (some publisher) two_streams).1
Step-IsManager_example =
    Step-IsManager two_streams (publish 20 (codes "c") (some publisher) two_streams).1
      two_streams-IsManager (published 20 (codes "c") (some publisher))

publish_check-keeps_example :
    lookup
      (codes "a")
      (remove_streams
        (publish_expired 100 30)
        all_close
        (codes "a" ∷ codes "b" ∷ [])
        two_streams).streams
    ≡ some live_stream
unfolding lookup bytes_eq
publish_check-keeps_example =
    publish_check-keeps 100 30 all_close (codes "a" ∷ codes "b" ∷ []) (codes "a") live_stream
      two_streams live_stream-IsForward refl refl

publish_check-removes_example :
    lookup
      (codes "b")
      (remove_streams
        (publish_expired 101 30)
        all_close
        (candidates (publish_expired 100 30) two_streams.streams)
        two_streams).streams
    ≡ none
unfolding lookup bytes_eq
publish_check-removes_example =
    publish_check-removes 100 101 30 all_close (codes "b") left_stream two_streams (omega arith)
      (omega arith) (omega arith) refl

remove_streams-gauge_example :
    count
        (is_dec stream_gauge)
        (remove_streams (publish_expired 100 30) all_close (codes "b" ∷ []) two_streams).log
      + 2 * count is_stream_down two_streams.log
    ≡ count (is_dec stream_gauge) two_streams.log
      + 2
        * count is_stream_down
            (remove_streams (publish_expired 100 30) all_close (codes "b" ∷ []) two_streams).log
remove_streams-gauge_example =
    remove_streams-gauge (publish_expired 100 30) all_close (codes "b" ∷ []) two_streams
