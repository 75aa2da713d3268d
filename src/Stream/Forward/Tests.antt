-- ===== src/Stream/Forward/Tests.antt =====
-- Inputs for the theorem on a stream's sessions.
use live.Prelude.{ℕ, true, ◌≡◌, refl, List, [], ◌∷◌, none, some, codes, bytes_eq}
use live.Stream.Effects.{
  inc, forward_event, subscribe_gauge, reforward_gauge, subscribe_up, reforward_up,
}
use live.Stream.Forward.{
  Session, Forward, PublishTrack, done, remove_subscribe, publish_track_up, take_out,
}
use live.Stream.Forward.Lifecycle.{IsForward, SessionStep-IsForward, subscriber_removed}

abbrev cascade_session : Session
cascade_session = record {
  id = codes "s1";
  create_at = 5;
  cascade = some (record {
    source_url = none;
    target_url = some (codes "http://other/whip/a");
    token = none;
    session_url = none;
  });
}

-- A stream with one subscription, which passes it on.
abbrev pushed_stream : Forward
pushed_stream = record {
  stream = codes "a";
  create_at = 1;
  publish_leave_at = 0;
  subscribe_leave_at = 0;
  publish = none;
  publish_tracks = [];
  subscribe_group = cascade_session ∷ [];
  log =
      inc subscribe_gauge
      ∷ forward_event subscribe_up (codes "s1")
      ∷ inc reforward_gauge
      ∷ forward_event reforward_up (codes "s1")
      ∷ [];
}

pushed_stream-IsForward : IsForward pushed_stream
pushed_stream-IsForward = record {
  publish_shown = refl;
  subscribe_shown = refl;
  reforward_shown = refl;
  publishing = λ e. cc;
  subscribed = λ e. refl;
  targeted = (refl, tt);
}

SessionStep-IsForward_example : IsForward (remove_subscribe 9 (codes "s1") pushed_stream).1
SessionStep-IsForward_example =
    SessionStep-IsForward pushed_stream (remove_subscribe 9 (codes "s1") pushed_stream).1
      pushed_stream-IsForward (subscriber_removed 9 (codes "s1"))

session_tests :
    ((remove_subscribe 9 (codes "s1") pushed_stream).0 ≡ done)
    × ((remove_subscribe 9 (codes "s1") pushed_stream).1.subscribe_group ≡ [])
    × ((remove_subscribe 9 (codes "s1") pushed_stream).1.subscribe_leave_at ≡ 9)
    × ((remove_subscribe 9 (codes "s2") pushed_stream).1.subscribe_leave_at ≡ 0)
unfolding remove_subscribe take_out bytes_eq
session_tests = (refl, refl, refl, refl)

abbrev track : (rid : List ℕ) → PublishTrack
track rid = record { rid = rid; is_video = true }

track_tests :
    (publish_track_up (track (codes "h")) (record pushed_stream {
      publish_tracks = track (codes "f") ∷ track (codes "q") ∷ [];
    })).publish_tracks
    ≡ track (codes "f") ∷ track (codes "h") ∷ track (codes "q") ∷ []
unfolding publish_track_up
track_tests = refl
