-- ===== src/Stream/Manager/Ticks.antt =====
-- manager.rs, `publish_check_tick` and `subscribe_check_tick`: the checks that run every second. Each is
-- two functions, the search and the removal, since other calls run between their locks.
use live.Prelude.{
  ℕ, ◌-◌, Bool, ◌&&◌, Bytes, List, [], ◌∷◌, ◌++◌, if◌then◌else◌, Option, none, some, ltb,
}
use live.Stream.Effects.{dec, stream_gauge, stream_down}
use live.Stream.Forward as Forward
use live.Stream.Forward.{close}
use live.Stream.Manager.{Manager, Streams, lookup, remove}

-- The publisher has been away for too long. `timeout` is not negative, or the check does not run.
unfoldable pub publish_expired : (now timeout : ℕ) → Forward.Forward → Bool
publish_expired now timeout f = ltb 0 f.publish_leave_at && ltb timeout (now - f.publish_leave_at)

-- `subscribe_check_tick` looks at the other time first.
unfoldable pub subscribe_suspect : (now timeout : ℕ) → Forward.Forward → Bool
subscribe_suspect now timeout f =
    ltb 0 f.subscribe_leave_at && ltb timeout (now - f.publish_leave_at)

unfoldable pub subscribe_expired : (now timeout : ℕ) → Forward.Forward → Bool
subscribe_expired now timeout f =
    ltb 0 f.subscribe_leave_at && ltb timeout (now - f.subscribe_leave_at)

-- The first half.
unfoldable pub candidates : (expired : Forward.Forward → Bool) → Streams → List Bytes
candidates expired [] = []
candidates expired ((name, f) ∷ streams) =
    let rest = candidates expired streams in if expired f then name ∷ rest else rest

-- The removal looks at the stream again. It takes two off the gauge.
unfoldable pub expire_with :
    Option Forward.Forward
    → (expired : Forward.Forward → Bool) → (closes : Bytes → Bool) → Bytes
    → Manager
    → Manager
expire_with none expired closes stream m = m
expire_with (some f) expired closes stream m =
    if expired f
    then record m {
      streams = remove stream m.streams;
      log =
          m.log
          ++ (close closes f ++ (dec stream_gauge ∷ dec stream_gauge ∷ stream_down stream ∷ []));
    }
    else m

-- The second half.
unfoldable pub remove_streams :
    (expired : Forward.Forward → Bool) → (closes : Bytes → Bool) → List Bytes → Manager → Manager
remove_streams expired closes [] m = m
remove_streams expired closes (stream ∷ names) m =
    remove_streams expired closes names
      (expire_with (lookup stream m.streams) expired closes stream m)
