-- ===== src/Stream/Manager/Steps.antt =====
-- The stream manager as a step relation.
use live.Prelude.{ℕ, ◌≡◌, refl, Bool, Bytes, List, Option, none, some}
use mathlib.Core.Path.{subst}
use live.Stream.Forward as Forward
use live.Stream.Forward.{
  Session, ForwardError, set_publish, add_subscribe, close_effects, close, remove_peer, has_id,
  publisher_ids, session_ids,
}
use live.Stream.Forward.Lifecycle.{IsForward, Targeted, SessionStep, SessionStep-IsForward}
use live.Stream.Manager.{
  Manager, lookup, put, stream_create, stream_delete, ensure_stream, publish, subscribe,
  remove_stream_session, cascade_push,
}
use live.Stream.Manager.Ticks.{remove_streams}
use live.Stream.Manager.Streams.{OnSome, AllForwards-lookup}
use live.Stream.Manager.Invariant.{IsManager, put-IsManager}
use live.Stream.Manager.Calls.{
  create_with-IsManager, ensure_with-IsManager, delete_with-IsManager, publish_with-IsManager,
  subscribe_with-IsManager, not_subscribed-IsManager, push_with-IsManager, session_with-IsManager,
  remove_streams-IsManager,
}

-- Any call of the manager, either half of a check, or a change of the sessions of a stream.
pub data Step (m : Manager) : Manager → Type 0 where
  created : (now : ℕ) (stream : Bytes) → Step m (stream_create now stream m).1
  deleted : (closes : Bytes → Bool) (stream : Bytes) → Step m (stream_delete closes stream m).1
  published :
      (now : ℕ) (stream : Bytes) (connection : Option Session)
      → Step m (publish now stream connection m).1
  subscribed :
      (now : ℕ) (stream : Bytes) (session : Session)
      → Targeted session
      → Step m (subscribe now stream (some session) m).1
  not_subscribed : (now : ℕ) (stream : Bytes) → Step m (subscribe now stream none m).1
  session_removed :
      (closes : Bytes → Bool) (stream session : Bytes)
      → Step m (remove_stream_session closes stream session m).1
  pushed :
      (closes : Bytes → Bool) (stream : Bytes) (session : Session)
      → Targeted session
      → Step m (cascade_push closes stream (some session) m).1
  checked :
      (expired : Forward.Forward → Bool) (closes : Bytes → Bool) (names : List Bytes)
      → Step m (remove_streams expired closes names m)
  sessions_changed :
      (stream : Bytes) (f f' : Forward.Forward)
      → lookup stream m.streams ≡ some f
      → SessionStep f f'
      → Step m (record m { streams = put stream f' m.streams })

found-IsForward :
    (stream : Bytes) (m : Manager) → IsManager m → OnSome IsForward (lookup stream m.streams)
found-IsForward stream m k = AllForwards-lookup IsForward stream m.streams k.forwards

-- Whatever is called, the streams in the map have distinct names and sessions that their gauges show,
-- and the events tell of the streams: so many have come up more than have gone down as there are in
-- the map, and the gauge was raised once for each that came up.
pub Step-IsManager : (m m' : Manager) → IsManager m → Step m m' → IsManager m'
unfolding stream_create stream_delete publish subscribe remove_stream_session cascade_push
    ensure_stream
Step-IsManager m m' k (created now stream) =
    create_with-IsManager now stream (lookup stream m.streams) m refl k
Step-IsManager m m' k (deleted closes stream) =
    delete_with-IsManager closes stream (lookup stream m.streams) m refl k
Step-IsManager m m' k (published now stream connection) =
    let e = ensure_stream m.auto_create_pub now stream m in
    let k' =
      ensure_with-IsManager now stream (lookup stream m.streams) m.auto_create_pub m refl k in
    publish_with-IsManager stream (lookup stream e.streams) connection e
      (found-IsForward stream e k') k'
Step-IsManager m m' k (subscribed now stream session target) =
    let e = ensure_stream m.auto_create_sub now stream m in
    let k' =
      ensure_with-IsManager now stream (lookup stream m.streams) m.auto_create_sub m refl k in
    subscribe_with-IsManager stream (lookup stream e.streams) session e target
      (found-IsForward stream e k') k'
Step-IsManager m m' k (not_subscribed now stream) =
    let e = ensure_stream m.auto_create_sub now stream m in
    not_subscribed-IsManager stream (lookup stream e.streams) e
      (ensure_with-IsManager now stream (lookup stream m.streams) m.auto_create_sub m refl k)
Step-IsManager m m' k (session_removed closes stream session) =
    session_with-IsManager stream (lookup stream m.streams) closes session m
      (found-IsForward stream m k) k
Step-IsManager m m' k (pushed closes stream session target) =
    push_with-IsManager stream (lookup stream m.streams) closes session m target
      (found-IsForward stream m k) k
Step-IsManager m m' k (checked expired closes names) =
    remove_streams-IsManager expired closes names m k
Step-IsManager m m' k (sessions_changed stream f f' found step) =
    put-IsManager stream f' m
      (SessionStep-IsForward f f' (subst (OnSome IsForward) found (found-IsForward stream m k))
        step)
      k
