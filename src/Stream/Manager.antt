-- ===== src/Stream/Manager.antt =====
-- liveion/src/stream/manager.rs, `Manager`: the map of streams. Each function is what one call does when
-- no other comes between its locks. The hash map is a list, its order being that of its iteration.
pub mod Streams
pub mod Ticks
pub mod Expiry
pub mod Invariant
pub mod Calls
pub mod Steps
mod Tests
use live.Prelude.{
  ℕ, ◌-◌, Bool, true, false, ◌&&◌, ◌||◌, not, Bytes, List, [], ◌∷◌, ◌++◌, if◌then◌else◌, Option,
  none, some, is_none, is_some, is_empty, bytes_eq, ltb, Outcome, ok, err, panic, trim,
}
use live.Stream.Effects.{Effect, inc, dec, stream_gauge, stream_up, stream_down}
use live.Stream.Forward as Forward
use live.Stream.Forward.{
  Session, CascadeInfo, ForwardError, Reply, set_publish, add_subscribe, close, remove_peer,
  stream_already_exists, peer_failed, has_id,
}

abbrev pub Streams : Type 0
Streams = List (Bytes × Forward.Forward)

unfoldable pub lookup : Bytes → Streams → Option Forward.Forward
lookup stream [] = none
lookup stream ((name, f) ∷ streams) =
    let rest = lookup stream streams in if bytes_eq name stream then some f else rest

unfoldable pub remove : Bytes → Streams → Streams
remove stream [] = []
remove stream ((name, f) ∷ streams) =
    let rest = remove stream streams in if bytes_eq name stream then rest else (name, f) ∷ rest

-- A handle to a stream shares it with the map: what it becomes is seen there.
unfoldable pub put : Bytes → Forward.Forward → Streams → Streams
put stream f [] = []
put stream f ((name, g) ∷ streams) =
    let rest = put stream f streams in
    (if bytes_eq name stream then (name, f) else (name, g)) ∷ rest

-- The fields of `ManagerConfig` that the operations look at, the map, and a log of what they do to
-- the gauge and the event channel.
pub record Manager : Type 0 where
  pub auto_create_pub : Bool
  pub auto_create_sub : Bool
  pub cascade_push_close_sub : Bool
  pub streams : Streams
  pub log : List Effect

pub data ManagerError : Type 0 where
  already_exists : ManagerError
  not_exists : ManagerError
  stream_not_found : ManagerError
  session_not_found : ManagerError
  of_forward : ForwardError → ManagerError

abbrev pub Answer : Type 0 → Type 0
Answer A = Outcome ManagerError A × Manager

-- `do_stream_create`, and the insertion that follows it.
unfoldable pub add_stream : (now : ℕ) → Bytes → Manager → Manager
add_stream now stream m = record m {
  streams = (stream, Forward.new now stream) ∷ m.streams;
  log = m.log ++ (inc stream_gauge ∷ stream_up stream ∷ []);
}

unfoldable pub create_with : Option Forward.Forward → (now : ℕ) → Bytes → Manager → Answer Unit
create_with (some _) now stream m = (err already_exists, m)
create_with none now stream m = (ok tt, add_stream now stream m)

unfoldable pub stream_create : (now : ℕ) → Bytes → Manager → Answer Unit
stream_create now stream m = create_with (lookup stream m.streams) now stream m

-- The stream's peers are closed, and it is taken out of the map.
unfoldable pub delete_with :
    Option Forward.Forward → (closes : Bytes → Bool) → Bytes → Manager → Answer Unit
delete_with none closes stream m = (err not_exists, m)
delete_with (some f) closes stream m = (
  ok tt,
  record m {
    streams = remove stream m.streams;
    log = m.log ++ (close closes f ++ (dec stream_gauge ∷ stream_down stream ∷ []));
  },
)

unfoldable pub stream_delete : (closes : Bytes → Bool) → Bytes → Manager → Answer Unit
stream_delete closes stream m = delete_with (lookup stream m.streams) closes stream m

-- The stream that a call asks for is there, or is created if the settings say so.
unfoldable pub ensure_with :
    Option Forward.Forward → (auto_create : Bool) → (now : ℕ) → Bytes → Manager → Manager
ensure_with (some _) auto_create now stream m = m
ensure_with none auto_create now stream m = if auto_create then add_stream now stream m else m

unfoldable pub ensure_stream : (auto_create : Bool) → (now : ℕ) → Bytes → Manager → Manager
ensure_stream auto_create now stream m =
    ensure_with (lookup stream m.streams) auto_create now stream m

answer_of : Reply → Outcome {0, 0} ManagerError Unit
answer_of Forward.done = ok tt
answer_of (Forward.failed e) = err (of_forward e)
answer_of Forward.panicked = panic

-- `PeerForward::set_publish`, with the session of the peer that it connects, if it can.
unfoldable pub publish_with :
    Option Forward.Forward → (connection : Option Session) → Bytes → Manager → Answer Unit
unfolding answer_of
publish_with none connection stream m = (err stream_not_found, m)
publish_with (some f) connection stream m =
    let (reply, f') = set_publish connection f in
    (answer_of reply, record m { streams = put stream f' m.streams })

-- `cascade_pull` is the same, the session being one with a source.
unfoldable pub publish : (now : ℕ) → Bytes → (connection : Option Session) → Manager → Answer Unit
publish now stream connection m =
    let ensured = ensure_stream m.auto_create_pub now stream m in
    publish_with (lookup stream ensured.streams) connection stream ensured

-- `PeerForward::add_subscribe`.
unfoldable pub subscribe_with :
    Option Forward.Forward → (connection : Option Session) → Bytes → Manager → Answer Unit
subscribe_with none connection stream m = (err stream_not_found, m)
subscribe_with (some f) none stream m = (err (of_forward peer_failed), m)
subscribe_with (some f) (some session) stream m =
    (ok tt, record m { streams = put stream (add_subscribe session f) m.streams })

unfoldable pub subscribe : (now : ℕ) → Bytes → (connection : Option Session) → Manager → Answer Unit
subscribe now stream connection m =
    let ensured = ensure_stream m.auto_create_sub now stream m in
    subscribe_with (lookup stream ensured.streams) connection stream ensured

-- What `remove_peer` answered: a publisher that goes takes its stream along.
unfoldable pub after_removal :
    Outcome ForwardError Bool → (closes : Bytes → Bool) → Bytes → Manager → Answer Unit
after_removal (ok is_publish) closes stream m =
    if is_publish then stream_delete closes stream m else (ok tt, m)
after_removal (err e) closes stream m = (err (of_forward e), m)
after_removal panic closes stream m = (panic, m)

unfoldable pub session_with :
    Option Forward.Forward
    → (closes : Bytes → Bool) → (stream session : Bytes) → Manager
    → Answer Unit
session_with none closes stream session m = (err session_not_found, m)
session_with (some f) closes stream session m =
    let (answer, f') = remove_peer closes session f in
    after_removal answer closes stream (record m { streams = put stream f' m.streams })

unfoldable pub remove_stream_session :
    (closes : Bytes → Bool) → (stream session : Bytes) → Manager → Answer Unit
remove_stream_session closes stream session m =
    session_with (lookup stream m.streams) closes stream session m

-- The subscribers that are no cascade are removed, whatever each removal answers.
unfoldable pub close_subscribers :
    (closes : Bytes → Bool) → List Session → Forward.Forward → Forward.Forward
close_subscribers closes [] f = f
close_subscribers closes (s ∷ sessions) f =
    close_subscribers closes sessions
      (if is_none s.cascade then (remove_peer closes s.id f).1 else f)

-- What `cascade_push_close_sub` does to a stream that is pushed.
unfoldable pub after_push :
    (close_sub : Bool) → (closes : Bytes → Bool) → Forward.Forward → Forward.Forward
unfolding close_subscribers
after_push true closes f = close_subscribers closes f.subscribe_group f
after_push false closes f = f

unfoldable pub push_with :
    Option Forward.Forward
    → (closes : Bytes → Bool) → (connection : Option Session) → Bytes
    → Manager
    → Answer Unit
push_with none closes connection stream m = (err stream_not_found, m)
push_with (some f) closes none stream m = (err (of_forward peer_failed), m)
push_with (some f) closes (some session) stream m = (
  ok tt,
  record m {
    streams =
        put stream (after_push m.cascade_push_close_sub closes (add_subscribe session f)) m.streams;
  },
)

unfoldable pub cascade_push :
    (closes : Bytes → Bool) → Bytes → (connection : Option Session) → Manager → Answer Unit
cascade_push closes stream connection m =
    push_with (lookup stream m.streams) closes connection stream m

-- The streams that are asked for, all of them where no name is left.
not_blank : List Bytes → List Bytes
not_blank [] = []
not_blank (name ∷ names) = if is_empty (trim name) then not_blank names else name ∷ not_blank names

selected : (names : List Bytes) → Streams → List Forward.Forward
selected names [] = []
selected names ((name, f) ∷ streams) =
    let rest = selected names streams in
    if is_empty names || has_id name names then f ∷ rest else rest

unfoldable pub info : (names : List Bytes) → Manager → List Forward.Forward
unfolding not_blank selected
info names m = selected (not_blank names) m.streams
