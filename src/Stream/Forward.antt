-- ===== src/Stream/Forward.antt =====
-- liveion/src/forward/internal.rs, `PeerForwardInternal`: the sessions of a stream, which come and go.
-- A peer connection of the webrtc crate is its id (`get_peer_id`); what the crate answers is an
-- argument. The metrics and the event channel are a log, and the media itself is left out.
pub mod Lifecycle
mod Tests
use live.Prelude.{
  ℕ, ◌<◌, Bool, true, false, ◌||◌, not, Bytes, List, [], ◌∷◌, ◌++◌, if◌then◌else◌, Option, none,
  some, is_some, is_empty, bytes_eq, ltb, Outcome, ok, err,
}
use live.Stream.Effects.{
  Effect, inc, dec, forward_event, close_peer, remove_resource, publish_gauge, subscribe_gauge,
  reforward_gauge, publish_up, publish_down, subscribe_up, subscribe_down, reforward_up,
  reforward_down,
}

pub record CascadeInfo : Type 0 where
  pub source_url : Option Bytes
  pub target_url : Option Bytes
  pub token : Option Bytes
  pub session_url : Option Bytes

-- `PublishRTCPeerConnection` and `SubscribeRTCPeerConnection`.
pub record Session : Type 0 where
  pub id : Bytes
  pub create_at : ℕ
  pub cascade : Option CascadeInfo

pub record PublishTrack : Type 0 where
  pub rid : Bytes
  pub is_video : Bool

pub record Forward : Type 0 where
  pub stream : Bytes
  pub create_at : ℕ
  pub publish_leave_at : ℕ
  pub subscribe_leave_at : ℕ
  pub publish : Option Session
  pub publish_tracks : List PublishTrack
  pub subscribe_group : List Session
  pub log : List Effect

pub data ForwardError : Type 0 where
  stream_already_exists : ForwardError
  publish_is_none : ForwardError
  publish_not_myself : ForwardError
  not_found_session : ForwardError
  peer_failed : ForwardError

pub data Reply : Type 0 where
  done : Reply
  failed : ForwardError → Reply
  panicked : Reply

abbrev pub new : (now : ℕ) → (stream : Bytes) → Forward
new now stream = record {
  stream = stream;
  create_at = now;
  publish_leave_at = 0;
  subscribe_leave_at = now;
  publish = none;
  publish_tracks = [];
  subscribe_group = [];
  log = [];
}

-- `connection` is what `PublishRTCPeerConnection::new` returns for the peer. The publisher and the time
-- at which the last one left are written under a lock each, one after the other; this is the state
-- once both are written.
unfoldable pub set_publish : (connection : Option Session) → Forward → Reply × Forward
set_publish none f = (failed (if is_some f.publish then stream_already_exists else peer_failed), f)
set_publish (some session) f = if is_some f.publish then (failed stream_already_exists, f) else (
  done,
  record f {
    publish = some session;
    publish_leave_at = 0;
    log = f.log ++ (inc publish_gauge ∷ forward_event publish_up session.id ∷ []);
  },
)

-- `remove_publish`, which looks at the publisher.
unfoldable pub remove_with : Option Session → (now : ℕ) → (id : Bytes) → Forward → Reply × Forward
remove_with none now id f = (failed publish_is_none, f)
remove_with (some session) now id f =
    if not (bytes_eq session.id id) then (failed publish_not_myself, f) else (
      done,
      record f {
        publish = none;
        publish_tracks = [];
        publish_leave_at = now;
        log = f.log ++ (dec publish_gauge ∷ forward_event publish_down id ∷ []);
      },
    )

unfoldable pub remove_publish : (now : ℕ) → (id : Bytes) → Forward → Reply × Forward
remove_publish now id f = remove_with f.publish now id f

-- `a.rid.cmp(&b.rid)` is `Less`.
unfoldable pub rid_less : Bytes → Bytes → Bool
rid_less [] [] = false
rid_less [] (_ ∷ _) = true
rid_less (_ ∷ _) [] = false
rid_less (x ∷ xs) (y ∷ ys) =
    let rest = rid_less xs ys in if ltb x y then true else if ltb y x then false else rest

-- `sort_by` keeps the order of tracks with the same rid.
unfoldable pub insert_track : PublishTrack → List PublishTrack → List PublishTrack
unfolding rid_less
insert_track t [] = t ∷ []
insert_track t (u ∷ tracks) =
    let rest = insert_track t tracks in if rid_less u.rid t.rid then u ∷ rest else t ∷ u ∷ tracks

unfoldable pub sort_tracks : List PublishTrack → List PublishTrack
unfolding insert_track
sort_tracks [] = []
sort_tracks (t ∷ tracks) = insert_track t (sort_tracks tracks)

unfoldable pub publish_track_up : PublishTrack → Forward → Forward
unfolding sort_tracks
publish_track_up t f = record f { publish_tracks = sort_tracks (f.publish_tracks ++ (t ∷ [])) }

-- What a subscription that is a cascade does besides.
abbrev pub reforward_effects : Option CascadeInfo → Bytes → List Effect
reforward_effects none id = []
reforward_effects (some _) id = inc reforward_gauge ∷ forward_event reforward_up id ∷ []

unfoldable pub add_subscribe : Session → Forward → Forward
add_subscribe session f = record f {
  subscribe_group = f.subscribe_group ++ (session ∷ []);
  subscribe_leave_at = 0;
  log =
      f.log
      ++ (inc subscribe_gauge
          ∷ forward_event subscribe_up session.id
          ∷ reforward_effects session.cascade session.id);
}

-- The first session of the id, and the group without it.
unfoldable pub take_out : Bytes → List Session → Option (Session × List Session)
take_out id [] = none
take_out id (s ∷ group) =
    let rest = take_out id group in
    if bytes_eq s.id id
    then some (s, group)
    else elim rest [ none ↦ none | some (t, others) ↦ some (t, s ∷ others) ]

abbrev pub leave_if_empty : (now : ℕ) → Forward → Forward
leave_if_empty now f = record f {
  subscribe_leave_at = if is_empty f.subscribe_group then now else f.subscribe_leave_at;
}

-- The end of a cascade: the URL that it pushes to is unwrapped.
unfoldable pub drop_cascade :
    (target_url : Option Bytes)
    → (now : ℕ) → (id : Bytes) → List Session
    → Forward
    → Reply × Forward
drop_cascade none now id rest f =
    (panicked, record f { log = f.log ++ (dec subscribe_gauge ∷ dec reforward_gauge ∷ []) })
drop_cascade (some url) now id rest f = (
  done,
  leave_if_empty now (record f {
    subscribe_group = rest;
    log =
        f.log
        ++ (dec subscribe_gauge
            ∷ dec reforward_gauge
            ∷ remove_resource url
            ∷ forward_event subscribe_down id
            ∷ forward_event reforward_down id
            ∷ []);
  }),
)

-- The end of a session that was found.
unfoldable pub drop_session :
    Option CascadeInfo → (now : ℕ) → (id : Bytes) → List Session → Forward → Reply × Forward
unfolding drop_cascade
drop_session none now id rest f = (
  done,
  leave_if_empty now (record f {
    subscribe_group = rest;
    log = f.log ++ (dec subscribe_gauge ∷ forward_event subscribe_down id ∷ []);
  }),
)
drop_session (some cascade) now id rest f = drop_cascade cascade.target_url now id rest f

unfoldable pub drop_taken :
    Option (Session × List Session) → (now : ℕ) → (id : Bytes) → Forward → Reply × Forward
unfolding drop_session
drop_taken none now id f = (failed not_found_session, leave_if_empty now f)
drop_taken (some (session, rest)) now id f = drop_session session.cascade now id rest f

unfoldable pub remove_subscribe : (now : ℕ) → (id : Bytes) → Forward → Reply × Forward
unfolding take_out drop_taken
remove_subscribe now id f = drop_taken (take_out id f.subscribe_group) now id f

-- `closes` says for which peers `close` of the webrtc crate succeeds. A peer that is closed reports
-- it later, which calls `remove_publish` or `remove_subscribe`.
abbrev pub publisher_ids : Option Session → List Bytes
publisher_ids none = []
publisher_ids (some s) = s.id ∷ []

abbrev pub session_ids : List Session → List Bytes
session_ids [] = []
session_ids (s ∷ group) = s.id ∷ session_ids group

-- The peers that are closed, up to the first one that fails.
unfoldable pub close_effects : (closes : Bytes → Bool) → List Bytes → List Effect
close_effects closes [] = []
close_effects closes (id ∷ ids) =
    let rest = close_effects closes ids in close_peer id ∷ (if closes id then rest else [])

-- `close`: what it does to the peers of the stream.
unfoldable pub close : (closes : Bytes → Bool) → Forward → List Effect
unfolding close_effects
close closes f = close_effects closes (publisher_ids f.publish ++ session_ids f.subscribe_group)

abbrev pub has_id : Bytes → List Bytes → Bool
has_id id [] = false
has_id id (other ∷ ids) = bytes_eq other id || has_id id ids

-- `true` when the peer is the publisher.
unfoldable pub remove_peer :
    (closes : Bytes → Bool) → (id : Bytes) → Forward → Outcome ForwardError Bool × Forward
remove_peer closes id f =
    let closing = record f { log = f.log ++ (close_peer id ∷ []) } in
    if has_id id (publisher_ids f.publish)
    then (if closes id then ok true else err peer_failed, closing)
    else if has_id id (session_ids f.subscribe_group)
    then (if closes id then ok false else err peer_failed, closing)
    else (ok false, f)
