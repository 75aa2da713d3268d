-- ===== src/Stream/Manager/Calls.antt =====
-- The calls of the stream manager, and its checks, keep what holds of it.
use live.Prelude.{
  ℕ, ◌≡◌, refl, arith, Bool, true, false, Bytes, List, [], ◌∷◌, ◌++◌, Option, none, some, is_none,
  Outcome, ok, err, panic, Bool-cases, inl, inr,
}
use live.Stream.Effects.{dec, close_peer, stream_gauge, stream_down, count-append}
use live.Stream.Forward as Forward
use live.Stream.Forward.{
  Session, ForwardError, set_publish, add_subscribe, close_effects, close, remove_peer, has_id,
  publisher_ids, session_ids,
}
use live.Stream.Forward.Lifecycle.{
  IsForward, Targeted, SessionStep-IsForward, publish_set, subscriber_added,
}
use live.Stream.Manager.{
  Manager, lookup, put, create_with, delete_with, stream_delete, ensure_with, publish_with,
  subscribe_with, after_removal, session_with, close_subscribers, after_push, push_with,
}
use live.Stream.Manager.Ticks.{expire_with, remove_streams}
use live.Stream.Manager.Streams.{OnSome}
use live.Stream.Manager.Invariant.{IsManager, added-IsManager, put-IsManager, removed-IsManager}

module _ (now : ℕ) (stream : Bytes) where
  pub create_with-IsManager :
      (o : Option Forward.Forward) (m : Manager)
      → lookup stream m.streams ≡ o
      → IsManager m
      → IsManager (create_with o now stream m).1
  unfolding create_with
  create_with-IsManager none m e k = added-IsManager now stream m e k
  create_with-IsManager (some f) m e k = k

  pub ensure_with-IsManager :
      (o : Option Forward.Forward) (auto : Bool) (m : Manager)
      → lookup stream m.streams ≡ o
      → IsManager m
      → IsManager (ensure_with o auto now stream m)
  unfolding ensure_with
  ensure_with-IsManager none true m e k = added-IsManager now stream m e k
  ensure_with-IsManager none false m e k = k
  ensure_with-IsManager (some f) auto m e k = k

module _ (closes : Bytes → Bool) (stream : Bytes) where
  pub delete_with-IsManager :
      (o : Option Forward.Forward) (m : Manager)
      → lookup stream m.streams ≡ o
      → IsManager m
      → IsManager (delete_with o closes stream m).1
  unfolding delete_with
  delete_with-IsManager none m e k = k
  delete_with-IsManager (some f) m e k =
      removed-IsManager stream f closes (dec stream_gauge ∷ stream_down stream ∷ []) m e refl refl
        refl k

-- Closing a peer is an entry of the log, no more.
closing-IsForward :
    (id : Bytes) (f : Forward.Forward)
    → IsForward f
    → IsForward (record f { log = f.log ++ (close_peer id ∷ []) })
closing-IsForward id f k = record {
  publish_shown = omega (arith, k.publish_shown, count-append);
  subscribe_shown = omega (arith, k.subscribe_shown, count-append);
  reforward_shown = omega (arith, k.reforward_shown, count-append);
  publishing = k.publishing;
  subscribed = k.subscribed;
  targeted = k.targeted;
}

remove_peer-IsForward :
    (closes : Bytes → Bool) (id : Bytes) (f : Forward.Forward)
    → IsForward f
    → IsForward (remove_peer closes id f).1
unfolding remove_peer
remove_peer-IsForward closes id f k = elim (Bool-cases (has_id id (publisher_ids f.publish))) [
  | inl e ↦ rw e (closing-IsForward id f k)
  | inr e ↦ elim (Bool-cases (has_id id (session_ids f.subscribe_group))) [
    | inl e' ↦ rw (e, e') (closing-IsForward id f k)
    | inr e' ↦ rw (e, e') k
  ]
]

close_subscribers-IsForward :
    (closes : Bytes → Bool) (sessions : List Session) (f : Forward.Forward)
    → IsForward f
    → IsForward (close_subscribers closes sessions f)
unfolding close_subscribers
close_subscribers-IsForward closes [] f k = k
close_subscribers-IsForward closes (s ∷ sessions) f k = elim (Bool-cases (is_none s.cascade)) [
  | inl e ↦ rw e (
      close_subscribers-IsForward closes sessions (remove_peer closes s.id f).1
        (remove_peer-IsForward closes s.id f k))
  | inr e ↦ rw e (close_subscribers-IsForward closes sessions f k)
]

after_push-IsForward :
    (close_sub : Bool) (closes : Bytes → Bool) (f : Forward.Forward)
    → IsForward f
    → IsForward (after_push close_sub closes f)
unfolding after_push
after_push-IsForward true closes f k = close_subscribers-IsForward closes f.subscribe_group f k
after_push-IsForward false closes f k = k

module _ (stream : Bytes) where
  pub publish_with-IsManager :
      (o : Option Forward.Forward) (connection : Option Session) (m : Manager)
      → OnSome IsForward o
      → IsManager m
      → IsManager (publish_with o connection stream m).1
  unfolding publish_with
  publish_with-IsManager none connection m there k = k
  publish_with-IsManager (some f) connection m there k =
      put-IsManager stream (set_publish connection f).1 m
        (SessionStep-IsForward f (set_publish connection f).1 there (publish_set connection)) k

  pub added_session-IsManager :
      (f : Forward.Forward) (session : Session) (m : Manager)
      → Targeted session
      → IsForward f
      → IsManager m
      → IsManager (record m { streams = put stream (add_subscribe session f) m.streams })
  added_session-IsManager f session m target there k =
      put-IsManager stream (add_subscribe session f) m
        (SessionStep-IsForward f (add_subscribe session f) there (subscriber_added session target))
        k

  pub subscribe_with-IsManager :
      (o : Option Forward.Forward) (session : Session) (m : Manager)
      → Targeted session
      → OnSome IsForward o
      → IsManager m
      → IsManager (subscribe_with o (some session) stream m).1
  unfolding subscribe_with
  subscribe_with-IsManager none session m target there k = k
  subscribe_with-IsManager (some f) session m target there k =
      added_session-IsManager f session m target there k

  pub not_subscribed-IsManager :
      (o : Option Forward.Forward) (m : Manager)
      → IsManager m
      → IsManager (subscribe_with o none stream m).1
  unfolding subscribe_with
  not_subscribed-IsManager none m k = k
  not_subscribed-IsManager (some f) m k = k

  pub push_with-IsManager :
      (o : Option Forward.Forward) (closes : Bytes → Bool) (session : Session) (m : Manager)
      → Targeted session
      → OnSome IsForward o
      → IsManager m
      → IsManager (push_with o closes (some session) stream m).1
  unfolding push_with
  push_with-IsManager none closes session m target there k = k
  push_with-IsManager (some f) closes session m target there k =
      put-IsManager stream _ m
        (after_push-IsForward m.cascade_push_close_sub closes (add_subscribe session f) (
          SessionStep-IsForward f (add_subscribe session f) there
            (subscriber_added session target)))
        k

  pub after_removal-IsManager :
      (answer : Outcome ForwardError Bool) (closes : Bytes → Bool) (m : Manager)
      → IsManager m
      → IsManager (after_removal answer closes stream m).1
  unfolding after_removal stream_delete
  after_removal-IsManager (ok true) closes m k =
      delete_with-IsManager closes stream (lookup stream m.streams) m refl k
  after_removal-IsManager (ok false) closes m k = k
  after_removal-IsManager (err e) closes m k = k
  after_removal-IsManager panic closes m k = k

  pub session_with-IsManager :
      (o : Option Forward.Forward) (closes : Bytes → Bool) (session : Bytes) (m : Manager)
      → OnSome IsForward o
      → IsManager m
      → IsManager (session_with o closes stream session m).1
  unfolding session_with
  session_with-IsManager none closes session m there k = k
  session_with-IsManager (some f) closes session m there k =
      after_removal-IsManager (remove_peer closes session f).0 closes
        (record m { streams = put stream (remove_peer closes session f).1 m.streams })
        (put-IsManager stream (remove_peer closes session f).1 m
          (remove_peer-IsForward closes session f there) k)

  pub expire_with-IsManager :
      (o : Option Forward.Forward) (expired : Forward.Forward → Bool) (closes : Bytes → Bool)
      (m : Manager)
      → lookup stream m.streams ≡ o
      → IsManager m
      → IsManager (expire_with o expired closes stream m)
  unfolding expire_with
  expire_with-IsManager none expired closes m e k = k
  expire_with-IsManager (some f) expired closes m e k = elim (Bool-cases (expired f)) [
    | inl over ↦ rw over (
        removed-IsManager stream f closes
          (dec stream_gauge ∷ dec stream_gauge ∷ stream_down stream ∷ []) m e refl refl refl k)
    | inr stays ↦ rw stays k
  ]

pub remove_streams-IsManager :
    (expired : Forward.Forward → Bool) (closes : Bytes → Bool) (names : List Bytes) (m : Manager)
    → IsManager m
    → IsManager (remove_streams expired closes names m)
unfolding remove_streams
remove_streams-IsManager expired closes [] m k = k
remove_streams-IsManager expired closes (stream ∷ names) m k =
    remove_streams-IsManager expired closes names
      (expire_with (lookup stream m.streams) expired closes stream m)
      (expire_with-IsManager stream (lookup stream m.streams) expired closes m refl k)
