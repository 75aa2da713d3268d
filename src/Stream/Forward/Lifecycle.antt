-- ===== src/Stream/Forward/Lifecycle.antt =====
-- The life of a stream's sessions: what holds whichever of them come and go.
use live.Prelude.{
  ℕ, suc, ◌+◌, ◌≡◌, refl, ap, arith, true, false, Bytes, List, [], ◌∷◌, ◌++◌, if◌then◌else◌, Option,
  none, some, is_some, is_empty, bytes_eq, length, length-append, All, All-append, Bool-cases, inl,
  inr,
}
use live.Stream.Effects.{
  Effect, Gauge, publish_gauge, subscribe_gauge, reforward_gauge, count, is_inc, is_dec,
  count-append,
}
use live.Stream.Forward.{
  Forward, Session, CascadeInfo, PublishTrack, new, set_publish, remove_with, remove_publish,
  publish_track_up, reforward_effects, add_subscribe, take_out, drop_cascade, drop_session,
  drop_taken, remove_subscribe,
}

abbrev pub publishers : Option Session → ℕ
publishers none = 0
publishers (some _) = 1

abbrev cascade_count : Option CascadeInfo → ℕ
cascade_count none = 0
cascade_count (some _) = 1

-- The sessions of a group that pass the stream on to another server.
abbrev pub cascades : List Session → ℕ
cascades [] = 0
cascades (s ∷ group) = cascade_count s.cascade + cascades group

-- A cascade of a subscription has the URL that it pushes to.
abbrev pub HasTarget : Option CascadeInfo → Type 0
HasTarget none = Unit
HasTarget (some c) = is_some c.target_url ≡ true

abbrev pub Targeted : Session → Type 0
Targeted s = HasTarget s.cascade

-- The gauge shows a number: so many increments more than decrements.
abbrev pub Shows : Gauge → ℕ → List Effect → Type 0
Shows g n log = count (is_inc g) log ≡ count (is_dec g) log + n

-- The gauges show the sessions, and a time of leaving is kept only while nobody is there.
pub record IsForward (f : Forward) : Type 0 where
  pub publish_shown : Shows publish_gauge (publishers f.publish) f.log
  pub subscribe_shown : Shows subscribe_gauge (length f.subscribe_group) f.log
  pub reforward_shown : Shows reforward_gauge (cascades f.subscribe_group) f.log
  pub publishing : is_some f.publish ≡ true → f.publish_leave_at ≡ 0
  pub subscribed : is_empty f.subscribe_group ≡ false → f.subscribe_leave_at ≡ 0
  pub targeted : All Targeted f.subscribe_group

-- What can happen to a stream's sessions.
pub data SessionStep (f : Forward) : Forward → Type 0 where
  publish_set : (connection : Option Session) → SessionStep f (set_publish connection f).1
  publish_removed : (now : ℕ) (id : Bytes) → SessionStep f (remove_publish now id f).1
  track_added : (track : PublishTrack) → SessionStep f (publish_track_up track f)
  subscriber_added :
      (session : Session) → Targeted session → SessionStep f (add_subscribe session f)
  subscriber_removed : (now : ℕ) (id : Bytes) → SessionStep f (remove_subscribe now id f).1

pub new-IsForward : (now : ℕ) (stream : Bytes) → IsForward (new now stream)
new-IsForward now stream = record {
  publish_shown = refl;
  subscribe_shown = refl;
  reforward_shown = refl;
  publishing = λ e. cc;
  subscribed = λ e. cc;
  targeted = tt;
}

no_publisher : (o : Option Session) → is_some o ≡ false → publishers o ≡ 0
no_publisher none e = refl
no_publisher (some _) e = cc

set_publish-IsForward :
    (connection : Option Session) (f : Forward)
    → IsForward f
    → IsForward (set_publish connection f).1
unfolding set_publish
set_publish-IsForward none f k = k
set_publish-IsForward (some session) f k = elim (Bool-cases (is_some f.publish)) [
  | inl e ↦ rw e k
  | inr e ↦ rw e (record {
    publish_shown = omega (arith, k.publish_shown, count-append, no_publisher f.publish e);
    subscribe_shown = omega (arith, k.subscribe_shown, count-append);
    reforward_shown = omega (arith, k.reforward_shown, count-append);
    publishing = λ _. refl;
    subscribed = k.subscribed;
    targeted = k.targeted;
  })
]

remove_with-IsForward :
    (o : Option Session) (now : ℕ) (id : Bytes) (f : Forward)
    → f.publish ≡ o
    → IsForward f
    → IsForward (remove_with o now id f).1
unfolding remove_with
remove_with-IsForward none now id f has k = k
remove_with-IsForward (some session) now id f has k = elim (Bool-cases (bytes_eq session.id id)) [
  | inl e ↦ rw e (record {
    publish_shown = omega (arith, k.publish_shown, count-append, ap publishers has);
    subscribe_shown = omega (arith, k.subscribe_shown, count-append);
    reforward_shown = omega (arith, k.reforward_shown, count-append);
    publishing = λ e. cc;
    subscribed = k.subscribed;
    targeted = k.targeted;
  })
  | inr e ↦ rw e k
]

remove_publish-IsForward :
    (now : ℕ) (id : Bytes) (f : Forward) → IsForward f → IsForward (remove_publish now id f).1
unfolding remove_publish
remove_publish-IsForward now id f k = remove_with-IsForward f.publish now id f refl k

track_up-IsForward :
    (t : PublishTrack) (f : Forward) → IsForward f → IsForward (publish_track_up t f)
unfolding publish_track_up
track_up-IsForward t f k = record {
  publish_shown = k.publish_shown;
  subscribe_shown = k.subscribe_shown;
  reforward_shown = k.reforward_shown;
  publishing = k.publishing;
  subscribed = k.subscribed;
  targeted = k.targeted;
}

cascades-append : (xs ys : List Session) → cascades (xs ++ ys) ≡ cascades xs + cascades ys
cascades-append [] ys = omega arith
cascades-append (x ∷ xs) ys = omega (arith, cascades-append xs ys)

reforward_effects-shown :
    (o : Option CascadeInfo) (id : Bytes)
    → (count (is_inc reforward_gauge) (reforward_effects o id) ≡ cascade_count o)
      × (count (is_dec reforward_gauge) (reforward_effects o id) ≡ 0)
      × (count (is_inc publish_gauge) (reforward_effects o id) ≡ 0)
      × (count (is_dec publish_gauge) (reforward_effects o id) ≡ 0)
      × (count (is_inc subscribe_gauge) (reforward_effects o id) ≡ 0)
      × (count (is_dec subscribe_gauge) (reforward_effects o id) ≡ 0)
reforward_effects-shown none id = (refl, refl, refl, refl, refl, refl)
reforward_effects-shown (some c) id = (refl, refl, refl, refl, refl, refl)

add_subscribe-IsForward :
    (session : Session) (f : Forward)
    → Targeted session
    → IsForward f
    → IsForward (add_subscribe session f)
unfolding add_subscribe
add_subscribe-IsForward session f target k =
    let (a, b, c, d, x, y) = reforward_effects-shown session.cascade session.id in
    record {
      publish_shown = omega (arith, k.publish_shown, count-append, c, d);
      subscribe_shown = omega (
        arith,
        k.subscribe_shown,
        count-append,
        x,
        y,
        length-append f.subscribe_group (session ∷ []),
      );
      reforward_shown = omega (
        arith,
        k.reforward_shown,
        count-append,
        a,
        b,
        cascades-append f.subscribe_group (session ∷ []),
      );
      publishing = k.publishing;
      subscribed = λ _. refl;
      targeted = All-append Targeted f.subscribe_group (session ∷ []) k.targeted (target, tt);
    }

-- What `take_out` takes out of a group.
abbrev TakenOut : List Session → Option (Session × List Session) → Type 0
TakenOut group none = Unit
TakenOut group (some (s, rest)) =
    (length group ≡ suc (length rest))
    × (cascades group ≡ cascade_count s.cascade + cascades rest)
    × (All Targeted group → All Targeted rest × Targeted s)

taken_with :
    (t : Session) (group : List Session) (o : Option (Session × List Session))
    → TakenOut group o
    → TakenOut (t ∷ group) (elim o [ none ↦ none | some (s, others) ↦ some (s, t ∷ others) ])
taken_with t group none k = tt
taken_with t group (some (s, others)) k =
    (omega (arith, k.0), omega (arith, k.1), λ all. ((all.0, (k.2 all.1).0), (k.2 all.1).1))

take_out-TakenOut : (id : Bytes) (group : List Session) → TakenOut group (take_out id group)
unfolding take_out
take_out-TakenOut id [] = tt
take_out-TakenOut id (s ∷ group) = elim (Bool-cases (bytes_eq s.id id)) [
  | inl e ↦ rw e (refl, refl, λ all. (all.1, all.0))
  | inr e ↦ rw e (taken_with s group (take_out id group) (take_out-TakenOut id group))
]

not_empty_before :
    (group rest : List Session) → length group ≡ suc (length rest) → is_empty group ≡ false
not_empty_before [] rest e = absurd (omega (arith, e))
not_empty_before (_ ∷ _) rest e = refl

-- A subscription goes, with the rest of its group left.
drop_session-IsForward :
    (now : ℕ) (id : Bytes) (s : Session) (rest : List Session) (f : Forward)
    → TakenOut f.subscribe_group (some (s, rest))
    → IsForward f
    → IsForward (drop_session s.cascade now id rest f).1
unfolding drop_session drop_cascade
drop_session-IsForward now id s rest f t k = dropped s.cascade t.1 (t.2 k.targeted).1
  where
    left : is_empty rest ≡ false → f.subscribe_leave_at ≡ 0
    left _ = k.subscribed (not_empty_before f.subscribe_group rest t.0)

    left_at : is_empty rest ≡ false → (if is_empty rest then now else f.subscribe_leave_at) ≡ 0
    left_at e = rw e (left e)

    dropped :
        (o : Option CascadeInfo)
        → cascades f.subscribe_group ≡ cascade_count o + cascades rest
        → HasTarget o
        → IsForward (drop_session o now id rest f).1
    dropped none e h = record {
      publish_shown = omega (arith, k.publish_shown, count-append);
      subscribe_shown = omega (arith, k.subscribe_shown, count-append, t.0);
      reforward_shown = omega (arith, k.reforward_shown, count-append, e);
      publishing = k.publishing;
      subscribed = left_at;
      targeted = (t.2 k.targeted).0;
    }
    dropped (some c) e h = cascade_dropped c.target_url h
      where
        cascade_dropped :
            (o : Option Bytes) → is_some o ≡ true → IsForward (drop_cascade o now id rest f).1
        cascade_dropped none h = cc
        cascade_dropped (some url) h = record {
          publish_shown = omega (arith, k.publish_shown, count-append);
          subscribe_shown = omega (arith, k.subscribe_shown, count-append, t.0);
          reforward_shown = omega (arith, k.reforward_shown, count-append, e);
          publishing = k.publishing;
          subscribed = left_at;
          targeted = (t.2 k.targeted).0;
        }

drop_taken-IsForward :
    (o : Option (Session × List Session)) (now : ℕ) (id : Bytes) (f : Forward)
    → TakenOut f.subscribe_group o
    → IsForward f
    → IsForward (drop_taken o now id f).1
unfolding drop_taken
drop_taken-IsForward none now id f t k = record {
  publish_shown = k.publish_shown;
  subscribe_shown = k.subscribe_shown;
  reforward_shown = k.reforward_shown;
  publishing = k.publishing;
  subscribed = λ e. rw e (k.subscribed e);
  targeted = k.targeted;
}
drop_taken-IsForward (some (s, rest)) now id f t k = drop_session-IsForward now id s rest f t k

remove_subscribe-IsForward :
    (now : ℕ) (id : Bytes) (f : Forward) → IsForward f → IsForward (remove_subscribe now id f).1
unfolding remove_subscribe
remove_subscribe-IsForward now id f k =
    drop_taken-IsForward (take_out id f.subscribe_group) now id f
      (take_out-TakenOut id f.subscribe_group) k

-- Whatever sessions come and go, the gauges of a stream show them: the publishers, the subscribers
-- and the cascades among them. While there is a publisher no time is kept at which it left, and none
-- for the subscribers while there is one. A subscription that is a cascade has its target, if each
-- that is added has it.
pub SessionStep-IsForward : (f f' : Forward) → IsForward f → SessionStep f f' → IsForward f'
SessionStep-IsForward f f' k (publish_set connection) = set_publish-IsForward connection f k
SessionStep-IsForward f f' k (publish_removed now id) = remove_publish-IsForward now id f k
SessionStep-IsForward f f' k (track_added t) = track_up-IsForward t f k
SessionStep-IsForward f f' k (subscriber_added session target) =
    add_subscribe-IsForward session f target k
SessionStep-IsForward f f' k (subscriber_removed now id) = remove_subscribe-IsForward now id f k
