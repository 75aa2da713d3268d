-- ===== src/Stream/Manager/Invariant.antt =====
-- What holds of the stream manager whatever is called, and of adding, changing and removing a stream.
use live.Prelude.{
  ℕ, ◌+◌, ◌≡◌, refl, arith, Bool, Bytes, List, [], ◌∷◌, ◌++◌, none, some, length, Bool-cases, inl,
  inr,
}
use live.Stream.Effects.{
  Effect, stream_gauge, count, is_inc, is_dec, is_stream_up, is_stream_down, count-append,
}
use live.Stream.Forward as Forward
use live.Stream.Forward.{
  Session, ForwardError, set_publish, add_subscribe, close_effects, close, remove_peer, has_id,
  publisher_ids, session_ids,
}
use live.Stream.Forward.Lifecycle.{IsForward, new-IsForward}
use live.Stream.Manager.{Manager, lookup, remove, put, add_stream}
use live.Stream.Manager.Streams.{
  Distinct, AllForwards, Distinct-remove, Distinct-put, length-put, length-remove,
  AllForwards-remove, AllForwards-put,
}

-- The events tell of the streams: every stream in the map has come up, and has not gone down. Their
-- names are distinct, and their sessions are as they should be.
pub record IsManager (m : Manager) : Type 0 where
  pub distinct : Distinct m.streams
  pub forwards : AllForwards IsForward m.streams
  pub told : count is_stream_up m.log ≡ count is_stream_down m.log + length m.streams
  pub raised : count (is_inc stream_gauge) m.log ≡ count is_stream_up m.log

-- Closing peers moves no gauge and tells of no stream.
pub close-silent :
    (closes : Bytes → Bool) (f : Forward.Forward)
    → (count is_stream_up (close closes f) ≡ 0)
      × (count is_stream_down (close closes f) ≡ 0)
      × (count (is_inc stream_gauge) (close closes f) ≡ 0)
      × (count (is_dec stream_gauge) (close closes f) ≡ 0)
unfolding close close_effects
close-silent closes f = silent (publisher_ids f.publish ++ session_ids f.subscribe_group)
  where
    silent :
        (ids : List Bytes)
        → (count is_stream_up (close_effects closes ids) ≡ 0)
          × (count is_stream_down (close_effects closes ids) ≡ 0)
          × (count (is_inc stream_gauge) (close_effects closes ids) ≡ 0)
          × (count (is_dec stream_gauge) (close_effects closes ids) ≡ 0)
    silent [] = (refl, refl, refl, refl)
    silent (id ∷ ids) = elim (Bool-cases (closes id)) [
      | inl e ↦ rw e (
          let (a, b, c, d) = silent ids in
          (omega (arith, a), omega (arith, b), omega (arith, c), omega (arith, d)))
      | inr e ↦ rw e (refl, refl, refl, refl)
    ]

pub added-IsManager :
    (now : ℕ) (stream : Bytes) (m : Manager)
    → lookup stream m.streams ≡ none
    → IsManager m
    → IsManager (add_stream now stream m)
unfolding add_stream
added-IsManager now stream m absent k = record {
  distinct = (absent, k.distinct);
  forwards = (new-IsForward now stream, k.forwards);
  told = omega (arith, k.told, count-append);
  raised = omega (arith, k.raised, count-append);
}

-- A stream that is found changes.
pub put-IsManager :
    (stream : Bytes) (f : Forward.Forward) (m : Manager)
    → IsForward f
    → IsManager m
    → IsManager (record m { streams = put stream f m.streams })
put-IsManager stream f m new k = record {
  distinct = Distinct-put stream f m.streams k.distinct;
  forwards = AllForwards-put IsForward stream f m.streams new k.forwards;
  told = omega (arith, k.told, length-put stream f m.streams);
  raised = k.raised;
}

-- A stream that is found goes, with one entry or more for the gauge.
pub removed-IsManager :
    (stream : Bytes) (f : Forward.Forward) (closes : Bytes → Bool) (last : List Effect)
    (m : Manager)
    → lookup stream m.streams ≡ some f
    → count is_stream_up last ≡ 0
    → count is_stream_down last ≡ 1
    → count (is_inc stream_gauge) last ≡ 0
    → IsManager m
    → IsManager
        (record m { streams = remove stream m.streams; log = m.log ++ (close closes f ++ last) })
removed-IsManager stream f closes last m found a b c k =
    let (x, y, z, _) = close-silent closes f in
    record {
      distinct = Distinct-remove stream m.streams k.distinct;
      forwards = AllForwards-remove IsForward stream m.streams k.forwards;
      told = omega (
        arith,
        k.told,
        count-append,
        length-remove stream f m.streams k.distinct found,
        a,
        b,
        x,
        y,
      );
      raised = omega (arith, k.raised, count-append, a, c, x, z);
    }
