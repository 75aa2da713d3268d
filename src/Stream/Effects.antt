-- ===== src/Stream/Effects.antt =====
-- What the stream manager and the streams do to their surroundings, as entries of a log: the gauges of
-- metrics.rs, the events of hook/mod.rs and forward/message.rs, and calls of other crates.
use live.Prelude.{
  ℕ, ◌+◌, ◌≡◌, arith, Bool, true, false, Bytes, List, [], ◌∷◌, ◌++◌, ◌==◌, if◌then◌else◌,
}

pub data Gauge : Type 0 where
  stream_gauge : Gauge
  publish_gauge : Gauge
  subscribe_gauge : Gauge
  reforward_gauge : Gauge

-- `ForwardEventType`.
pub data EventType : Type 0 where
  publish_up : EventType
  publish_down : EventType
  subscribe_up : EventType
  subscribe_down : EventType
  reforward_up : EventType
  reforward_down : EventType

pub data Effect : Type 0 where
  inc : Gauge → Effect
  dec : Gauge → Effect
  stream_up : (stream : Bytes) → Effect
  stream_down : (stream : Bytes) → Effect
  forward_event : EventType → (session : Bytes) → Effect
  close_peer : (session : Bytes) → Effect
  remove_resource : (url : Bytes) → Effect

abbrev number : Gauge → ℕ
number stream_gauge = 0
number publish_gauge = 1
number subscribe_gauge = 2
number reforward_gauge = 3

abbrev pub is_inc : Gauge → Effect → Bool
is_inc g (inc h) = number g == number h
is_inc g _ = false

abbrev pub is_dec : Gauge → Effect → Bool
is_dec g (dec h) = number g == number h
is_dec g _ = false

abbrev pub is_stream_up : Effect → Bool
is_stream_up (stream_up _) = true
is_stream_up _ = false

abbrev pub is_stream_down : Effect → Bool
is_stream_down (stream_down _) = true
is_stream_down _ = false

-- How many entries of the log are of a kind.
abbrev pub count : (Effect → Bool) → List Effect → ℕ
count p [] = 0
count p (e ∷ log) = (if p e then 1 else 0) + count p log

pub count-append :
    (p : Effect → Bool) (xs ys : List Effect) → count p (xs ++ ys) ≡ count p xs + count p ys
count-append p [] ys = omega arith
count-append p (x ∷ xs) ys = omega (arith, count-append p xs ys)
