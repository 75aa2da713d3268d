-- ===== src/Recorder/PliBackoff.antt =====
-- liveion/src/recorder/pli_backoff.rs: when to ask the sender for a keyframe. A `Duration` and an
-- `Instant` are numbers of nanoseconds, and `Instant::now()` is an argument. The arithmetic of `f64`
-- is a parameter: `F` are the numbers, and `scale d m` is
-- `Duration::from_secs_f64(d.as_secs_f64() * m)`, `none` where that panics.
pub mod Schedule
mod Tests
use live.Prelude.{
  ℕ, ◌+◌, ◌-◌, ◌*◌, ◌%◌, ◌^◌, Bool, true, false, ◌&&◌, ltb, leb, ◌==◌, if◌then◌else◌, Option, none,
  some, u32, u64,
}

pub record PliBackoff (F : Type 0) : Type 0 where
  pub initial_timeout : ℕ
  pub max_timeout : ℕ
  pub current_timeout : ℕ
  pub last_keyframe_time : Option ℕ
  pub last_request_time : Option ℕ
  pub request_count : ℕ
  pub max_requests : ℕ
  pub backoff_multiplier : F
  pub use_exponential : Bool
  pub total_requests : ℕ
  pub total_keyframes : ℕ

-- `t.elapsed()` at time `now`; it saturates at zero.
abbrev pub elapsed : ℕ → ℕ → ℕ
elapsed now t = now - t

abbrev pub min_timeout : ℕ → ℕ → ℕ
min_timeout a b = if leb a b then a else b

abbrev pub seconds : ℕ → ℕ
seconds s = s * 1000000000

module _ {F : Type 0} where
  unfoldable pub new : ℕ → ℕ → ℕ → F → Bool → PliBackoff F
  new initial_timeout max_timeout max_requests backoff_multiplier use_exponential = record {
    initial_timeout = initial_timeout;
    max_timeout = max_timeout;
    current_timeout = initial_timeout;
    last_keyframe_time = none;
    last_request_time = none;
    request_count = 0;
    max_requests = max_requests;
    backoff_multiplier = backoff_multiplier;
    use_exponential = use_exponential;
    total_requests = 0;
    total_keyframes = 0;
  }

  -- `two` is the literal `2.0`.
  abbrev pub default : F → PliBackoff F
  default two = new (seconds 5) (seconds 30) 5 two true

  -- The cooldown after a request, while there is no keyframe.
  cooled_down : PliBackoff F → ℕ → Option ℕ → Bool
  cooled_down b now none = true
  cooled_down b now (some last_req) = leb b.current_timeout (elapsed now last_req)

  due : PliBackoff F → ℕ → Option ℕ → Bool
  due b now none = cooled_down b now b.last_request_time
  due b now (some last_kf) = leb b.current_timeout (elapsed now last_kf)

  unfoldable pub should_request : ℕ → PliBackoff F → Bool
  unfolding cooled_down due
  should_request now b =
      if ltb 0 b.max_requests && leb b.max_requests b.request_count
      then false
      else due b now b.last_keyframe_time

  abbrev pub reset_backoff : PliBackoff F → PliBackoff F
  reset_backoff b = record b {
    current_timeout = b.initial_timeout;
    request_count = 0;
    last_request_time = none;
  }

  unfoldable pub record_keyframe : ℕ → PliBackoff F → PliBackoff F
  record_keyframe now b =
      reset_backoff
        (record b { last_keyframe_time = some now; total_keyframes = u64 (b.total_keyframes + 1) })

  unfoldable pub hard_reset : PliBackoff F → PliBackoff F
  hard_reset b = record b {
    last_keyframe_time = none;
    last_request_time = none;
    request_count = 0;
    current_timeout = b.initial_timeout;
  }

  unfoldable pub time_since_keyframe : ℕ → PliBackoff F → Option ℕ
  time_since_keyframe now b = elim b.last_keyframe_time [
    | none ↦ none
    | some t ↦ some (elapsed now t)
  ]

  unfoldable pub time_since_request : ℕ → PliBackoff F → Option ℕ
  time_since_request now b = elim b.last_request_time [
    | none ↦ none
    | some t ↦ some (elapsed now t)
  ]

module _ {F : Type 0} (scale : ℕ → F → Option ℕ) where
  -- The part under `if self.use_exponential`.
  back_off : PliBackoff F → Option (PliBackoff F)
  back_off b =
      if b.use_exponential && ltb 0 b.request_count
      then elim (scale b.current_timeout b.backoff_multiplier) [
        | none ↦ none
        | some new_timeout ↦
            some (record b { current_timeout = min_timeout new_timeout b.max_timeout })
      ]
      else some b

  -- `none` is the panic of a timeout that fits no `Duration`. The counters wrap as they do in a
  -- release build.
  unfoldable pub record_request : ℕ → PliBackoff F → Option (PliBackoff F)
  unfolding back_off
  record_request now b = back_off (record b {
    last_request_time = some now;
    request_count = u32 (b.request_count + 1);
    total_requests = u64 (b.total_requests + 1);
  })
