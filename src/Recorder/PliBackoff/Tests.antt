-- ===== src/Recorder/PliBackoff/Tests.antt =====
-- The tests of pli_backoff.rs, with a whole number as the multiplier.
use live.Prelude.{
  ℕ, ◌+◌, ◌*◌, ◌≤◌, ◌≡◌, refl, true, false, List, [], ◌∷◌, arith, leb, Option, none, some,
}
use live.Recorder.PliBackoff.{
  PliBackoff, new, default, time_since_keyframe, time_since_request, seconds, elapsed,
  should_request, record_request, record_keyframe, hard_reset,
}
use live.Recorder.PliBackoff.Schedule.{
  Asked, no_more, ask, was_reset, IsBackoff, Step-IsBackoff, Asked-few, gave_up_until,
}

abbrev scale : ℕ → ℕ → Option ℕ
scale d m = some (d * m)

-- `test_exponential_backoff`: one second at first, ten at most, five requests.
abbrev fresh : PliBackoff ℕ
fresh = record {
  initial_timeout = seconds 1;
  max_timeout = seconds 10;
  current_timeout = seconds 1;
  last_keyframe_time = none;
  last_request_time = none;
  request_count = 0;
  max_requests = 5;
  backoff_multiplier = 2;
  use_exponential = true;
  total_requests = 0;
  total_keyframes = 0;
}

fresh_new : new (seconds 1) (seconds 10) 5 2 true ≡ fresh
unfolding new
fresh_new = refl

-- `test_initial_request`.
default_asks : should_request {F = ℕ} 0 (default 2) ≡ true
unfolding new should_request
default_asks = refl

abbrev after : ℕ → ℕ → ℕ → PliBackoff ℕ
after count timeout last = record fresh {
  current_timeout = seconds timeout;
  last_request_time = some (seconds last);
  request_count = count;
  total_requests = count;
}

-- Four requests, each when it is due: the timeouts are 2, 4, 8 and 10 seconds.
abbrev times : List ℕ
times = seconds 1 ∷ seconds 3 ∷ seconds 7 ∷ seconds 15 ∷ []

four-Asked : Asked scale times fresh (after 4 10 15)
unfolding should_request record_request
four-Asked = ask {next = after 1 2 1} refl refl (
    ask {next = after 2 4 3} refl refl
      (ask {next = after 3 8 7} refl refl (ask {next = after 4 10 15} refl refl no_more)))

fresh-IsBackoff : IsBackoff fresh
fresh-IsBackoff = omega arith

Step-IsBackoff_example : IsBackoff (hard_reset fresh)
Step-IsBackoff_example = Step-IsBackoff scale 7 fresh (hard_reset fresh) fresh-IsBackoff was_reset

Asked-few_example : 0 + 4 ≤ 5
Asked-few_example =
    Asked-few scale times fresh (after 4 10 15) fresh-IsBackoff (omega arith) four-Asked

gave_up_until_example :
    (should_request (seconds 99) (after 5 10 25) ≡ false)
    × (should_request (seconds 99) (record_keyframe (seconds 60) (after 5 10 25))
        ≡ leb (seconds 1) (elapsed (seconds 99) (seconds 60)))
    × (should_request (seconds 99) (hard_reset (after 5 10 25)) ≡ true)
gave_up_until_example =
    gave_up_until (seconds 99) (seconds 60) (after 5 10 25) (omega arith) (omega arith)

since_events :
    (time_since_request (seconds 20) (after 4 10 15) ≡ some (seconds 5))
    × (time_since_keyframe (seconds 20) (record_keyframe (seconds 18) fresh) ≡ some (seconds 2))
unfolding time_since_request time_since_keyframe record_keyframe
since_events = (refl, refl)
