-- ===== src/Recorder/PliBackoff/Schedule.antt =====
-- The requests that the recorder sends, as its task does (recorder/task.rs): at a tick for which
-- `should_request` holds a request goes out and is recorded; a keyframe or a reset may come between.
use native.Mathlib.Nat.{pow-suc, mul_assoc, mul-le-mul_left}
use live.Prelude.{
  ℕ, suc, ◌+◌, ◌*◌, ◌^◌, ◌≤◌, ◌<◌, ◌≡◌, refl, sym, ap, ◌∙◌, true, false, List, [], ◌∷◌, arith, leb,
  Option, some, length, two-pow-pos, Bool-cases, inl, inr, u32,
}
use live.Recorder.PliBackoff.{
  PliBackoff, min_timeout, elapsed, should_request, record_request, record_keyframe, hard_reset,
}

at_cap : (t longest : ℕ) → longest ≤ t → min_timeout t longest ≡ longest
at_cap t longest h = ground arith

-- Doubling once below the cap, and `n` times more, is doubling `suc n` times.
doubled_once :
    (d longest n : ℕ)
    → min_timeout (min_timeout (d * 2) longest * 2 ^ n) longest
      ≡ min_timeout (d * 2 ^ suc n) longest
doubled_once d longest n =
    let same : d * 2 * 2 ^ n ≡ d * 2 ^ suc n =
      rw (pow-suc 2 n) (omega (arith, mul_assoc d 2 (2 ^ n))) in
    let grown : longest * 1 ≤ longest * 2 ^ n = mul-le-mul_left longest (two-pow-pos n) in
    let more : d * 2 * 1 ≤ d * 2 * 2 ^ n = mul-le-mul_left (d * 2) (two-pow-pos n) in
    elim (Bool-cases (leb (d * 2) longest)) [
      | inl below ↦ rw (below, same) refl
      | inr above ↦ rw above (
          at_cap (longest * 2 ^ n) longest (omega arith)
          ∙ sym (at_cap (d * 2 ^ suc n) longest (ground arith)))
    ]

-- The timeouts are within the cap, and no more requests are counted than the limit allows.
pub record IsBackoff {F : Type 0} (b : PliBackoff F) : Type 0 where
  pub first_short : b.initial_timeout ≤ b.max_timeout
  pub current_short : b.current_timeout ≤ b.max_timeout
  pub few : 0 < b.max_requests → b.request_count ≤ b.max_requests
  pub limit_word : b.max_requests < 2 ^ 32

module _ {F : Type 0} (scale : ℕ → F → Option ℕ) where
  -- Requests at these times, each of them due, and no keyframe between them.
  pub data Asked : List ℕ → PliBackoff F → PliBackoff F → Type 0 where
    no_more : {b : PliBackoff F} → Asked [] b b
    ask :
        {now : ℕ} {times : List ℕ} {b next last : PliBackoff F}
        → should_request now b ≡ true
        → record_request scale now b ≡ some next
        → Asked times next last
        → Asked (now ∷ times) b last

  -- One event at time `now`.
  pub data Step (now : ℕ) : PliBackoff F → PliBackoff F → Type 0 where
    requested :
        {b next : PliBackoff F}
        → should_request now b ≡ true
        → record_request scale now b ≡ some next
        → Step now b next
    got_keyframe : {b : PliBackoff F} → Step now b (record_keyframe now b)
    was_reset : {b : PliBackoff F} → Step now b (hard_reset b)

  -- What a recorded request leaves as it was, and what it counts.
  record Recorded (now : ℕ) (b next : PliBackoff F) : Type 0 where
    count : next.request_count ≡ u32 (b.request_count + 1)
    limit : next.max_requests ≡ b.max_requests
    longest : next.max_timeout ≡ b.max_timeout
    first : next.initial_timeout ≡ b.initial_timeout
    timeout : b.current_timeout ≤ b.max_timeout → next.current_timeout ≤ b.max_timeout
    keyframe : next.last_keyframe_time ≡ b.last_keyframe_time
    request : next.last_request_time ≡ some now

  record_request-Recorded :
      (now : ℕ) (b next : PliBackoff F)
      → record_request scale now b ≡ some next
      → Recorded now b next
  unfolding record_request
  record_request-Recorded now b next e = ground arith

  -- A request that is due, a keyframe and a reset keep the timeout within its cap, and the number of
  -- requests since the last keyframe or reset within the limit, where there is one.
  pub Step-IsBackoff :
      (now : ℕ) (b next : PliBackoff F) → IsBackoff b → Step now b next → IsBackoff next
  unfolding should_request record_keyframe hard_reset
  Step-IsBackoff now b next h (requested due e) =
      let r = record_request-Recorded now b next e in
      record {
        first_short = ground (arith, r.first, r.longest, h.first_short);
        current_short = ground (arith, r.timeout h.current_short, r.longest);
        few = ground (arith, r.count, r.limit, h.few);
        limit_word = ground (arith, r.limit, h.limit_word);
      }
  Step-IsBackoff now b _ h got_keyframe = omega (arith, h)
  Step-IsBackoff now b _ h was_reset = omega (arith, h)

  -- Between two keyframes no more requests go out than the limit allows, however long it takes: the
  -- requests at due times, with those counted before, are at most `max_requests`, where that is
  -- not zero, which stands for no limit.
  pub Asked-few :
      (times : List ℕ) (b last : PliBackoff F)
      → IsBackoff b
      → 0 < b.max_requests
      → Asked times b last
      → b.request_count + length times ≤ b.max_requests
  Asked-few [] b last h limited no_more = ground (arith, h.few limited)
  Asked-few (now ∷ times) b last h limited (ask {next = next} due e more) =
      let r = record_request-Recorded now b next e in
      let rest =
        Asked-few times next last (Step-IsBackoff now b next h (requested due e))
          (ground (arith, r.limit)) more in
      let open_yet : b.request_count < b.max_requests = unfold should_request in ground arith in
      ground (arith, r.count, r.limit, rest, h.limit_word, open_yet)

  record_request_doubles :
      (now : ℕ) (b next : PliBackoff F) (m : F) (longest : ℕ)
      → scale b.current_timeout m ≡ some (b.current_timeout * 2)
      → b.backoff_multiplier ≡ m
      → b.max_timeout ≡ longest
      → b.use_exponential ≡ true
      → b.request_count + 1 < 2 ^ 32
      → record_request scale now b ≡ some next
      → (next.current_timeout ≡ min_timeout (b.current_timeout * 2) longest)
        × (next.backoff_multiplier ≡ m)
        × (next.use_exponential ≡ true)
  unfolding record_request
  record_request_doubles now b next m longest doubled em ec exponential word e = ground arith

  -- With a multiplier that doubles, the timeout after `n` requests in a row is the one before them
  -- times 2 ^ n, cut at the cap. Of the `f64` arithmetic it is asked that it doubles every duration
  -- up to the cap; the request counter is asked not to wrap round.
  Asked-doubles :
      (times : List ℕ) (b last : PliBackoff F) (m : F) (longest : ℕ)
      → ((d : ℕ) → d ≤ longest → scale d m ≡ some (d * 2))
      → b.backoff_multiplier ≡ m
      → b.max_timeout ≡ longest
      → b.use_exponential ≡ true
      → b.current_timeout ≤ longest
      → b.request_count + length times < 2 ^ 32
      → Asked times b last
      → last.current_timeout ≡ min_timeout (b.current_timeout * 2 ^ length times) longest
  Asked-doubles [] b last m longest doubles em ec exponential short word no_more = ground arith
  Asked-doubles (now ∷ times) b last m longest doubles em ec exponential short word
        (ask {next = next} due e more) =
      let (timeout, multiplier, flag) =
        record_request_doubles now b next m longest (doubles b.current_timeout short) em ec
          exponential (omega arith) e in
      let r = record_request-Recorded now b next e in
      let rest =
        Asked-doubles times next last m longest doubles multiplier (r.longest ∙ ec) flag
          (ground (arith, timeout)) (ground (arith, r.count)) more in
      rest
      ∙ ap (λ t. min_timeout (t * 2 ^ length times) longest) timeout
      ∙ doubled_once b.current_timeout longest (length times)

-- Once the limit is reached nothing is requested any more, at any time, until a keyframe comes or
-- the state is reset: after a keyframe requests go on when the initial timeout has passed since
-- it, after a reset at once.
pub gave_up_until :
    {F : Type 0} (now t : ℕ) (b : PliBackoff F)
    → 0 < b.max_requests
    → b.max_requests ≤ b.request_count
    → (should_request now b ≡ false)
      × (should_request now (record_keyframe t b) ≡ leb b.initial_timeout (elapsed now t))
      × (should_request now (hard_reset b) ≡ true)
unfolding should_request record_keyframe hard_reset
gave_up_until now t b limited reached = ground arith
