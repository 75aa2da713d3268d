-- ===== src/Net4mqtt/Topic/RoundTrip.antt =====
-- A topic that was built is taken apart again.
use live.Prelude.{◌<◌, ◌≡◌, ◌≢◌, refl, Bytes, [], ◌∷◌, ◌++◌, arith, length, All, ok, panic}
use live.Net4mqtt.Topic.{
  Topic, all, nil, slash, split_char, build, build_sub, build_pub_x, split, parse,
}

-- A part without a slash.
abbrev pub IsPart : Bytes → Type 0
IsPart part = All (λ c. c ≢ split_char) part

split-part : (part : Bytes) → IsPart part → split part ≡ part ∷ []
unfolding split
split-part [] h = refl
split-part (c ∷ cs) h = ground (arith, split-part cs h.1)

split-before_slash :
    (part rest : Bytes) → IsPart part → split (part ++ (slash ++ rest)) ≡ part ∷ split rest
unfolding split
split-before_slash [] rest h = refl
split-before_slash (c ∷ cs) rest h = ground (arith, split-before_slash cs rest h.1)

-- Every part of a topic is without a slash.
pub record IsTopic (t : Topic) : Type 0 where
  pub prefix : IsPart t.prefix
  pub agent_id : IsPart t.agent_id
  pub local_id : IsPart t.local_id
  pub label : IsPart t.label
  pub protocol : IsPart t.protocol
  pub src : IsPart t.src
  pub dst : IsPart t.dst

split-four :
    (a b c d rest : Bytes)
    → IsPart a
    → IsPart b
    → IsPart c
    → IsPart d
    → split (a ++ (slash ++ (b ++ (slash ++ (c ++ (slash ++ (d ++ (slash ++ (rest)))))))))
      ≡ a ∷ b ∷ c ∷ d ∷ split rest
split-four a b c d rest ha hb hc hd =
    rw
      (
        split-before_slash a _ ha,
        split-before_slash b _ hb,
        split-before_slash c _ hc,
        split-before_slash d _ hd,
      )
      refl

-- A topic whose seven parts are free of slashes is built and taken apart again to the same parts.
pub parse-build : (t : Topic) → IsTopic t → parse (build t) ≡ ok t
unfolding parse build
parse-build t h =
    rw
      (
        split-four t.prefix t.agent_id t.local_id t.label _ h.prefix h.agent_id h.local_id h.label,
        split-before_slash t.protocol _ h.protocol,
        split-before_slash t.src _ h.src,
        split-part t.dst h.dst,
      )
      refl

-- The topics of a subscription and of the online status, with parts free of slashes, parse to those
-- parts, the wildcard or the placeholder behind them, and placeholders for the rest.
parse-build_sub :
    (prefix agent_id local_id label : Bytes)
    → IsPart prefix
    → IsPart agent_id
    → IsPart local_id
    → IsPart label
    → let topic : Bytes → Topic = λ last. record {
      prefix = prefix;
      agent_id = agent_id;
      local_id = local_id;
      label = label;
      protocol = last;
      src = nil;
      dst = nil;
    } in
      (parse (build_sub prefix agent_id local_id label) ≡ ok (topic all))
      × (parse (build_pub_x prefix agent_id local_id label) ≡ ok (topic nil))
unfolding parse build_sub build_pub_x split
parse-build_sub prefix agent_id local_id label ha hb hc hd = (
  rw (split-four prefix agent_id local_id label all ha hb hc hd) refl,
  rw (split-four prefix agent_id local_id label nil ha hb hc hd) refl,
)

split-nonempty : (bytes : Bytes) → 0 < length (split bytes)
unfolding split
split-nonempty [] = omega arith
split-nonempty (c ∷ cs) = ground (arith, split-nonempty cs)

-- A slash in the last part gives a topic of more than seven parts, and makes `parse` panic.
pub parse-build_panics :
    (t : Topic) (more : Bytes)
    → IsTopic t
    → parse (build (record t { dst = t.dst ++ (slash ++ more) })) ≡ panic
unfolding parse build
parse-build_panics t more h =
    rw
      (
        split-four t.prefix t.agent_id t.local_id t.label _ h.prefix h.agent_id h.local_id h.label,
        split-before_slash t.protocol _ h.protocol,
        split-before_slash t.src _ h.src,
        split-before_slash t.dst more h.dst,
      )
      (ground (arith, split-nonempty more))
