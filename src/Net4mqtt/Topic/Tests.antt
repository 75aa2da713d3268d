-- ===== src/Net4mqtt/Topic/Tests.antt =====
-- `test_build_parse` of topic.rs.
use live.Prelude.{◌≡◌, refl, ◌++◌, codes, ok, panic, arith}
use live.Net4mqtt.Topic.{Topic, nil, slash, build, split, parse}
use live.Net4mqtt.Topic.RoundTrip.{IsTopic, parse-build, parse-build_panics}

abbrev topic : Topic
topic = record {
  prefix = codes "net";
  agent_id = codes "3";
  local_id = codes "7";
  label = codes "i";
  protocol = codes "kcp";
  src = codes "src";
  dst = codes "dst";
}

topic-IsTopic : IsTopic topic
topic-IsTopic = omega arith

topic_built : build topic ≡ codes "net/3/7/i/kcp/src/dst"
unfolding build
topic_built = refl

short_parsed :
    parse (codes "a/b")
    ≡ ok (record {
      prefix = codes "a";
      agent_id = codes "b";
      local_id = nil;
      label = nil;
      protocol = nil;
      src = nil;
      dst = nil;
    })
unfolding parse split
short_parsed = refl

parse-build_example : parse (build topic) ≡ ok topic
parse-build_example = parse-build topic topic-IsTopic

parse-build_panics_example :
    parse (build (record topic { dst = codes "dst" ++ (slash ++ codes "x") })) ≡ panic
parse-build_panics_example = parse-build_panics topic (codes "x") topic-IsTopic
