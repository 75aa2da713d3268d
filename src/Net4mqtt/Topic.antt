-- ===== src/Net4mqtt/Topic.antt =====
-- libs/net4mqtt/src/topic.rs: the topics that carry the traffic, built and taken apart. A string is
-- the list of its character codes.
pub mod RoundTrip
mod Tests
use live.Prelude.{
  ℕ, ◌-◌, Bool, Bytes, List, [], ◌∷◌, ◌++◌, ltb, ◌==◌, if◌then◌else◌, length, codes, Outcome, ok,
  panic, zero, suc,
}

-- `ALL` and `NIL`.
abbrev pub all : Bytes
all = codes "#"

abbrev pub nil : Bytes
nil = codes "-"

-- `SPLIT`, the code of a slash.
abbrev pub split_char : ℕ
split_char = 47

-- The parts of a topic, in order.
pub record Topic : Type 0 where
  pub prefix : Bytes
  pub agent_id : Bytes
  pub local_id : Bytes
  pub label : Bytes
  pub protocol : Bytes
  pub src : Bytes
  pub dst : Bytes

abbrev pub slash : Bytes
slash = split_char ∷ []

-- `format!` with slashes between the parts.
unfoldable pub build : Topic → Bytes
build t =
    t.prefix
    ++ (slash
        ++ (t.agent_id
            ++ (slash
                ++ (t.local_id
                    ++ (slash
                        ++ (t.label
                            ++ (slash
                                ++ (t.protocol ++ (slash ++ (t.src ++ (slash ++ (t.dst))))))))))))

unfoldable pub build_sub : (prefix agent_id local_id label : Bytes) → Bytes
build_sub prefix agent_id local_id label =
    prefix
    ++ (slash ++ (agent_id ++ (slash ++ (local_id ++ (slash ++ (label ++ (slash ++ (all))))))))

unfoldable pub build_pub_x : (prefix agent_id local_id label : Bytes) → Bytes
build_pub_x prefix agent_id local_id label =
    prefix
    ++ (slash ++ (agent_id ++ (slash ++ (local_id ++ (slash ++ (label ++ (slash ++ (nil))))))))

-- `str::split`: a character goes to the first of the parts behind it.
add_char : ℕ → List Bytes → List Bytes
add_char c [] = (c ∷ []) ∷ []
add_char c (part ∷ parts) = (c ∷ part) ∷ parts

unfoldable pub split : Bytes → List Bytes
unfolding add_char
split [] = [] ∷ []
split (c ∷ cs) = let rest = split cs in if c == split_char then [] ∷ rest else add_char c rest

-- `(0..n).map(|_| NIL)`.
nils : ℕ → List Bytes
nils zero = []
nils (suc n) = nil ∷ nils n

-- `v[0]` to `v[6]`.
to_topic : List Bytes → Outcome (Unit {0}) Topic
to_topic (prefix ∷ agent_id ∷ local_id ∷ label ∷ protocol ∷ src ∷ dst ∷ _) = ok (record {
  prefix = prefix;
  agent_id = agent_id;
  local_id = local_id;
  label = label;
  protocol = protocol;
  src = src;
  dst = dst;
})
to_topic _ = panic

-- `7 - v.len()` overflows for more than seven parts.
unfoldable pub parse : Bytes → Outcome (Unit {0}) Topic
unfolding nils to_topic
parse topic =
    let v = split topic in if ltb 7 (length v) then panic else to_topic (v ++ nils (7 - length v))
