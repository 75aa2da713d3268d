-- ===== src/Cluster/Storage.antt =====
-- liveman/src/store.rs, `Storage`: the nodes of a cluster and what they host. The answers of the nodes
-- are arguments, since asking them is the reqwest crate. The locks are never poisoned, the body of a
-- response can be read once it has come, and each function is what one call does when no other comes
-- between.
pub mod Hosts
mod Tests
use live.Prelude.{
  ℕ, ◌-◌, Bool, true, false, Bytes, List, [], ◌∷◌, ◌++◌, if◌then◌else◌, Option, none, some, is_none,
  bytes_eq, ltb, codes, Outcome, ok, err, panic, ◌>>=◌,
}

-- Of `api::response::Stream` and `api::strategy::Strategy`, what the code reads.
pub record Stream : Type 0 where
  pub id : Bytes
  pub sessions : List Bytes

pub record Strategy : Type 0 where
  pub each_stream_max_sub : ℕ

pub data NodeKind : Type 0 where
  static : NodeKind
  manual : NodeKind
  net4mqtt : NodeKind

pub record Node : Type 0 where
  pub token : Bytes
  pub kind : NodeKind
  pub url : Bytes
  pub streams : List Stream
  pub strategy : Option Strategy
  pub duration : Option ℕ

pub record Server : Type 0 where
  pub alias : Bytes
  pub token : Bytes
  pub url : Bytes
  pub pub_max : ℕ
  pub sub_max : ℕ

max_sub : Option Strategy → ℕ
max_sub none = 65535
max_sub (some x) = x.each_stream_max_sub

-- `From<(String, Node)> for Server`.
unfoldable pub to_server : Bytes → Node → Server
unfolding max_sub
to_server alias v = record {
  alias = alias;
  token = v.token;
  url = v.url;
  pub_max = 65535;
  sub_max = max_sub v.strategy;
}

-- A hash map, with the order of its iteration.
abbrev pub Map : Type 0 → Type 0
Map A = List (Bytes × A)

module _ {A : Type 0} where
  unfoldable pub get : Map A → Bytes → Option A
  get [] key = none
  get ((k, v) ∷ m) key = let rest = get m key in if bytes_eq k key then some v else rest

  unfoldable pub insert : Bytes → A → Map A → Map A
  insert key v [] = (key, v) ∷ []
  insert key v ((k, w) ∷ m) =
      let rest = insert key v m in if bytes_eq k key then (k, v) ∷ m else (k, w) ∷ rest

pub record Storage : Type 0 where
  pub list : Map Node
  pub time : ℕ
  pub stream : Map (List Bytes)
  pub session : Map Bytes

abbrev pub Result : Type 0 → Type 0
Result A = Outcome Bytes A

put_with : Option Node → Bytes → List Stream → Storage → Result Storage
put_with none alias target s = err (codes "node not found")
put_with (some node) alias target s =
    ok (record s { list = insert alias (record node { streams = target }) s.list })

unfoldable pub info_put : Bytes → List Stream → Storage → Result Storage
unfolding put_with
info_put alias target s = put_with (get s.list alias) alias target s

-- `unwrap_or(vec![])`.
abbrev pub or_none : Option (List Bytes) → List Bytes
or_none none = []
or_none (some aliases) = aliases

unfoldable pub stream_put : (stream alias : Bytes) → Storage → Storage
stream_put stream alias s = record s {
  stream = insert stream (or_none (get s.stream stream) ++ (alias ∷ [])) s.stream;
}

unfoldable pub session_put : (session alias : Bytes) → Storage → Storage
session_put session alias s = record s { session = insert session alias s.session }

-- `api::path::session`.
abbrev pub session_path : (stream session : Bytes) → Bytes
session_path stream session = codes "/session/" ++ (stream ++ (codes "/" ++ session))

unfoldable pub put_sessions : (alias stream : Bytes) → List Bytes → Storage → Storage
put_sessions alias stream [] s = s
put_sessions alias stream (session ∷ sessions) s =
    put_sessions alias stream sessions (session_put (session_path stream session) alias s)

unfoldable pub put_streams : (alias : Bytes) → List Stream → Storage → Storage
unfolding put_sessions
put_streams alias [] s = s
put_streams alias (stream ∷ streams) s =
    put_streams alias streams
      (put_sessions alias stream.id stream.sessions (stream_put stream.id alias s))

-- The streams of a node that has answered; `info_put` is unwrapped.
took : Bytes → List Stream → Result Storage → Result Storage
took alias streams (ok s) = ok (put_streams alias streams s)
took alias streams (err _) = panic
took alias streams panic = panic

unfoldable pub take_answer : Bytes → Option (List Stream) → Storage → Result Storage
unfolding took
take_answer alias none s = ok s
take_answer alias (some streams) s = took alias streams (info_put alias streams s)

-- The answers to the question for streams, by alias, in the order of the requests: `none` where there is none that
-- can be read.
unfoldable pub take_answers : Map (Option (List Stream)) → Storage → Result Storage
take_answers [] s = ok s
take_answers ((alias, answer) ∷ answers) s =
    take_answer alias answer s >>= λ next. take_answers answers next

-- The answers to the question for strategies, with how long each took.
strategy_set : Option Node → Bytes → Strategy → ℕ → Map Node → Map Node
strategy_set none alias strategy duration list = list
strategy_set (some node) alias strategy duration list =
    insert alias (record node { duration = some duration; strategy = some strategy }) list

unfoldable pub take_strategies : Map (Option (Strategy × ℕ)) → Map Node → Map Node
unfolding strategy_set
take_strategies [] list = list
take_strategies ((alias, none) ∷ answers) list = take_strategies answers list
take_strategies ((alias, some (strategy, duration)) ∷ answers) list =
    take_strategies answers (strategy_set (get list alias) alias strategy duration list)

-- `update`, with the time in milliseconds. `elapsed` fails if the clock has been put back behind the
-- time of the last update, and that is unwrapped.
unfoldable pub update :
    (now : ℕ)
    → (strategies : Map (Option (Strategy × ℕ))) → (answers : Map (Option (List Stream))) → Storage
    → Result Storage
update now strategies answers s =
    if ltb now s.time
    then panic
    else if ltb (now - s.time) 3000
    then ok s
    else take_answers answers
        (record s { time = now; list = take_strategies strategies s.list; stream = [] })

servers_of : Map Node → List Bytes → List Server
servers_of nodes [] = []
servers_of nodes (alias ∷ aliases) =
    let rest = servers_of nodes aliases in
    elim (get nodes alias) [ none ↦ rest | some n ↦ to_server alias n ∷ rest ]

-- `stream_get` and `session_get`, behind the update.
unfoldable pub stream_get : Bytes → Storage → List Server
unfolding servers_of
stream_get stream s = servers_of s.list (or_none (get s.stream stream))

server_with : Bytes → Option Node → Result Server
server_with alias none = err (codes "node not found")
server_with alias (some node) = ok (to_server alias node)

server_at : Map Node → Option Bytes → Result Server
server_at list none = err (codes "session not found")
server_at list (some alias) = server_with alias (get list alias)

unfoldable pub session_get : Bytes → Storage → Result Server
unfolding server_with server_at
session_get session s = server_at s.list (get s.session session)
