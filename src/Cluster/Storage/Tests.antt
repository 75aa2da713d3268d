-- ===== src/Cluster/Storage/Tests.antt =====
-- Inputs for the theorem on the cluster.
use live.Prelude.{
  ℕ, ◌≡◌, refl, arith, Bytes, List, [], ◌∷◌, Option, none, some, codes, ok, bytes_eq,
}
use live.Cluster.Storage.{Stream, Strategy, Node, static, Map, Storage, get, or_none, update}
use live.Cluster.Storage.Hosts.{hosts, update-hosts}

abbrev node : Bytes → Node
node url = record {
  token = [];
  kind = static;
  url = url;
  streams = [];
  strategy = none;
  duration = none;
}

abbrev two_nodes : Storage
two_nodes = record {
  list = (codes "n1", node (codes "http://n1")) ∷ (codes "n2", node (codes "http://n2")) ∷ [];
  time = 1000;
  stream = (codes "old", codes "n1" ∷ []) ∷ [];
  session = [];
}

abbrev answers : Map (Option (List Stream))
answers =
    (codes "n1", some (record { id = codes "cam"; sessions = codes "s1" ∷ [] } ∷ []))
    ∷ (codes "n2", some (record { id = codes "cam"; sessions = [] } ∷ []))
    ∷ []

abbrev strategies : Map (Option (Strategy × ℕ))
strategies = (codes "n1", some (record { each_stream_max_sub = 9 }, 5)) ∷ []

update-hosts_example :
    (s' : Storage) × (update 4000 strategies answers two_nodes ≡ ok s')
    × ((stream : Bytes) → or_none (get s'.stream stream) ≡ hosts stream answers)
unfolding get bytes_eq
update-hosts_example =
    update-hosts 4000 strategies answers two_nodes (omega arith) (refl, (refl, tt))

hosts_tests :
    (hosts (codes "cam") answers ≡ codes "n1" ∷ codes "n2" ∷ [])
    × (hosts (codes "old") answers ≡ [])
unfolding hosts bytes_eq
hosts_tests = (refl, refl)
