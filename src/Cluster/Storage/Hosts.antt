-- ===== src/Cluster/Storage/Hosts.antt =====
-- After an update the cluster knows which node hosts which stream.
use live.Prelude.{
  ℕ, ◌+◌, ◌-◌, ◌≤◌, ◌≡◌, refl, sym, ap, ◌∙◌, arith, Bool, true, false, Bytes, List, [], ◌∷◌, ◌++◌,
  append_assoc, append-nil, if◌then◌else◌, Option, none, some, is_none, bytes_eq, bytes_eq_iff, ltb,
  ok, ◌>>=◌, Bool-cases, inl, inr,
}
use mathlib.Core.Path.{subst}
use live.Cluster.Storage.{
  Stream, Strategy, Node, Map, Storage, Result, get, insert, put_with, info_put, or_none,
  stream_put, session_put, session_path, put_sessions, put_streams, took, take_answer, take_answers,
  strategy_set, take_strategies, update,
}

-- The alias of a node, once for each of its streams of that name.
unfoldable pub named : (stream alias : Bytes) → List Stream → List Bytes
named stream alias [] = []
named stream alias (s ∷ streams) =
    let rest = named stream alias streams in if bytes_eq s.id stream then alias ∷ rest else rest

-- The nodes that answered with a stream of that name, in the order of the answers.
unfoldable pub hosts : (stream : Bytes) → Map (Option (List Stream)) → List Bytes
unfolding named
hosts stream [] = []
hosts stream ((alias, none) ∷ answers) = hosts stream answers
hosts stream ((alias, some streams) ∷ answers) = named stream alias streams ++ hosts stream answers

-- Every node that was asked is in the list.
abbrev pub Known : {A : Type 0} → Map Node → Map A → Type 0
Known list [] = Unit
Known list ((alias, _) ∷ answers) = (is_none (get list alias) ≡ false) × Known list answers

clashing : (b : Bool) → b ≡ true → b ≡ false → ⊥
clashing b e h = let clash : true ≡ false = sym e ∙ h in cc

module _ {A : Type 0} where
  pub get-insert :
      (key : Bytes) (v : A) (m : Map A) (other : Bytes)
      → get (insert key v m) other ≡ (if bytes_eq key other then some v else get m other)
  unfolding get insert
  get-insert key v [] other = refl
  get-insert key v ((k, w) ∷ m) other = elim (Bool-cases (bytes_eq k key)) [
    | inl same ↦
        let k_is : bytes_eq k other ≡ bytes_eq key other =
          ap (λ (n : Bytes). bytes_eq n other) ((bytes_eq_iff k key).0 same) in
        elim (Bool-cases (bytes_eq key other)) [
          | inl e ↦ rw (same, e, k_is ∙ e) refl
          | inr e ↦ rw (same, e, k_is ∙ e) refl
        ]
    | inr differ ↦ elim (Bool-cases (bytes_eq k other)) [
      | inl first ↦ elim (Bool-cases (bytes_eq key other)) [
        | inl both ↦ absurd (
            clashing (bytes_eq k key)
              ((bytes_eq_iff k key).1
                ((bytes_eq_iff k other).0 first ∙ sym ((bytes_eq_iff key other).0 both)))
              differ)
        | inr e ↦ rw (differ, first, e) refl
      ]
      | inr e ↦ rw (differ, e) (get-insert key v m other)
    ]
  ]

  insert-there :
      (key : Bytes) (v : A) (m : Map A) (other : Bytes)
      → is_none (get m other) ≡ false
      → is_none (get (insert key v m) other) ≡ false
  insert-there key v m other there =
      ap is_none (get-insert key v m other)
      ∙ elim (Bool-cases (bytes_eq key other)) [ inl e ↦ rw e refl | inr e ↦ rw e there ]

Known-insert :
    {A : Type 0} (key : Bytes) (v : Node) (list : Map Node) (answers : Map A)
    → Known list answers
    → Known (insert key v list) answers
Known-insert key v list [] k = tt
Known-insert key v list ((alias, _) ∷ answers) k =
    (insert-there key v list alias k.0, Known-insert key v list answers k.1)

strategy_set-Known :
    {A : Type 0} (o : Option Node) (alias : Bytes) (strategy : Strategy) (duration : ℕ)
    (list : Map Node) (answers : Map A)
    → Known list answers
    → Known (strategy_set o alias strategy duration list) answers
unfolding strategy_set
strategy_set-Known none alias strategy duration list answers k = k
strategy_set-Known (some node) alias strategy duration list answers k =
    Known-insert alias _ list answers k

take_strategies-Known :
    {A : Type 0} (strategies : Map (Option (Strategy × ℕ))) (list : Map Node) (answers : Map A)
    → Known list answers
    → Known (take_strategies strategies list) answers
unfolding take_strategies
take_strategies-Known [] list answers k = k
take_strategies-Known ((alias, none) ∷ rest) list answers k =
    take_strategies-Known rest list answers k
take_strategies-Known ((alias, some (strategy, duration)) ∷ rest) list answers k =
    take_strategies-Known rest (strategy_set (get list alias) alias strategy duration list) answers
      (strategy_set-Known (get list alias) alias strategy duration list answers k)

-- The sessions of a stream leave the nodes and the streams alone.
put_sessions-same :
    (alias stream : Bytes) (sessions : List Bytes) (s : Storage)
    → ((put_sessions alias stream sessions s).list ≡ s.list)
      × ((put_sessions alias stream sessions s).stream ≡ s.stream)
unfolding put_sessions session_put
put_sessions-same alias stream [] s = (refl, refl)
put_sessions-same alias stream (session ∷ sessions) s =
    put_sessions-same alias stream sessions (session_put (session_path stream session) alias s)

stream_put-lem :
    (stream alias key : Bytes) (s : Storage)
    → or_none (get (stream_put stream alias s).stream key)
      ≡ or_none (get s.stream key) ++ (if bytes_eq stream key then alias ∷ [] else [])
unfolding stream_put
stream_put-lem stream alias key s =
    ap or_none (get-insert stream (or_none (get s.stream stream) ++ (alias ∷ [])) s.stream key)
    ∙ elim (Bool-cases (bytes_eq stream key)) [
      | inl e ↦ rw e (
          ap (λ (n : Bytes). or_none (get s.stream n) ++ (alias ∷ []))
            ((bytes_eq_iff stream key).0 e))
      | inr e ↦ rw e (sym (append-nil (or_none (get s.stream key))))
    ]

named-cons :
    (key alias : Bytes) (s : Stream) (streams : List Stream)
    → (if bytes_eq s.id key then alias ∷ [] else []) ++ named key alias streams
      ≡ named key alias (s ∷ streams)
unfolding named
named-cons key alias s streams = elim (Bool-cases (bytes_eq s.id key)) [
  | inl e ↦ rw e refl
  | inr e ↦ rw e refl
]

put_streams-lem :
    (alias : Bytes) (streams : List Stream) (s : Storage)
    → ((put_streams alias streams s).list ≡ s.list)
      × ((key : Bytes)
          → or_none (get (put_streams alias streams s).stream key)
            ≡ or_none (get s.stream key) ++ named key alias streams)
unfolding put_streams named stream_put
put_streams-lem alias [] s = (refl, λ key. sym (append-nil (or_none (get s.stream key))))
put_streams-lem alias (stream ∷ streams) s =
    let put = stream_put stream.id alias s in
    let (same_list, same_stream) = put_sessions-same alias stream.id stream.sessions put in
    let (then_list, then_stream) =
      put_streams-lem alias streams (put_sessions alias stream.id stream.sessions put) in
    (
      then_list ∙ same_list,
      λ key.
          then_stream key
          ∙ ap (λ (m : Map (List Bytes)). or_none (get m key) ++ named key alias streams)
              same_stream
          ∙ ap (λ (aliases : List Bytes). aliases ++ named key alias streams)
              (stream_put-lem stream.id alias key s)
          ∙ append_assoc (or_none (get s.stream key))
              (if bytes_eq stream.id key then alias ∷ [] else []) (named key alias streams)
          ∙ ap (λ (aliases : List Bytes). or_none (get s.stream key) ++ aliases)
              (named-cons key alias stream streams),
    )

there : (o : Option Node) → is_none o ≡ false → (node : Node) × (o ≡ some node)
there none e = cc
there (some node) e = (node, refl)

took_stored :
    (alias : Bytes) (streams : List Stream) (s : Storage)
    → is_none (get s.list alias) ≡ false
    → (node : Node) × (take_answer alias (some streams) s
        ≡ ok (
            put_streams alias streams
              (record s { list = insert alias (record node { streams = streams }) s.list })))
unfolding take_answer took info_put put_with
took_stored alias streams s known =
    let (node, e) = there (get s.list alias) known in
    (node, ap (λ (o : Option Node). took alias streams (put_with o alias streams s)) e)

take_answers-hosts :
    (answers : Map (Option (List Stream))) (s : Storage)
    → Known s.list answers
    → (s' : Storage) × (take_answers answers s ≡ ok s')
      × ((key : Bytes)
          → or_none (get s'.stream key) ≡ or_none (get s.stream key) ++ hosts key answers)
unfolding take_answers take_answer hosts
take_answers-hosts [] s k = (s, refl, λ key. sym (append-nil (or_none (get s.stream key))))
take_answers-hosts ((alias, none) ∷ answers) s k = take_answers-hosts answers s k.1
take_answers-hosts ((alias, some streams) ∷ answers) s k =
    let (node, stored) = took_stored alias streams s k.0 in
    let before = record s { list = insert alias (record node { streams = streams }) s.list } in
    let (same_list, found) = put_streams-lem alias streams before in
    let (s', runs, rest) = take_answers-hosts answers (put_streams alias streams before) (
      subst (λ (list : Map Node). Known list answers) (sym same_list)
        (Known-insert alias (record node { streams = streams }) s.list answers k.1)) in
    (
      s',
      ap (λ (r : Result Storage). r >>= λ next. take_answers answers next) stored ∙ runs,
      λ key.
          rest key
          ∙ ap (λ (aliases : List Bytes). aliases ++ hosts key answers) (found key)
          ∙ append_assoc (or_none (get s.stream key)) (named key alias streams) (hosts key answers),
    )

-- An update that is due returns if every node that answered is in the list of nodes, and then exactly
-- the nodes that answered with a stream are known to host it, in the order of the answers; nothing is
-- kept from before.
pub update-hosts :
    (now : ℕ) (strategies : Map (Option (Strategy × ℕ))) (answers : Map (Option (List Stream)))
    (s : Storage)
    → s.time + 3000 ≤ now
    → Known s.list answers
    → (s' : Storage) × (update now strategies answers s ≡ ok s')
      × ((stream : Bytes) → or_none (get s'.stream stream) ≡ hosts stream answers)
unfolding update get
update-hosts now strategies answers s due known =
    let next = record s { time = now; list = take_strategies strategies s.list; stream = [] } in
    let forward : ltb now s.time ≡ false = ground arith in
    let not_yet : ltb (now - s.time) 3000 ≡ false = ground arith in
    let (s', runs, found) =
      take_answers-hosts answers next (take_strategies-Known strategies s.list answers known) in
    (s', rw (forward, not_yet) runs, found)
