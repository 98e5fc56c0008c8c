-- ===== src/Discovery/Laws.antt =====
-- What announcing and the end of it leave behind.
use rust_node.Base.{
  ℕ, zero, suc, [], ◌∷◌, ap, ◌∙◌, append-nil, append_assoc, String, str_eq, ◌≡◌, refl, List, ◌++◌,
  map, none, some, ok, if◌then◌else◌, Bool-cases, inl, inr,
}
use rust_node.Base.Assoc.{lookup, insert, remove, lookup-insert, lookup-remove}
use rust_node.Network.{NodeInfo, PeerInfo}
use rust_node.Discovery.{
  MemoryDiscovery, peer_info_of, call_listeners, without_local, with_handle, call_each,
  announce_round, start_announce_task, add_node_internal, start_announcing, stop_announcing,
}

lookup-remove-insert :
    {V : Type 0} (key other : String) (value : V) (entries : List (String × V))
    → lookup other (remove key (insert key value entries))
      ≡ (if str_eq key other then none else lookup other entries)
lookup-remove-insert key other value entries = elim (Bool-cases (str_eq key other)) [
  | inl h ↦ rw (lookup-remove key other (insert key value entries), h) refl
  | inr h ↦
      rw
        (
          lookup-remove key other (insert key value entries),
          lookup-insert key other value entries,
          h,
        )
        refl
]

-- The calls of that many announcements of a node.
abbrev pub announced :
    {M Listener : Type 0} → ℕ → NodeInfo M → List Listener → List (Listener × PeerInfo)
announced zero info listeners = []
announced (suc n) info listeners =
    map (λ listener. (listener, peer_info_of info)) listeners ++ announced n info listeners

module _ {M Listener Options : Type 0} where
  -- Rounds of the tasks, one after the other.
  abbrev pub rounds : ℕ → MemoryDiscovery M Listener Options → MemoryDiscovery M Listener Options
  rounds zero d = d
  rounds (suc n) d = rounds n (announce_round d)

  -- A discovery that runs one task, with or without a handle.
  rounds-one :
      (n : ℕ) (info : NodeInfo M) (d : MemoryDiscovery M Listener Options)
      → with_handle d.announce_task d.detached ≡ info ∷ []
      → rounds n d ≡ record d { calls = d.calls ++ announced n info d.listeners }
  unfolding announce_round
  rounds-one zero info d one = rw (append-nil d.calls) refl
  rounds-one (suc n) info d one =
      ap (λ tasks. rounds n (call_each tasks d)) one
      ∙ rounds-one n info (call_listeners info d) one
      ∙ ap (λ calls. record d { calls = calls })
          (append_assoc d.calls (map (λ listener. (listener, peer_info_of info)) d.listeners)
            (announced n info d.listeners))

  rounds-none :
      (n : ℕ) (d : MemoryDiscovery M Listener Options)
      → with_handle d.announce_task d.detached ≡ []
      → rounds n d ≡ d
  unfolding announce_round
  rounds-none zero d none_left = refl
  rounds-none (suc n) d none_left =
      ap (λ tasks. rounds n (call_each tasks d)) none_left ∙ rounds-none n d none_left

  start_announcing-ok :
      (info : NodeInfo M) (options : Options) (d : MemoryDiscovery M Listener Options)
      → d.local_node ≡ some info
      → d.options ≡ some options
      → start_announcing d ≡ (ok tt, start_announce_task info (add_node_internal info d))
  unfolding start_announcing
  start_announcing-ok info options d local given = simp (local, given) refl

  -- What is left when announcing is stopped after some rounds.
  abbrev stopped_after :
      ℕ → NodeInfo M → MemoryDiscovery M Listener Options → MemoryDiscovery M Listener Options
  stopped_after n info d = record d {
    nodes = remove info.peer_id.public_key (insert info.peer_id.public_key info d.nodes);
    calls =
        (d.calls ++ map (λ listener. (listener, peer_info_of info)) d.listeners)
        ++ announced n info d.listeners;
    announce_task = none;
    detached = with_handle d.announce_task d.detached;
  }

  stop_announcing-eq :
      (info : NodeInfo M) (n : ℕ) (d : MemoryDiscovery M Listener Options)
      → d.local_node ≡ some info
      → with_handle d.announce_task d.detached ≡ []
      → stop_announcing (rounds n (start_announce_task info (add_node_internal info d)))
        ≡ stopped_after n info d
  unfolding stop_announcing start_announce_task add_node_internal
  stop_announcing-eq info n d local idle =
      let d' = start_announce_task info (add_node_internal info d) in
      ap stop_announcing (rounds-one n info d' (ap (λ tasks. info ∷ tasks) idle))
      ∙ ap
          (λ o.
            without_local o (record d' {
              calls = d'.calls ++ announced n info d.listeners;
              announce_task = none;
            }))
          local

  -- A discovery that has a local node and options and runs no task announces the node, the task runs
  -- some rounds, announcing is stopped, and more rounds are due: the start succeeds, each listener was
  -- called once for the start and once for each round before the stop, and the nodes are those from
  -- before, less the local one.
  pub stop_announcing-start_announcing :
      (info : NodeInfo M) (options : Options) (n k : ℕ) (d : MemoryDiscovery M Listener Options)
      (key : String)
      → d.local_node ≡ some info
      → d.options ≡ some options
      → with_handle d.announce_task d.detached ≡ []
      → ((start_announcing d).0 ≡ ok tt)
        × ((rounds k (stop_announcing (rounds n (start_announcing d).1))).calls
            ≡ d.calls ++ announced (suc n) info d.listeners)
        × (lookup key (rounds k (stop_announcing (rounds n (start_announcing d).1))).nodes
            ≡ (if str_eq info.peer_id.public_key key then none else lookup key d.nodes))
  stop_announcing-start_announcing info options n k d key local given idle =
      let begun = start_announcing-ok info options d local given in
      let ended =
        ap (λ result. rounds k (stop_announcing (rounds n result.1))) begun
        ∙ ap (rounds k) (stop_announcing-eq info n d local idle)
        ∙ rounds-none k (stopped_after n info d) idle in
      (
        ap (λ result. result.0) begun,
        ap (λ left. left.calls) ended
            ∙ append_assoc d.calls (map (λ listener. (listener, peer_info_of info)) d.listeners)
                (announced n info d.listeners),
        ap (λ left. lookup key left.nodes) ended
            ∙ lookup-remove-insert info.peer_id.public_key key info d.nodes,
      )

  -- A discovery that has a local node and options and runs no task is started twice and stopped once:
  -- every round after the stop still calls each listener with the local node.
  pub stop_announcing-twice :
      (info : NodeInfo M) (options : Options) (n : ℕ) (d : MemoryDiscovery M Listener Options)
      → d.local_node ≡ some info
      → d.options ≡ some options
      → with_handle d.announce_task d.detached ≡ []
      → (rounds n (stop_announcing (start_announcing (start_announcing d).1).1)).calls
        ≡ d.calls ++ announced (suc (suc n)) info d.listeners
  unfolding stop_announcing start_announce_task add_node_internal
  stop_announcing-twice info options n d local given idle =
      let called = map (λ listener. (listener, peer_info_of info)) d.listeners in
      let first = start_announce_task info (add_node_internal info d) in
      let second = start_announce_task info (add_node_internal info first) in
      ap (λ result. (rounds n (stop_announcing (start_announcing result.1).1)).calls)
        (start_announcing-ok info options d local given)
      ∙ ap (λ result. (rounds n (stop_announcing result.1)).calls)
          (start_announcing-ok info options first local given)
      ∙ ap (λ o. (rounds n (without_local o (record second { announce_task = none }))).calls) local
      ∙ ap (λ left. left.calls)
          (rounds-one n info
            (record second {
              announce_task = none;
              nodes = remove info.peer_id.public_key second.nodes;
            })
            (ap (λ tasks. info ∷ tasks) idle))
      ∙ append_assoc (d.calls ++ called) called (announced n info d.listeners)
      ∙ append_assoc d.calls called (called ++ announced n info d.listeners)
