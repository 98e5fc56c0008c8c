-- ===== src/Lifecycle/Laws.antt =====
-- What starting a node does to its services.
use rust_node.Base.{
  String, str_eq, eq_refl, ◌≡◌, refl, ap, ◌∙◌, true, false, List, [], ◌∷◌, ◌++◌, Option, some, ◌⊎◌,
  inl, inr, Result, ok, err, if◌then◌else◌,
}
use rust_node.Base.Assoc.{lookup, lookup-insert}
use rust_node.Topic.{TopicPath}
use rust_node.Registry.{Vocabulary, ServiceRegistry, update_service_state, get_service_state}
use rust_node.Lifecycle.{
  Services, LifecycleNode, networking_failed, on_registry, state_of, start_services, started, start,
  stop,
}

-- No service of the list has this path.
abbrev pub IsOther : {A : Type 0} → String → List (TopicPath × A) → Type 0
IsOther path [] = Unit
IsOther path ((topic, service) ∷ rest) = (str_eq topic.path path ≡ false) × IsOther path rest

-- Starting a service leaves the states of services to the node.
abbrev pub StartKeepsStates : {v : Vocabulary} → Services v → Type 0
StartKeepsStates {v} x =
    (service : x.Service) (topic : TopicPath) (r : ServiceRegistry v)
    → (x.start service topic r).1.service_states_by_service_path ≡ r.service_states_by_service_path

module _ {v : Vocabulary} (x : Services v) where
  start_services-other :
      (topic : TopicPath) (later : List (TopicPath × x.Service)) (r : ServiceRegistry v)
      → StartKeepsStates x
      → IsOther topic.path later
      → get_service_state topic (start_services x later r) ≡ get_service_state topic r
  unfolding start_services get_service_state update_service_state
  start_services-other topic [] r keeps other = refl
  start_services-other topic ((t, service) ∷ rest) r keeps other =
      let (outcome, r') = x.start service t r in
      start_services-other topic rest (update_service_state t (state_of x outcome) r') keeps other.1
      ∙ rw
          (
            lookup-insert t.path topic.path (state_of x outcome) r'.service_states_by_service_path,
            other.0,
          )
          (ap (lookup topic.path) (keeps service t r))

  start_services-state :
      (before later : List (TopicPath × x.Service)) (topic : TopicPath) (service : x.Service)
      (r : ServiceRegistry v)
      → StartKeepsStates x
      → IsOther topic.path later
      → get_service_state topic (start_services x (before ++ (topic, service) ∷ later) r)
        ≡ some (state_of x (x.start service topic (start_services x before r)).0)
  unfolding start_services get_service_state update_service_state
  start_services-state [] later topic service r keeps other =
      let (outcome, r') = x.start service topic r in
      start_services-other topic later (update_service_state topic (state_of x outcome) r') keeps
        other
      ∙ rw
          (
            lookup-insert topic.path topic.path (state_of x outcome)
                r'.service_states_by_service_path,
            eq_refl topic.path,
          )
          refl
  start_services-state ((t, first) ∷ before) later topic service r keeps other =
      let (outcome, r') = x.start first t r in
      start_services-state before later topic service
        (update_service_state t (state_of x outcome) r') keeps other

  listed-state :
      (before later : List (TopicPath × x.Service)) (topic : TopicPath) (service : x.Service)
      (s : LifecycleNode x)
      → StartKeepsStates x
      → s.local_services_list ≡ before ++ (topic, service) ∷ later
      → IsOther topic.path later
      → get_service_state topic (start_services x s.local_services_list s.node.service_registry)
        ≡ some
            (state_of x (x.start service topic (start_services x before s.node.service_registry)).0)
  listed-state before later topic service s keeps services other =
      ap (λ entries. get_service_state topic (start_services x entries s.node.service_registry))
        services
      ∙ start_services-state before later topic service s.node.service_registry keeps other

  start-idle :
      (networking : Result (Unit {0}) String) (s : LifecycleNode x)
      → s.node.running ≡ false
      → start x networking s
        ≡ started x
            (if s.supports_networking then networking else ok tt)
            (on_registry x (start_services x s.local_services_list) s)
  unfolding start
  start-idle networking s idle =
      ap
        (λ running.
          if running
          then (ok tt, s)
          else started x (if s.supports_networking then networking else ok tt)
              (on_registry x (start_services x s.local_services_list) s))
        idle

  started-registry :
      (outcome : Result (Unit {0}) String) (s : LifecycleNode x)
      → (started x outcome s).1.node.service_registry ≡ s.node.service_registry
  started-registry (err e) s = refl
  started-registry (ok u) s = refl

  state_of-cases :
      (state : Option v.ServiceState) (outcome : Result (Unit {0}) String)
      → state ≡ some (state_of x outcome)
      → ((outcome ≡ ok tt) × (state ≡ some x.running))
        ⊎ ((e : String) × (outcome ≡ err e) × (state ≡ some x.error))
  state_of-cases state (ok u) h = inl (refl, h)
  state_of-cases state (err e) h = inr (e, refl, h)

  -- A node that does not run is started: each of its services whose path no later one has is then
  -- running where its own start succeeded, and in error where it failed, also where the networking
  -- fails. The start of a service leaves the states of services alone.
  pub start-states :
      (networking : Result (Unit {0}) String) (before later : List (TopicPath × x.Service))
      (topic : TopicPath) (service : x.Service) (s : LifecycleNode x)
      → StartKeepsStates x
      → s.node.running ≡ false
      → s.local_services_list ≡ before ++ (topic, service) ∷ later
      → IsOther topic.path later
      → (((x.start service topic (start_services x before s.node.service_registry)).0 ≡ ok tt)
          × (get_service_state topic (start x networking s).1.node.service_registry
              ≡ some x.running))
        ⊎ ((e : String) × ((x.start service topic
                (start_services x before s.node.service_registry)).0
              ≡ err e)
            × (get_service_state topic (start x networking s).1.node.service_registry
                ≡ some x.error))
  start-states networking before later topic service s keeps idle services other =
      let outcome = if s.supports_networking then networking else ok tt in
      let s' = on_registry x (start_services x s.local_services_list) s in
      state_of-cases _ _ (
        ap (λ result. get_service_state topic result.1.node.service_registry)
          (start-idle networking s idle)
        ∙ ap (get_service_state topic) (started-registry outcome s')
        ∙ listed-state before later topic service s keeps services other)

  -- A node whose networking fails to start: the start fails, a stop after it succeeds, and a service
  -- that was started, whose path no later one has, is running all the same. The start of a service
  -- leaves the states of services alone.
  pub stop-start :
      (e : String) (before later : List (TopicPath × x.Service)) (topic : TopicPath)
      (service : x.Service) (s : LifecycleNode x)
      → StartKeepsStates x
      → s.node.running ≡ false
      → s.supports_networking ≡ true
      → s.local_services_list ≡ before ++ (topic, service) ∷ later
      → IsOther topic.path later
      → (x.start service topic (start_services x before s.node.service_registry)).0 ≡ ok tt
      → ((start x (err e) s).0 ≡ err (networking_failed e))
        × ((stop x (start x (err e) s).1).0 ≡ ok tt)
        × (get_service_state topic (stop x (start x (err e) s).1).1.node.service_registry
            ≡ some x.running)
  unfolding start stop
  stop-start e before later topic service s keeps idle supports services other succeeded =
      let state =
        listed-state before later topic service s keeps services other
        ∙ ap (λ outcome. some (state_of x outcome)) succeeded in
      rw (idle, supports) (refl, refl, state)
