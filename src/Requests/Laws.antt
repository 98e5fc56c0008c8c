-- ===== src/Requests/Laws.antt =====
-- A request picks a handler whenever there is one, and never indexes past the list.
use native.Mathlib.Nat.{mod-eq_of_lt, add-zero}
use rust_node.Base.{
  ℕ, zero, suc, ◌+◌, ◌%◌, ◌<◌, length, arith, Result, ◌∙◌, String, ◌≡◌, ◌≢◌, refl, List, [], ◌∷◌,
  Option, none, some, ok, err, get_elem?, Result-cases, inl, inr, ap,
}
use rust_node.Topic
use rust_node.Topic.{TopicPath, TopicError, DefaultHasher}
use rust_node.Balancing.{RoundRobinLoadBalancer, select_handler}
use rust_node.Balancing.Laws.{select_handler-get_elem?}
use rust_node.Registry.{Vocabulary, get_local_action_handler, get_remote_action_handlers}
use rust_node.Requests.{
  Route, RequestError, Node, remote, index_out_of_range, route_remote, route, request_topic,
  request,
}

route_remote-some :
    {Handler : Type 0} (handlers : List Handler) (balancer : RoundRobinLoadBalancer)
    → handlers ≢ []
    → (handler : Handler) × (route_remote handlers balancer ≡ (
      ok (remote handler),
      record { current_index = (balancer.current_index + 1) % 18446744073709551616 },
    ))
      × (get_elem? handlers (balancer.current_index % length handlers) ≡ some handler)
unfolding route_remote select_handler
route_remote-some [] balancer n = absurd (n refl)
route_remote-some (h ∷ hs) balancer n =
    let (handler, e) = select_handler-get_elem? (h ∷ hs) balancer n in (handler, rw e refl, e)

route-in_range :
    {Handler : Type 0} (topic : TopicPath) (found : Option (Handler × TopicPath))
    (handlers : List Handler) (balancer : RoundRobinLoadBalancer)
    → (route topic found handlers balancer).0 ≢ err index_out_of_range
unfolding route route_remote
route-in_range topic (some (handler, registration)) handlers balancer e = cc
route-in_range topic none [] balancer e = cc
route-in_range topic none (h ∷ hs) balancer e =
    let (handler, picked, place) = route_remote-some (h ∷ hs) balancer (λ k. cc) in
    cc (e, ap (λ result. result.0) picked)

module _ ⦃hasher : DefaultHasher⦄ {v : Vocabulary} where
  -- No request indexes past the list of remote handlers, whatever the registry and the counter.
  pub request-in_range :
      (node : Node v) (path : String) → (request node path).0 ≢ err index_out_of_range
  unfolding request request_topic
  request-in_range node path e = elim (Result-cases (Topic.new path node.network_id)) [
    | inl (topic, h) ↦
        route-in_range topic (get_local_action_handler topic node.service_registry)
          (get_remote_action_handlers topic node.service_registry) node.load_balancer (rw h at e)
    | inr (failure, h) ↦ cc (rw h at e)
  ]

  -- The outcomes of a row of requests by one path.
  unfoldable pub request_row :
      ℕ → Node v → String → List (Result (Route v.ActionHandler) RequestError)
  request_row zero node path = []
  request_row (suc n) node path =
      let (outcome, later) = request node path in
      outcome ∷ request_row n (record node { load_balancer = later }) path

  request-remote :
      (node : Node v) (path : String) (topic : TopicPath)
      → Topic.new path node.network_id ≡ ok topic
      → get_local_action_handler topic node.service_registry ≡ none
      → request node path
        ≡ route_remote (get_remote_action_handlers topic node.service_registry) node.load_balancer
  unfolding request request_topic route
  request-remote node path topic h no_local = rw (h, no_local) refl

  -- A row of requests by one accepted path, with no local handler and some remote ones, as long as
  -- the counter does not wrap: the i-th of them runs the remote handler that lies i places after the
  -- one at the counter, around the end of the list.
  pub request_row-round :
      (n i : ℕ) (node : Node v) (path : String) (topic : TopicPath)
      → Topic.new path node.network_id ≡ ok topic
      → get_local_action_handler topic node.service_registry ≡ none
      → get_remote_action_handlers topic node.service_registry ≢ []
      → i < n
      → node.load_balancer.current_index + n < 18446744073709551616
      → (handler : v.ActionHandler) × (get_elem? (request_row n node path) i
          ≡ some (ok (remote handler)))
        × (get_elem? (get_remote_action_handlers topic node.service_registry) (
              (node.load_balancer.current_index + i)
              % length (get_remote_action_handlers topic node.service_registry))
            ≡ some handler)
  unfolding request_row
  request_row-round zero i node path topic h no_local some_remote inside room =
      absurd (omega (arith, inside))
  request_row-round (suc n) zero node path topic h no_local some_remote inside room =
      let (handler, picked, place) =
        route_remote-some (get_remote_action_handlers topic node.service_registry)
          node.load_balancer some_remote in
      let ran = request-remote node path topic h no_local ∙ picked in
      (
        handler,
        ap (λ result. some result.0) ran,
        ap
              (λ k.
                get_elem? (get_remote_action_handlers topic node.service_registry)
                  (k % length (get_remote_action_handlers topic node.service_registry)))
              (add-zero node.load_balancer.current_index)
            ∙ place,
      )
  request_row-round (suc n) (suc i) node path topic h no_local some_remote inside room =
      let (handler, picked, place) =
        route_remote-some (get_remote_action_handlers topic node.service_registry)
          node.load_balancer some_remote in
      let next : (node.load_balancer.current_index + 1) % 18446744073709551616
          ≡ node.load_balancer.current_index + 1 =
        mod-eq_of_lt (omega (arith, room)) in
      let later =
        request_row-round n i
          (record node {
            load_balancer = record {
              current_index = (node.load_balancer.current_index + 1) % 18446744073709551616;
            };
          })
          path topic h no_local some_remote (omega (arith, inside)) (omega (arith, next, room)) in
      let ran = request-remote node path topic h no_local ∙ picked in
      let (found, outcome, at_place) = later in
      (
        found,
        ap (λ result. get_elem? (request_row n (record node { load_balancer = result.1 }) path) i)
              ran
            ∙ outcome,
        ap
              (λ k.
                get_elem? (get_remote_action_handlers topic node.service_registry)
                  (k % length (get_remote_action_handlers topic node.service_registry)))
              (omega (arith, next))
            ∙ at_place,
      )
