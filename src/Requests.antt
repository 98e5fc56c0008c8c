-- ===== src/Requests.antt =====
-- src/node.rs: `request` of `Node`, up to the call of the handler that it picks. The handler is
-- asynchronous code of a service; what is modelled is which one runs, with which path parameters.
pub mod Laws
mod Tests
use rust_node.Base.{ℕ, String, Bool, List, [], ◌∷◌, Option, none, some, Result, ok, err, get_elem?}
use rust_node.Topic
use rust_node.Topic.{TopicPath, TopicError, DefaultHasher}
use rust_node.Topic.Template.{Params, extract_params}
use rust_node.Balancing.{RoundRobinLoadBalancer, select_handler}
use rust_node.Registry.{
  Vocabulary, ServiceRegistry, get_local_action_handler, get_remote_action_handlers,
}

-- The parts of the node that a request reads.
pub record Node (v : Vocabulary) : Type 0 where
  pub network_id : String
  pub service_registry : ServiceRegistry v
  pub load_balancer : RoundRobinLoadBalancer

-- The handler that runs; a remote one gets no parameters.
pub data Route (Handler : Type 0) : Type 0 where
  local : Handler → Params → Route Handler
  remote : Handler → Route Handler

pub data RequestError : Type 0 where
  bad_path : TopicError → RequestError
  no_handler : RequestError
  -- Indexing the list of handlers panics.
  index_out_of_range : RequestError

-- No parameters where they cannot be extracted.
abbrev pub params_or_none : Result Params TopicError → Params
params_or_none (ok params) = params
params_or_none (err e) = []

module _ {Handler : Type 0} where
  abbrev pub at_index : Option Handler → Result (Route Handler) RequestError
  at_index none = err index_out_of_range
  at_index (some handler) = ok (remote handler)

  unfoldable pub route_remote :
      List Handler
      → RoundRobinLoadBalancer
      → Result (Route Handler) RequestError × RoundRobinLoadBalancer
  route_remote [] balancer = (err no_handler, balancer)
  route_remote (h ∷ hs) balancer =
      let (index, later) = select_handler (h ∷ hs) balancer in
      (at_index (get_elem? (h ∷ hs) index), later)

  unfoldable pub route :
      TopicPath
      → Option (Handler × TopicPath)
      → List Handler
      → RoundRobinLoadBalancer
      → Result (Route Handler) RequestError × RoundRobinLoadBalancer
  route topic (some (handler, registration)) handlers balancer = (
    ok (local handler (params_or_none (extract_params topic registration.cached_action_path))),
    balancer,
  )
  route topic none handlers balancer = route_remote handlers balancer

module _ {v : Vocabulary} where
  -- With the topic parsed.
  unfoldable pub request_topic :
      Node v
      → Result TopicPath TopicError
      → Result (Route v.ActionHandler) RequestError × RoundRobinLoadBalancer
  request_topic node (err e) = (err (bad_path e), node.load_balancer)
  request_topic node (ok topic) =
      route topic (get_local_action_handler topic node.service_registry)
        (get_remote_action_handlers topic node.service_registry) node.load_balancer

  -- The outcome, and the balancer afterwards.
  unfoldable pub request :
      ⦃hasher : DefaultHasher⦄
      → Node v
      → String
      → Result (Route v.ActionHandler) RequestError × RoundRobinLoadBalancer
  request node path = request_topic node (Topic.new path node.network_id)
