-- ===== src/LoadBalancer/Actions.antt =====
-- actionIndex and sortAndCombineActions of load_balancer_util.go: the order in which the actions on
-- backend sets and listeners are run.
pub mod Phases
pub mod Tests
use oci_lb_ingress_controlle.LoadBalancer.BackendSets.{
  ActionType, create, update, delete, BackendSetAction,
}
use oci_lb_ingress_controlle.LoadBalancer.Listeners.{ListenerAction}
use oci_lb_ingress_controlle.Base.{
  if◌then◌else◌, int_lt, ℤ, pos, negsuc, Str, text, str_eq, ℕ, ◌+◌, Bool, List, [], ◌∷◌, ◌++◌,
}

-- The interface Action and its two implementations
pub data Action : Type 0 where
  on_backend_set : BackendSetAction → Action
  on_listener : ListenerAction → Action

-- Entity()
abbrev pub entity : Action → Str
entity (on_backend_set a) = text "BackendSet"
entity (on_listener a) = text "Listener"

-- Type()
abbrev pub type_of : Action → ActionType
type_of (on_backend_set a) = a.action_type
type_of (on_listener a) = a.action_type

abbrev pub type_name : ActionType → Str
type_name create = text "create"
type_name update = text "update"
type_name delete = text "delete"

-- Name()
abbrev pub action_name : Action → Str
action_name (on_backend_set a) = a.name
action_name (on_listener a) = a.name

action_order : List Str
action_order =
    text "BackendSet:create"
    ∷ text "BackendSet:update"
    ∷ text "Listener:create"
    ∷ text "Listener:update"
    ∷ text "Listener:delete"
    ∷ text "BackendSet:delete"
    ∷ []

-- The loop of actionIndex, from index i on.
index_from : ℕ → Str → List Str → ℤ
index_from i s [] = negsuc 0
index_from i s (x ∷ xs) = let rest = index_from (i + 1) s xs in if str_eq x s then pos i else rest

action_index : Action → ℤ
unfolding action_order index_from
action_index a = index_from 0 (entity a ++ (b':' ∷ type_name (type_of a))) action_order

-- sort.SliceStable by `less`: an element goes before the first that is not less than it.
module _ {A : Type 0} (less : A → A → Bool) where
  stable_insert : A → List A → List A
  stable_insert x [] = x ∷ []
  stable_insert x (y ∷ ys) =
      let rest = stable_insert x ys in if less y x then y ∷ rest else x ∷ y ∷ ys

  stable_sort : List A → List A
  stable_sort [] = []
  stable_sort (x ∷ xs) = stable_insert x (stable_sort xs)

abbrev index_less : Action → Action → Bool
index_less a b = int_lt (action_index a) (action_index b)

pub sort_and_combine_actions : List Action → List Action → List Action
sort_and_combine_actions backend_set_actions listener_actions =
    stable_sort index_less (backend_set_actions ++ listener_actions)
