-- ===== src/Lib.antt =====
-- The OCI load balancer ingress controller: for each Kubernetes ingress of its class it keeps
-- one OCI load balancer in the state that the ingress describes. An event enqueues requests
-- (src/controller/handlers), a reconciliation turns a request into a call of the manager
-- (src/controller), src/ingress turns the ingress into a specification, the manager looks the load
-- balancer up by its name, creates or deletes it and brings its routing policies, rule sets, hostnames
-- and certificates into line (src/manager), and the provider code that it calls on the way brings the
-- backend sets, the listeners, the shape and the security lists into line
-- (pkg/cloudprovider/providers/oci), all of it by the requests of the client (pkg/oci/client).
--
-- The files and the code that each of them is about:
--   Base            what the parts share: Go's strings as lists of bytes, maps as association
--                   lists, sets of strings as lists without repetitions, errors as values, and the
--                   two readings of code that calls the cloud. Base/Effects has the runs: a run takes
--                   the calls made so far to those made after it and its result; the cloud is a
--                   parameter that answers a call after the calls before it. Base/Shows says which
--                   part of a plan the calls of a run are.
--   LoadBalancer    load_balancer_util.go: BackendSets (hasBackendSetChanged,
--                   getBackendSetChanges), Listeners (hasListenerChanged, getListenerChanges,
--                   getSanitizedName), Actions (actionIndex, sortAndCombineActions).
--   SecurityLists   load_balancer_security_lists.go and src/helpers/api.go: Frontend
--                   (getLoadBalancerIngressRules, getLoadBalancerEgressRules), Nodes
--                   (getNodeIngressRules), Changed (securityListRulesChanged), Services (portInUse,
--                   healthCheckPortInUse), Manager (the reads and writes of the three
--                   managers).
--   Provider        loadbalancer.go and util.go: Subnets (getSubnets, getSubnetsForNodes), State
--                   (what is compared), Update (UpdateLoadBalancer, updateBackendSet, updateListener,
--                   updateLoadbalancerShape, updateLoadBalancerNetworkSecurityGroups).
--   Ingress         src/ingress: Annotations (object.go), Shape (sharable_helpers.go), Names and
--                   Listeners (helpers.go, with the digest and the slices of src/utils), Routing
--                   (routing_rule.go), Tls (tls.go), SubnetIds and Spec (spec.go, with
--                   src/configholder), and Backends (the functions of
--                   pkg/cloudprovider/providers/oci/load_balancer_spec.go and modified__.go that
--                   the specification calls). Spec/Draft has the closures of NewIngressLBSpec as
--                   functions on the collections that they fill, Spec/Build the rest of it; the
--                   other files of Spec hold what its steps keep of these collections.
--   Client          pkg/oci/client: LoadBalancers (one request for each call of loadbalancer.go and
--                   loadbalancer_extra.go), Lookup (GetLoadBalancerByName), Polling
--                   (AwaitWorkRequest), over Sdk (the requests, and what answers them).
--   Manager         src/manager: Model (the records and the requests), Compare (utils.MapCompare),
--                   Dispatch (actions.go), Update (updateLoadBalancer and the functions that queue
--                   actions), Operations (DeleteIngress, UpdateOrCreateIngress, createLoadBalancer,
--                   updateIngressStatus).
--   Controller      src/controller and pkg/oci/client/errors.go: Errors (the errors that are tried
--                   again), Reconciler (Reconcile), Handlers (the event handlers).
-- A definition has the name of its Go function in snake case; a helper beside it is a loop or a branch
-- of that function. Modules named Tests, Samples hold concrete inputs.
--
-- How the code is read: an int of Go is ℤ of Base/Int, or ℕ where it is a length or a port that is
-- never negative; int32 conversions wrap. A Go map is a list of pairs in the order of an iteration,
-- which Go leaves open, so that what is proved for each list holds for each order; where a function
-- ranges twice over one map, both loops are read in one order. A pointer that the
-- code tests is an Option. The text of an error message is its format without its arguments, since
-- the code reads only the kind of an error. A panic ends a run as an error does, under a text that
-- begins with "panic". Log lines are left out. A manager's action closes over its request; since
-- `do` has a value receiver and Run ranges over copies, no run changes the queue, and the queue is
-- not a state. The change that a finished action makes to the load balancer in memory is recorded as
-- a call, patch_lb_info; no code reads it later.
--
-- Fuel: the loop of ByteAlphaNumericDigest has a round for each byte that is asked for, and each
-- round adds 22 bytes; the decimal digits of a number n have n + 1 rounds. The loop over
-- the certificates of a PEM text has a round for each byte and one more, and each round ends on a
-- shorter text. GetLoadBalancerByName is read with fuel for its pages, which the theorem about it
-- asks to cover the list. The polls of AwaitWorkRequest are a list, of those made before the context
-- is done. Everything else is structural recursion.
--
-- Parameters: the cloud and its answers, the service lister, the cache, the network and compute
-- clients, the metadata service, the SDK and the rate limiters of the client, url.Parse, net.ParseIP,
-- packages pem and x509, the encoding behind ObjectHash, MD5 in base64, the prefix that the
-- environment sets, and the ingress class and the default shape with its limits, which flags set.
--
-- The provider's update names a manager's Update and Delete as one call each, which SecurityLists
-- models by itself. The manager names a call of the client as one request, which Client models by
-- itself; the specification is an argument of the manager's operation, and Ingress/Spec/Created puts
-- the two together.
--
-- Not modelled: the listeners, certificates and ports of the specification for a service, which no
-- code uses (load_balancer_spec.go); the domains of a TLS bundle, which only the log shows; the
-- networking and compute clients, with the cache of subnets (pkg/oci/client); the configuration and
-- the set-up of the process.
pub mod Base
pub mod LoadBalancer
pub mod SecurityLists
pub mod Provider
pub mod Ingress
pub mod Client
pub mod Manager
pub mod Controller
