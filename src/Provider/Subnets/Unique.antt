-- ===== src/Provider/Subnets/Unique.antt =====
-- What getSubnetsForNodes gathers: each subnet once, and the cached subnet of every node.
use mathlib.Core.List.{map-append}
use mathlib.Core.Path.{subst}
use oci_lb_ingress_controlle.Base.Sets.{has, has-append, has-insert, of_list}
use oci_lb_ingress_controlle.Base.Effects.{is_ok}
use oci_lb_ingress_controlle.Provider.Subnets.{
  Subnet, Vnic, Node, Network, Gathered, gather, gather_by_vnic, private_ip_in, gather_by_instance,
  gather_cached, gather_node, gather_nodes, get_subnets_for_nodes, node_internal_ip_of,
  map_provider_id_to_instance_id, compartment_of,
}
use oci_lb_ingress_controlle.Base.{
  Bool-cases, is_empty, All, Str, str_eq_iff, str_eq_refl, ◌>>=◌, wrap, Result, ok, err, ◌≡◌, refl,
  sym, ap, ◌∙◌, ◌≢◌, inl, inr, Bool, true, false, not, ◌&&◌, Option, none, some, List, [], ◌∷◌,
  ◌++◌, map, arith,
}

abbrev pub ids : List Subnet → List Str
ids = map (λ s. s.id)

abbrev pub Unique : List Str → Type 0
Unique [] = Unit
Unique (x ∷ xs) = (has x xs ≡ false) × Unique xs

Unique-snoc : (xs : List Str) (x : Str) → Unique xs → has x xs ≡ false → Unique (xs ++ (x ∷ []))
unfolding has
Unique-snoc [] x u h = (refl, tt)
Unique-snoc (y ∷ xs) x u h = (
  ground (arith, has-append y xs (x ∷ []), u.0, str_eq_iff y x, str_eq_iff x y),
  Unique-snoc xs x u.1 (ground (arith, h)),
)

-- The set of identifiers is that of the subnets gathered, and each occurs once.
record GatheredOnce (g : Gathered) : Type 0 where
  same : (x : Str) → has x g.subnet_ocids ≡ has x (ids g.subnets)
  unique : Unique (ids g.subnets)

-- What the state later in the loop keeps: nothing gathered is lost.
record After (g later : Gathered) : Type 0 where
  once : GatheredOnce later
  kept : (x : Str) → has x (ids g.subnets) ≡ true → has x (ids later.subnets) ≡ true

abbrev OnOk : {A : Type 0} → (A → Type 0) → Result A → Type 0
OnOk P (ok a) = P a
OnOk P (err e) = Unit

OnOk-bind :
    {A B : Type 0} (P : B → Type 0) (r : Result A) (k : A → Result B)
    → ((a : A) → r ≡ ok a → OnOk P (k a))
    → OnOk P (r >>= k)
OnOk-bind P (ok a) k h = h a refl
OnOk-bind P (err e) k h = tt

OnOk-map :
    {A : Type 0} (P Q : A → Type 0) (r : Result A) → ((a : A) → P a → Q a) → OnOk P r → OnOk Q r
OnOk-map P Q (ok a) f p = f a p
OnOk-map P Q (err e) f p = tt

OnOk-both :
    {A : Type 0} (P Q : A → Type 0) (r : Result A) → OnOk P r → OnOk Q r → OnOk (λ a. P a × Q a) r
OnOk-both P Q (ok a) p q = (p, q)
OnOk-both P Q (err e) p q = tt

at_ok : {A : Type 0} (P : A → Type 0) (r : Result A) (a : A) → r ≡ ok a → OnOk P r → P a
at_ok P r a h p = subst (OnOk P) h p

is_ok_map :
    {A B : Type 0} (r : Result A) (f : A → B) → is_ok r ≡ true → is_ok (r >>= λ a. ok (f a)) ≡ true
is_ok_map (ok a) f h = refl
is_ok_map (err e) f h = cc

abbrev pub is_hit : Result (Option Subnet) → Bool
is_hit (ok (some s)) = true
is_hit (ok none) = false
is_hit (err e) = false

-- The subnet that the cache has for the node, where it has one, is among the subnets.
abbrev pub CachedIn : Network → List Subnet → Node → Type 0
CachedIn net subnets node =
    (s : Subnet)
    → net.get_subnet_from_cache_by_ip (node_internal_ip_of node) ≡ ok (some s)
    → has s.id (ids subnets) ≡ true

unchanged : (g : Gathered) → GatheredOnce g → After g g
unchanged g o = record { once = o; kept = λ x h. h }

gather-After :
    (s : Subnet) (g : Gathered)
    → GatheredOnce g
    → has s.id g.subnet_ocids ≡ false
    → After g (gather s.id s g)
unfolding gather has
gather-After s g o fresh =
    let e = map-append (λ (t : Subnet). t.id) g.subnets (s ∷ []) in
    let both = λ (x : Str). ap (has x) e ∙ has-append x (ids g.subnets) (s.id ∷ []) in
    record {
      once = record {
        same = λ x. ground (arith, both x, has-insert s.id x g.subnet_ocids, o.same x);
        unique =
            subst Unique (sym e)
              (Unique-snoc (ids g.subnets) s.id o.unique (sym (o.same s.id) ∙ fresh));
      };
      kept = λ x h. ground (arith, both x, h);
    }

-- The network answers a request for a subnet with that subnet.
abbrev pub AnswersById : Network → Type 0
AnswersById net = (id : Str) (s : Subnet) → net.get_subnet id ≡ ok s → s.id ≡ id

wrap-ok : {A : Type 0} (r : Result A) (a : A) → wrap r ≡ ok a → r ≡ ok a
wrap-ok (ok b) a h = h
wrap-ok (err e) a h = cc

module _ (net : Network) (by_id : AnswersById net) where
  gather_by_vnic-After :
      (ip_set : List Str) (vnic : Vnic) (g : Gathered)
      → GatheredOnce g
      → OnOk (After g) (gather_by_vnic net ip_set vnic g)
  unfolding gather_by_vnic
  gather_by_vnic-After ip_set vnic g o =
      elim (Bool-cases
        (private_ip_in ip_set vnic.private_ip && not (has vnic.subnet_id g.subnet_ocids))) [
          | inr e ↦ rw e (unchanged g o)
          | inl e ↦ rw e (
              OnOk-bind (After g) (wrap (net.get_subnet vnic.subnet_id)) _ (λ s h.
                let same = by_id vnic.subnet_id s (wrap-ok (net.get_subnet vnic.subnet_id) s h) in
                subst (λ i. After g (gather i s g)) same
                  (gather-After s g o (ap (λ i. has i g.subnet_ocids) same ∙ fresh _ _ e))))
        ]
    where
      fresh : (p q : Bool) → (p && not q) ≡ true → q ≡ false
      fresh p q h = ground arith

  gather_cached-After :
      (ip_set : List Str) (node : Node) (o : Option Subnet) (g : Gathered)
      → GatheredOnce g
      → OnOk (After g) (gather_cached net ip_set node o g)
  unfolding gather_cached gather_by_instance
  gather_cached-After ip_set node (some s) g once = elim (Bool-cases (has s.id g.subnet_ocids)) [
    | inl e ↦ rw e (unchanged g once)
    | inr e ↦ rw e (gather-After s g once e)
  ]
  gather_cached-After ip_set node none g once = elim (Bool-cases (is_empty node.provider_id)) [
    | inl e ↦ rw e tt
    | inr e ↦ rw e (
        OnOk-bind (After g) (wrap (map_provider_id_to_instance_id node.provider_id)) _ (λ id h.
          OnOk-bind (After g) (compartment_of node) _ (λ c k.
            OnOk-bind (After g) (net.get_primary_vnic_for_instance c id) _
              (λ vnic l. gather_by_vnic-After ip_set vnic g once))))
  ]

  same_subnet :
      (s t : Subnet) {r : Result (Option Subnet)} → r ≡ ok (some s) → r ≡ ok (some t) → s ≡ t
  same_subnet s t h k = cc

  no_subnet : (t : Subnet) {r : Result (Option Subnet)} → r ≡ ok none → r ≢ ok (some t)
  no_subnet t h k = cc

  gathered_cached :
      (ip_set : List Str) (node : Node) (s : Subnet) (g : Gathered)
      → GatheredOnce g
      → OnOk
          (λ later. has s.id (ids later.subnets) ≡ true)
          (gather_cached net ip_set node (some s) g)
  unfolding gather_cached gather has
  gathered_cached ip_set node s g once = elim (Bool-cases (has s.id g.subnet_ocids)) [
    | inl e ↦ rw e (sym (once.same s.id) ∙ e)
    | inr e ↦ rw e (
        ground (
          arith,
          map-append (λ (t : Subnet). t.id) g.subnets (s ∷ []),
          has-append s.id (ids g.subnets) (s.id ∷ []),
          str_eq_refl s.id,
        ))
  ]

  gather_node-After :
      (ip_set : List Str) (node : Node) (g : Gathered)
      → GatheredOnce g
      → OnOk
          (λ later. After g later × CachedIn net later.subnets node)
          (gather_node net ip_set node g)
  unfolding gather_node
  gather_node-After ip_set node g once =
      OnOk-bind _ (net.get_subnet_from_cache_by_ip (node_internal_ip_of node)) _ (λ o h.
        OnOk-both (After g) (λ later. CachedIn net later.subnets node)
          (gather_cached net ip_set node o g) (gather_cached-After ip_set node o g once)
          (cached o h))
    where
      cached :
          (o : Option Subnet)
          → net.get_subnet_from_cache_by_ip (node_internal_ip_of node) ≡ ok o
          → OnOk (λ later. CachedIn net later.subnets node) (gather_cached net ip_set node o g)
      cached (some s) h =
          OnOk-map _ _ (gather_cached net ip_set node (some s) g)
            (λ later p t k.
              subst (λ (u : Subnet). has u.id (ids later.subnets) ≡ true) (same_subnet s t h k) p)
            (gathered_cached ip_set node s g once)
      cached none h =
          OnOk-map (After g) _ (gather_cached net ip_set node none g)
            (λ later p t k. absurd (no_subnet t h k)) (gather_cached-After ip_set node none g once)

  gather_nodes-After :
      (ip_set : List Str) (nodes : List Node) (g : Gathered)
      → GatheredOnce g
      → OnOk
          (λ later. After g later × All (CachedIn net later.subnets) nodes)
          (gather_nodes net ip_set nodes g)
  unfolding gather_nodes
  gather_nodes-After ip_set [] g once = (unchanged g once, tt)
  gather_nodes-After ip_set (node ∷ nodes) g once =
      OnOk-bind _ (gather_node net ip_set node g) _ (λ next h.
        let now =
          at_ok _ (gather_node net ip_set node g) next h (gather_node-After ip_set node g once) in
        OnOk-map _ _ (gather_nodes net ip_set nodes next)
          (λ later p. (
            record { once = p.0.once; kept = λ x m. p.0.kept x (now.0.kept x m) },
            (λ s k. p.0.kept s.id (now.1 s k), p.1),
          ))
          (gather_nodes-After ip_set nodes next now.0.once))

-- Where the request for a subnet is answered with that subnet, and an answer is given at all: no
-- subnet occurs twice, and the subnet that the cache has for a node is among them.
pub get_subnets_for_nodes-Unique :
    (net : Network) (nodes : List Node) (subnets : List Subnet)
    → AnswersById net
    → get_subnets_for_nodes net nodes ≡ ok subnets
    → Unique (ids subnets) × All (CachedIn net subnets) nodes
unfolding get_subnets_for_nodes has
get_subnets_for_nodes-Unique net nodes subnets by_id h =
    at_ok _ (get_subnets_for_nodes net nodes) subnets h (
      OnOk-bind (λ l. Unique (ids l) × All (CachedIn net l) nodes)
        (gather_nodes net (of_list (map node_internal_ip_of nodes)) nodes start) _
        (λ g e.
          let p = at_ok _ _ g e (
            gather_nodes-After net by_id (of_list (map node_internal_ip_of nodes)) nodes start
              (record { same = λ x. refl; unique = tt })) in
          (p.0.once.unique, p.1)))
  where
    start : Gathered
    start = record { subnet_ocids = []; subnets = [] }

abbrev pub AllHit : Network → List Node → Type 0
AllHit net =
    All (λ node. is_hit (net.get_subnet_from_cache_by_ip (node_internal_ip_of node)) ≡ true)

gather_nodes-is_ok :
    (net : Network) (ip_set : List Str) (nodes : List Node) (g : Gathered)
    → AllHit net nodes
    → is_ok (gather_nodes net ip_set nodes g) ≡ true
unfolding gather_nodes gather_node gather_cached
gather_nodes-is_ok net ip_set [] g h = refl
gather_nodes-is_ok net ip_set (n ∷ ns) g h =
    hit (net.get_subnet_from_cache_by_ip (node_internal_ip_of n)) h.0
      (λ later. gather_nodes-is_ok net ip_set ns later h.1)
  where
    hit :
        (r : Result (Option Subnet))
        → is_hit r ≡ true
        → ((later : Gathered) → is_ok (gather_nodes net ip_set ns later) ≡ true)
        → is_ok ((r >>= λ o. gather_cached net ip_set n o g) >>= gather_nodes net ip_set ns) ≡ true
    hit (ok (some s)) e rest = rest _
    hit (ok none) e rest = cc
    hit (err x) e rest = cc

-- An answer is given, whatever the network and the compute service answer else, where the cache has
-- a subnet for every node.
pub get_subnets_for_nodes-is_ok :
    (net : Network) (nodes : List Node)
    → AllHit net nodes
    → is_ok (get_subnets_for_nodes net nodes) ≡ true
unfolding get_subnets_for_nodes
get_subnets_for_nodes-is_ok net nodes h =
    is_ok_map (gather_nodes net (of_list (map node_internal_ip_of nodes)) nodes _) _
      (gather_nodes-is_ok net _ nodes _ h)
