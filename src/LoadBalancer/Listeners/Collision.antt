-- ===== src/LoadBalancer/Listeners/Collision.antt =====
-- What getListenerChanges does where two listeners have one sanitized name, as two hosts with two
-- dashes in their first label have: the match by sanitized name takes the one for the other.
use oci_lb_ingress_controlle.Base.Sets.{has, insert, has-insert}
use oci_lb_ingress_controlle.Base.Maps.{
  Map, Distinct, lookup, put, has_key, lookup-put, lookup-has_key,
}
use oci_lb_ingress_controlle.LoadBalancer.Types.{Listener, ListenerDetails}
use oci_lb_ingress_controlle.LoadBalancer.Listeners.{
  get_sanitized_name, sanitize_listeners, matched_names, get_listener_changes,
}
use oci_lb_ingress_controlle.LoadBalancer.Listeners.Plan.{actions_on, existing-due, new-due}
use oci_lb_ingress_controlle.Base.{
  if◌then◌else◌, Bool-cases, is_some, filter-append, Str, str_eq, str_eq_iff, ◌≡◌, refl, ap, ◌∙◌,
  inl, inr, true, none, some, List, [], ◌∷◌, arith,
}

sanitize_listeners_keeps :
    (n : Str) (done m : Map ListenerDetails)
    → is_some (lookup (get_sanitized_name n) done) ≡ true
    → is_some (lookup (get_sanitized_name n) (sanitize_listeners done m)) ≡ true
unfolding sanitize_listeners
sanitize_listeners_keeps n done [] h = h
sanitize_listeners_keeps n done ((j, d) ∷ m) h =
    sanitize_listeners_keeps n (put (get_sanitized_name j) d done) m
      (ground (arith, lookup-put (get_sanitized_name j) (get_sanitized_name n) d done))

sanitize_listeners_has :
    (n : Str) (done m : Map ListenerDetails)
    → has_key n m ≡ true
    → is_some (lookup (get_sanitized_name n) (sanitize_listeners done m)) ≡ true
unfolding sanitize_listeners has_key
sanitize_listeners_has n done [] h = cc
sanitize_listeners_has n done ((j, d) ∷ m) h = elim (Bool-cases (str_eq j n)) [
  | inl e ↦ sanitize_listeners_keeps n (put (get_sanitized_name j) d done) m (
      ground (
        arith,
        lookup-put (get_sanitized_name j) (get_sanitized_name n) d done,
        str_eq_iff j n,
        str_eq_iff (get_sanitized_name j) (get_sanitized_name n),
      ))
  | inr e ↦ sanitize_listeners_has n (put (get_sanitized_name j) d done) m (ground arith)
]

matched_names_keeps :
    (x : Str) (sanitized : Map ListenerDetails) (m : Map Listener) (exists : List Str)
    → has x exists ≡ true
    → has x (matched_names sanitized m exists) ≡ true
unfolding matched_names
matched_names_keeps x sanitized [] exists h = h
matched_names_keeps x sanitized ((j, a) ∷ m) exists h =
    matched_names_keeps x sanitized m
      (if is_some (lookup (get_sanitized_name j) sanitized)
        then insert (get_sanitized_name j) exists
        else exists)
      (ground (arith, has-insert (get_sanitized_name j) x exists))

matched_names-has :
    (n j : Str) (sanitized : Map ListenerDetails) (m : Map Listener) (exists : List Str)
    → has_key j m ≡ true
    → get_sanitized_name j ≡ get_sanitized_name n
    → is_some (lookup (get_sanitized_name n) sanitized) ≡ true
    → has (get_sanitized_name n) (matched_names sanitized m exists) ≡ true
unfolding matched_names has_key
matched_names-has n j sanitized [] exists h e s = cc
matched_names-has n j sanitized ((i, a) ∷ m) exists h e s = elim (Bool-cases (str_eq i j)) [
  | inl q ↦
      matched_names_keeps (get_sanitized_name n) sanitized m
        (if is_some (lookup (get_sanitized_name i) sanitized)
          then insert (get_sanitized_name i) exists
          else exists)
        (ground (
          arith,
          has-insert (get_sanitized_name i) (get_sanitized_name n) exists,
          str_eq_iff i j,
          str_eq_iff (get_sanitized_name n) (get_sanitized_name i),
        ))
  | inr q ↦
      matched_names-has n j sanitized m
        (if is_some (lookup (get_sanitized_name i) sanitized)
          then insert (get_sanitized_name i) exists
          else exists)
        (ground arith) e s
]

-- A desired listener that does not exist is never created, nor touched at all, while the load
-- balancer has another listener with the same sanitized name.
pub collision_never_created :
    (n j : Str) (d : ListenerDetails) (actual : Map Listener) (desired : Map ListenerDetails)
    → Distinct actual
    → Distinct desired
    → lookup n desired ≡ some d
    → lookup n actual ≡ none
    → has_key j actual ≡ true
    → get_sanitized_name j ≡ get_sanitized_name n
    → actions_on n (get_listener_changes actual desired) ≡ []
unfolding get_listener_changes
collision_never_created n j d actual desired ha hd wanted absent other same =
    let S = sanitize_listeners [] desired in
    let some_S =
      sanitize_listeners_has n [] desired (lookup-has_key n desired ∙ ap is_some wanted) in
    rw filter-append (
      rw (existing-due n S actual ha) (
        rw (new-due n (matched_names S actual []) desired hd)
          (rw (matched_names-has n j S actual [] other same some_S) (rw (absent, wanted) refl))))
