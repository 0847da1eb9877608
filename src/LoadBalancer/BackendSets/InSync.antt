-- ===== src/LoadBalancer/BackendSets/InSync.antt =====
-- When hasBackendSetChanged reports nothing, as equations between the two sides.
use oci_lb_ingress_controlle.Base.Sets.{has, of_list, has-of_list}
use oci_lb_ingress_controlle.LoadBalancer.Types.{
  Backend, BackendDetails, HealthChecker, HealthCheckerDetails, BackendSet, BackendSetDetails,
  to_string, to_int,
}
use oci_lb_ingress_controlle.LoadBalancer.Report.{
  report, report-empty, append-eq-nil, int_ne, str_ne, int_ne-false, str_ne-false,
}
use oci_lb_ingress_controlle.LoadBalancer.BackendSets.{
  get_health_checker_changes, actual_endpoints, desired_endpoints, first_port_changes,
  missing_lines, backend_changes, backend_set_changes, has_backend_set_changed,
}
use oci_lb_ingress_controlle.Base.{
  if◌then◌else◌, ℤ, pos, is_empty, Str, str_eq_iff, str_eq_refl, ◌≡◌, refl, sym, ◌∙◌, ◌↔◌, ◌⊎◌, inl,
  inr, Bool, true, false, not, ◌&&◌, Option, none, some, List, [], ◌∷◌, ◌++◌, arith,
}

-- A field of the desired checker that is left unset is the service's to choose.
pub record CheckerInSync (a : HealthChecker) (d : HealthCheckerDetails) : Type 0 where
  pub port : a.port ≡ d.port
  pub regex :
      (to_string d.response_body_regex ≡ [])
      ⊎ (to_string a.response_body_regex ≡ to_string d.response_body_regex)
  pub retries : to_int a.retries ≡ to_int d.retries
  pub return_code : (to_int d.return_code ≡ pos 0) ⊎ (to_int a.return_code ≡ to_int d.return_code)
  pub timeout : to_int a.timeout_in_millis ≡ to_int d.timeout_in_millis
  pub interval : to_int a.interval_in_millis ≡ to_int d.interval_in_millis
  pub url_path : to_string a.url_path ≡ to_string d.url_path
  pub protocol : to_string a.protocol ≡ to_string d.protocol

abbrev pub HealthInSync : Option HealthChecker → Option HealthCheckerDetails → Type 0
HealthInSync actual none = Unit
HealthInSync none (some d) = ⊥
HealthInSync (some a) (some d) = CheckerInSync a d

abbrev pub SameFirstPort : List Backend → List BackendDetails → Type 0
SameFirstPort (a ∷ as') (d ∷ ds) = a.port ≡ d.port
SameFirstPort _ _ = Unit

pub record BackendSetInSync (a : BackendSet) (d : BackendSetDetails) : Type 0 where
  pub health : HealthInSync a.health_checker d.health_checker
  pub first_port : SameFirstPort a.backends d.backends
  pub policy : to_string a.policy ≡ to_string d.policy
  pub endpoints :
      (x : Str) → has x (actual_endpoints a.backends) ≡ has x (desired_endpoints d.backends)

and-false : (p q : Bool) → ((p && q) ≡ false) ↔ ((p ≡ false) ⊎ (q ≡ false))
and-false p q = ground arith

⊎_iff : {P P' Q Q' : Type 0} → P ↔ P' → Q ↔ Q' → (P ⊎ Q) ↔ (P' ⊎ Q')
⊎_iff f g = (
  λ s. elim s [ inl p ↦ inl (f.0 p) | inr q ↦ inr (g.0 q) ],
  λ s. elim s [ inl p ↦ inl (f.1 p) | inr q ↦ inr (g.1 q) ],
)

-- A field that is compared only where the desired value is set.
optional_str : (d a : Str) → ((str_ne d [] && str_ne a d) ≡ false) ↔ ((d ≡ []) ⊎ (a ≡ d))
optional_str d a =
    let e = ⊎_iff (str_ne-false d []) (str_ne-false a d) in
    (λ h. e.0 ((and-false _ _).0 h), λ s. (and-false _ _).1 (e.1 s))

optional_int : (d a : ℤ) → ((int_ne d (pos 0) && int_ne a d) ≡ false) ↔ ((d ≡ pos 0) ⊎ (a ≡ d))
optional_int d a =
    let e = ⊎_iff (int_ne-false d (pos 0)) (int_ne-false a d) in
    (λ h. e.0 ((and-false _ _).0 h), λ s. (and-false _ _).1 (e.1 s))

CheckerInSync-of_changes :
    (a : HealthChecker) (d : HealthCheckerDetails)
    → get_health_checker_changes (some a) (some d) ≡ []
    → CheckerInSync a d
unfolding get_health_checker_changes
CheckerInSync-of_changes a d e =
    let t = (report-empty _).0 e in
    record {
      port = (int_ne-false _ _).0 t.0;
      regex = (optional_str _ _).0 t.1.0;
      retries = (int_ne-false _ _).0 t.1.1.0;
      return_code = (optional_int _ _).0 t.1.1.1.0;
      timeout = (int_ne-false _ _).0 t.1.1.1.1.0;
      interval = (int_ne-false _ _).0 t.1.1.1.1.1.0;
      url_path = (str_ne-false _ _).0 t.1.1.1.1.1.1.0;
      protocol = (str_ne-false _ _).0 t.1.1.1.1.1.1.1.0;
    }

changes_of-CheckerInSync :
    (a : HealthChecker) (d : HealthCheckerDetails)
    → CheckerInSync a d
    → get_health_checker_changes (some a) (some d) ≡ []
unfolding get_health_checker_changes
changes_of-CheckerInSync a d s = (report-empty _).1 (
  (int_ne-false _ _).1 s.port,
  (
    (optional_str _ _).1 s.regex,
    (
      (int_ne-false _ _).1 s.retries,
      (
        (optional_int _ _).1 s.return_code,
        (
          (int_ne-false _ _).1 s.timeout,
          (
            (int_ne-false _ _).1 s.interval,
            ((str_ne-false _ _).1 s.url_path, ((str_ne-false _ _).1 s.protocol, tt)),
          ),
        ),
      ),
    ),
  ),
)

-- No change of the health checker is reported exactly when it is in sync.
health_in_sync :
    (a : Option HealthChecker) (d : Option HealthCheckerDetails)
    → (get_health_checker_changes a d ≡ []) ↔ HealthInSync a d
unfolding get_health_checker_changes
health_in_sync none none = (λ e. tt, λ s. refl)
health_in_sync (some a) none = (λ e. tt, λ s. refl)
health_in_sync none (some d) = (λ e. cc, λ s. absurd s)
health_in_sync (some a) (some d) = (CheckerInSync-of_changes a d, changes_of-CheckerInSync a d)

first_port_in_sync :
    (as' : List Backend) (ds : List BackendDetails)
    → (first_port_changes as' ds ≡ []) ↔ SameFirstPort as' ds
unfolding first_port_changes
first_port_in_sync [] ds = (λ e. tt, λ s. refl)
first_port_in_sync (a ∷ as') [] = (λ e. tt, λ s. refl)
first_port_in_sync (a ∷ as') (d ∷ ds) = (
  λ e. (int_ne-false _ _).0 ((report-empty _).0 e).0,
  λ s. (report-empty _).1 ((int_ne-false _ _).1 s, tt),
)

missing_lines-cons :
    (what : Str) (others : List Str) (y : Str) (xs : List Str)
    → missing_lines what others (y ∷ xs) ≡ []
    → (has y others ≡ true) × (missing_lines what others xs ≡ [])
unfolding missing_lines
missing_lines-cons what others y xs e = ground arith

report-one : (t : Bool) (line : Str) → report ((t, line) ∷ []) ≡ [] → t ≡ false
report-one t line e = ((report-empty ((t, line) ∷ [])).0 e).0

-- No line is made for a name exactly when every name of the one list is in the other.
missing_lines-nil :
    (what : Str) (others xs : List Str)
    → (missing_lines what others xs ≡ []) ↔ ((x : Str) → has x xs ≡ true → has x others ≡ true)
unfolding missing_lines has
missing_lines-nil what others [] = (λ e x h. cc, λ h. refl)
missing_lines-nil what others (y ∷ xs) = (
  λ e x h.
      let p = missing_lines-cons what others y xs e in
      ground (arith, p, (missing_lines-nil what others xs).0 p.1 x, str_eq_iff x y),
  λ h. ground (
    arith,
    h y,
    str_eq_refl y,
    (missing_lines-nil what others xs).1 (λ x m. h x (ground (arith, m))),
  ),
)

bool_ext : (p q : Bool) → (p ≡ true → q ≡ true) → (q ≡ true → p ≡ true) → p ≡ q
bool_ext p q f g = ground arith

append_nil2 : {xs ys : List Str} → xs ≡ [] → ys ≡ [] → xs ++ ys ≡ []
append_nil2 h k = rw (h, k)

same_names :
    (w v : Str) (as' ds : List Str)
    → (missing_lines w (of_list ds) as' ++ missing_lines v (of_list as') ds ≡ [])
      ↔ ((x : Str) → has x as' ≡ has x ds)
same_names w v as' ds = (
  λ e x.
      let h =
        append-eq-nil (missing_lines w (of_list ds) as') (missing_lines v (of_list as') ds) e in
      bool_ext (has x as') (has x ds)
        (λ m. sym (has-of_list x ds) ∙ (missing_lines-nil w (of_list ds) as').0 h.0 x m)
        (λ m. sym (has-of_list x as') ∙ (missing_lines-nil v (of_list as') ds).0 h.1 x m),
  λ h.
      append_nil2
        ((missing_lines-nil w (of_list ds) as').1 (λ x m. has-of_list x ds ∙ (sym (h x) ∙ m)))
        ((missing_lines-nil v (of_list as') ds).1 (λ x m. has-of_list x as' ∙ (h x ∙ m))),
)

pub nonempty-false {ℓ} : {A : Type ℓ} (xs : List A) → (not (is_empty xs) ≡ false) ↔ (xs ≡ [])
nonempty-false [] = (λ e. refl, λ e. refl)
nonempty-false (x ∷ xs) = (λ e. cc, λ e. cc)

override-nil : (ys zs : List Str) → (if is_empty zs then ys else zs) ≡ [] → (ys ≡ []) × (zs ≡ [])
override-nil ys [] e = (e, refl)
override-nil ys (z ∷ zs) e = cc

-- hasBackendSetChanged answers false exactly when the backend set is in sync with its details.
pub backend_set_in_sync :
    (a : BackendSet) (d : BackendSetDetails)
    → (has_backend_set_changed a d ≡ false) ↔ BackendSetInSync a d
unfolding has_backend_set_changed backend_set_changes backend_changes report
backend_set_in_sync a d = (
  λ e.
      let h = override-nil _ _ ((nonempty-false _).0 e) in
      let k = append-eq-nil (get_health_checker_changes a.health_checker d.health_checker) _ h.0 in
      let l = append-eq-nil (first_port_changes a.backends d.backends) _ k.1 in
      record {
        health = (health_in_sync _ _).0 k.0;
        first_port = (first_port_in_sync _ _).0 l.0;
        policy = (str_ne-false _ _).0 (report-one _ _ l.1);
        endpoints = (same_names _ _ _ _).0 h.1;
      },
  λ s. rw ((same_names _ _ _ _).1 s.endpoints) (
      rw ((health_in_sync _ _).1 s.health) (
        rw ((first_port_in_sync _ _).1 s.first_port)
          (rw ((str_ne-false _ _).1 s.policy, report) refl))),
)
