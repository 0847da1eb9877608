-- ===== src/Client/Lookup.antt =====
-- GetLoadBalancerByName: the pages of the list, until one has the name.
use mathlib.Core.Path.{subst, sym}
use oci_lb_ingress_controlle.Base.Effects.{Run, returns, lift, ◌>>=◌}
use oci_lb_ingress_controlle.Client.Sdk.{
  SdkRequest, list_load_balancers_request, LoadBalancerPage, Sdk, read,
}
use oci_lb_ingress_controlle.Manager.Model.{OciLoadBalancer}
use oci_lb_ingress_controlle.Base.{
  if◌then◌else◌, Bool-cases, Str, text, str_eq, not_found, with_stack, message, Result, ok, err, ℕ,
  zero, suc, ◌≤◌, ◌≢◌, All, str_eq_iff, ◌≡◌, refl, ap, ◌∙◌, inl, inr, true, Option, Option-cases,
  none, some, List, [], ◌∷◌, ◌++◌, arith,
}

-- The loop over the items of a page
unfoldable pub balancer_named : Str → List OciLoadBalancer → Option OciLoadBalancer
balancer_named name [] = none
balancer_named name (lb ∷ items) =
    let rest = balancer_named name items in if str_eq lb.display_name name then some lb else rest

-- What is answered of a list that has been read to its end
abbrev pub named_or_missing : Option OciLoadBalancer → Result OciLoadBalancer
named_or_missing none = err (with_stack not_found)
named_or_missing (some lb) = ok lb

module _ (sdk : Sdk) (compartment name : Str) where
  abbrev after_items :
      (Option Str → Run SdkRequest OciLoadBalancer)
      → Option OciLoadBalancer
      → Option Str
      → Run SdkRequest OciLoadBalancer
  after_items next (some lb) page = returns lb
  after_items next none none = lift (err (with_stack not_found))
  after_items next none (some token) = next (some token)

  abbrev after_page :
      (Option Str → Run SdkRequest OciLoadBalancer)
      → LoadBalancerPage
      → Run SdkRequest OciLoadBalancer
  after_page next p = after_items next (balancer_named name p.items) p.opc_next_page

  -- The loop over the pages, on fuel
  unfoldable pub lookup_from : ℕ → Option Str → Run SdkRequest OciLoadBalancer
  lookup_from zero page = lift (err (message (text "out of fuel")))
  lookup_from (suc fuel) page =
      read sdk (λ log. sdk.load_balancers log compartment name page)
        (list_load_balancers_request compartment name page)
      >>= after_page (lookup_from fuel)

  -- No more than `fuel` pages are read.
  unfoldable pub get_load_balancer_by_name : ℕ → Run SdkRequest OciLoadBalancer
  get_load_balancer_by_name fuel = lookup_from fuel none

-- The pages from a token on: `n` of them, with these items.
abbrev RestOf :
    Option Str
    → List OciLoadBalancer
    → List OciLoadBalancer
    → (Option Str → List OciLoadBalancer → Type 0)
    → Type 0
RestOf none items all chain = all ≡ items
RestOf (some token) items all chain =
    (rest : List OciLoadBalancer) × (all ≡ items ++ rest) × chain (some token) rest

abbrev pub Chain :
    (Option Str → Result LoadBalancerPage) → ℕ → Option Str → List OciLoadBalancer → Type 0
Chain pages zero page all = ⊥
Chain pages (suc n) page all =
    (p : LoadBalancerPage) × (pages page ≡ ok p)
    × RestOf p.opc_next_page p.items all (Chain pages n)

balancer_named-append :
    (name : Str) (xs ys : List OciLoadBalancer)
    → balancer_named name (xs ++ ys)
      ≡ (elim (balancer_named name xs) [ some lb ↦ some lb | none ↦ balancer_named name ys ])
unfolding balancer_named
balancer_named-append name [] ys = refl
balancer_named-append name (x ∷ xs) ys = elim (Bool-cases (str_eq x.display_name name)) [
  | inl e ↦ rw e refl
  | inr e ↦ rw e (balancer_named-append name xs ys)
]

-- The answer is the first of the list with the display name, or that none has it.
abbrev pub IsFirstNamed : Str → List OciLoadBalancer → Result OciLoadBalancer → Type 0
IsFirstNamed name all (ok lb) =
    (others : List OciLoadBalancer) × (rest : List OciLoadBalancer) × (all ≡ others ++ (lb ∷ rest))
    × (lb.display_name ≡ name)
    × All (λ b. b.display_name ≢ name) others
IsFirstNamed name all (err e) = (e ≡ with_stack not_found) × All (λ b. b.display_name ≢ name) all

behind_another :
    (name : Str) (lb : OciLoadBalancer) (items : List OciLoadBalancer) (o : Option OciLoadBalancer)
    → lb.display_name ≢ name
    → IsFirstNamed name items (named_or_missing o)
    → IsFirstNamed name (lb ∷ items) (named_or_missing o)
behind_another name lb items none other h = (h.0, (other, h.1))
behind_another name lb items (some found) other (others, rest, e, same, first) =
    (lb ∷ others, rest, ap (λ t. lb ∷ t) e, same, (other, first))

named_or_missing-IsFirstNamed :
    (name : Str) (all : List OciLoadBalancer)
    → IsFirstNamed name all (named_or_missing (balancer_named name all))
unfolding balancer_named
named_or_missing-IsFirstNamed name [] = (refl, tt)
named_or_missing-IsFirstNamed name (lb ∷ items) = elim (Bool-cases (str_eq lb.display_name name)) [
  | inl e ↦ rw e ([], items, refl, (str_eq_iff lb.display_name name).0 e, tt)
  | inr e ↦ rw e (
      behind_another name lb items (balancer_named name items)
        (λ q. let k = (str_eq_iff lb.display_name name).1 q in ground arith)
        (named_or_missing-IsFirstNamed name items))
]

-- The service answers every page the same way at any time, and the reader is never refused.
abbrev pub IsSteady : Sdk → Str → Str → (Option Str → Result LoadBalancerPage) → Type 0
IsSteady sdk compartment name pages =
    ((log : List SdkRequest) → sdk.reader_accepts log ≡ true)
    × ((log : List SdkRequest) (page : Option Str)
        → sdk.load_balancers log compartment name page ≡ pages page)

module _ (sdk : Sdk) (compartment name : Str) (pages : Option Str → Result LoadBalancerPage)
    (h : IsSteady sdk compartment name pages) where
  page_is_read :
      (fuel : ℕ) (page : Option Str) (p : LoadBalancerPage) (log : List SdkRequest)
      → pages page ≡ ok p
      → (lookup_from sdk compartment name (suc fuel) page).run log
        ≡ (after_page sdk compartment name (lookup_from sdk compartment name fuel) p).run
            (log ++ (list_load_balancers_request compartment name page ∷ []))
  unfolding lookup_from
  page_is_read fuel page p log e = rw (h.0 log, h.1 log page, e) refl

  -- Where the pages from the next token on give what the rest of the items says
  page-found :
      (fuel : ℕ) (items : List OciLoadBalancer) (next : Option Str) (all : List OciLoadBalancer)
      (log : List SdkRequest) (k : Option Str → List OciLoadBalancer → Type 0)
      → RestOf next items all k
      → ((token : Str) (rest : List OciLoadBalancer)
          → k (some token) rest
          → ((lookup_from sdk compartment name fuel (some token)).run log).1
            ≡ named_or_missing (balancer_named name rest))
      → ((after_items sdk compartment name
            (lookup_from sdk compartment name fuel)
            (balancer_named name items)
            next).run
          log).1
        ≡ named_or_missing (balancer_named name all)
  page-found fuel items none all log k same found =
      elim (Option-cases (balancer_named name items)) [
        | inl b ↦ rw (same, b) refl
        | inr (lb, b) ↦ rw (same, b) refl
      ]
  page-found fuel items (some token) all log k (rest, same, c) found =
      elim (Option-cases (balancer_named name items)) [
        | inl b ↦ rw (same, balancer_named-append name items rest, b) (found token rest c)
        | inr (lb, b) ↦ rw (same, balancer_named-append name items rest, b) refl
      ]

  -- Of a list in `n` pages, with fuel for them: the first load balancer of the name, in the
  -- order of the pages, and an error where there is none.
  Chain-found :
      (n fuel : ℕ) (page : Option Str) (all : List OciLoadBalancer) (log : List SdkRequest)
      → Chain pages n page all
      → n ≤ fuel
      → ((lookup_from sdk compartment name fuel page).run log).1
        ≡ named_or_missing (balancer_named name all)
  Chain-found zero fuel page all log c le = absurd c
  Chain-found (suc n) zero page all log c le = absurd (omega arith)
  Chain-found (suc n) (suc fuel) page all log (p, e, rest) le =
      ap (λ r. r.1) (page_is_read fuel page p log e)
      ∙ page-found fuel p.items p.opc_next_page all _ (Chain pages n) rest
          (λ token items c. Chain-found n fuel (some token) items _ c (omega arith))

  -- Where the service answers the list in `n` pages, the same at any time, the client's limiter
  -- refuses nothing and there is fuel for the pages: GetLoadBalancerByName answers a load balancer
  -- whose display name is the name, the first of the list, whatever page it is on; and that none is
  -- found where no load balancer of the list has it.
  pub get_load_balancer_by_name-found :
      (n fuel : ℕ) (all : List OciLoadBalancer) (log : List SdkRequest)
      → Chain pages n none all
      → n ≤ fuel
      → IsFirstNamed name all ((get_load_balancer_by_name sdk compartment name fuel).run log).1
  unfolding get_load_balancer_by_name
  get_load_balancer_by_name-found n fuel all log c le =
      subst (IsFirstNamed name all) (sym (Chain-found n fuel none all log c le))
        (named_or_missing-IsFirstNamed name all)
