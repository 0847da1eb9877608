-- ===== src/Ingress/Names/Distinct.antt =====
-- Different ingresses have different load balancers.
use oci_lb_ingress_controlle.Ingress.Names.{name_prefix, get_load_balancer_name}
use oci_lb_ingress_controlle.Base.{
  ltb, length, Str, contains_byte, ℕ, ◌≤◌, ◌≡◌, refl, sym, ap, ◌∙◌, false, [], ◌∷◌, ◌++◌, arith,
}

append_cancel : (p x y : Str) → p ++ x ≡ p ++ y → x ≡ y
append_cancel [] x y h = h
append_cancel (c ∷ p) x y h = append_cancel p x y cc

-- The first underscore splits a name in one way.
underscore_unique :
    (a b s t : Str)
    → contains_byte b'_' a ≡ false
    → contains_byte b'_' b ≡ false
    → a ++ (b'_' ∷ s) ≡ b ++ (b'_' ∷ t)
    → (a ≡ b) × (s ≡ t)
unfolding contains_byte
underscore_unique [] [] s t h k e = (refl, cc)
underscore_unique [] (y ∷ b) s t h k e = let here : y ≡ b'_' = cc in absurd (ground (arith, here))
underscore_unique (x ∷ a) [] s t h k e = let here : x ≡ b'_' = cc in absurd (ground (arith, here))
underscore_unique (x ∷ a) (y ∷ b) s t h k e =
    let same : x ≡ y = cc in
    let rest : a ++ (b'_' ∷ s) ≡ b ++ (b'_' ∷ t) = cc in
    let behind = underscore_unique a b s t (ground arith) (ground arith) rest in
    (ap (λ l. x ∷ l) behind.0 ∙ ap (λ c. c ∷ b) same, behind.1)

not_over : (n m : ℕ) → m ≤ n → ltb n m ≡ false
not_over n m h = ground arith

uncut :
    (prefix ns name : Str)
    → length (name_prefix prefix ++ (ns ++ (b'_' ∷ name))) ≤ 1024
    → get_load_balancer_name prefix ns name ≡ name_prefix prefix ++ (ns ++ (b'_' ∷ name))
unfolding get_load_balancer_name
uncut prefix ns name h =
    rw (not_over 1024 (length (name_prefix prefix ++ (ns ++ (b'_' ∷ name)))) h) refl

-- Ingresses of different namespaces or names have load balancers of different names, whatever the
-- prefix, where a namespace has no underscore, as Kubernetes requires, and no name is cut at 1024
-- bytes.
pub get_load_balancer_name_unique :
    (prefix ns1 name1 ns2 name2 : Str)
    → contains_byte b'_' ns1 ≡ false
    → contains_byte b'_' ns2 ≡ false
    → length (name_prefix prefix ++ (ns1 ++ (b'_' ∷ name1))) ≤ 1024
    → length (name_prefix prefix ++ (ns2 ++ (b'_' ∷ name2))) ≤ 1024
    → get_load_balancer_name prefix ns1 name1 ≡ get_load_balancer_name prefix ns2 name2
    → (ns1 ≡ ns2) × (name1 ≡ name2)
get_load_balancer_name_unique prefix ns1 name1 ns2 name2 h1 h2 l1 l2 e =
    underscore_unique ns1 ns2 name1 name2 h1 h2 (
      append_cancel (name_prefix prefix) (ns1 ++ (b'_' ∷ name1)) (ns2 ++ (b'_' ∷ name2))
        (sym (uncut prefix ns1 name1 l1) ∙ (e ∙ uncut prefix ns2 name2 l2)))
