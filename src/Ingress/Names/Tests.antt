-- ===== src/Ingress/Names/Tests.antt =====
-- Names of a small ingress. The digest is that of a constant sum.
use oci_lb_ingress_controlle.Ingress.Names.{
  name_prefix, ends_with, byte_alpha_numeric_digest, get_routing_policy_name, get_listener_name,
}
use oci_lb_ingress_controlle.Ingress.Names.Digest.{
  Encoded, IsDigest, byte_alpha_numeric_digest-IsDigest,
}
use oci_lb_ingress_controlle.Ingress.Names.Valid.{
  Host, IsPolicyName, get_routing_policy_name-IsPolicyName,
}
use oci_lb_ingress_controlle.Ingress.Names.Listener.{
  IsListenerName, get_listener_name-IsListenerName,
}
use oci_lb_ingress_controlle.Ingress.Names.Distinct.{get_load_balancer_name_unique}
use oci_lb_ingress_controlle.Base.{Str, text, contains_byte, ◌≡◌, refl, inr, arith}

abbrev constant_sum : Str → Str
constant_sum bytes = text "9aGVsbG8+d29ybGQ/MTIz+=="

constant_sum-Encoded : (bytes : Str) → Encoded (constant_sum bytes)
constant_sum-Encoded bytes = record {
  body = text "9aGVsbG8+d29ybGQ/MTIz+";
  size = refl;
  alphabet = (
    refl,
    (
      refl,
      (
        refl,
        (
          refl,
          (
            refl,
            (
              refl,
              (
                refl,
                (
                  refl,
                  (
                    refl,
                    (
                      refl,
                      (
                        refl,
                        (
                          refl,
                          (
                            refl,
                            (
                              refl,
                              (refl, (refl, (refl, (refl, (refl, (refl, (refl, (refl, tt)))))))),
                            ),
                          ),
                        ),
                      ),
                    ),
                  ),
                ),
              ),
            ),
          ),
        ),
      ),
    ),
  );
  padded = refl;
}

byte_alpha_numeric_digest-IsDigest_example :
    IsDigest 50 (byte_alpha_numeric_digest constant_sum (text "a") 50)
byte_alpha_numeric_digest-IsDigest_example =
    byte_alpha_numeric_digest-IsDigest constant_sum constant_sum-Encoded (text "a") 50

wildcard-Host : Host (text "*.a.io")
wildcard-Host = inr (text "a.io", refl, (refl, (refl, (refl, (refl, tt)))))

get_routing_policy_name-IsPolicyName_example :
    IsPolicyName (get_routing_policy_name constant_sum (text "*.a.io"))
get_routing_policy_name-IsPolicyName_example =
    get_routing_policy_name-IsPolicyName constant_sum constant_sum-Encoded (text "*.a.io")
      wildcard-Host

get_listener_name-IsListenerName_example :
    IsListenerName (get_listener_name constant_sum (text "*.a.io"))
get_listener_name-IsListenerName_example =
    get_listener_name-IsListenerName constant_sum constant_sum-Encoded (text "*.a.io") wildcard-Host

get_load_balancer_name_unique_example : (text "blue" ≡ text "blue") × (text "web" ≡ text "web")
unfolding contains_byte name_prefix ends_with
get_load_balancer_name_unique_example =
    get_load_balancer_name_unique (text "lb") (text "blue") (text "web") (text "blue") (text "web")
      refl refl (omega arith) (omega arith) refl
