-- ===== src/Ingress/Tests.antt =====
-- Runs of getLBShape.
use oci_lb_ingress_controlle.Base.Maps.{Map, lookup}
use oci_lb_ingress_controlle.Ingress.Annotations.{get_annotation}
use oci_lb_ingress_controlle.Ingress.Shape.{
  atoi, get_lb_shape, flex_limits, get_lb_shape-InLimits, ShapeDefaults, InLimits,
  flexible_shape_name,
}
use oci_lb_ingress_controlle.Base.{
  pos, Str, text, str_eq, lower_byte, to_lower, ok, ◌≡◌, refl, some, [], ◌∷◌,
}

abbrev shape_defaults : ShapeDefaults
shape_defaults = record { shape = text "100Mbps"; min_mbps = pos 10; max_mbps = pos 10 }

-- The limits are out of order, and the upper one is below the least that is allowed.
abbrev odd_limits : Map Str
odd_limits =
    (text "ingress.beta.kubernetes.io/oci-load-balancer-shape", text "Flexible")
    ∷ (text "ingress.beta.kubernetes.io/oci-load-balancer-shape-flex-min", text "9000")
    ∷ (text "ingress.beta.kubernetes.io/oci-load-balancer-shape-flex-max", text "-5")
    ∷ []

odd_limits_shape :
    get_lb_shape shape_defaults odd_limits ≡ ok (flexible_shape_name, some (pos 8192, pos 8192))
unfolding get_lb_shape get_annotation lookup str_eq to_lower lower_byte atoi flex_limits
odd_limits_shape = refl

get_lb_shape-InLimits_example :
    (flexible_shape_name ≡ text "flexible") × InLimits (pos 8192, pos 8192)
get_lb_shape-InLimits_example =
    get_lb_shape-InLimits shape_defaults odd_limits flexible_shape_name (some (pos 8192, pos 8192))
      odd_limits_shape
