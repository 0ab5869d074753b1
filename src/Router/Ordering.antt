-- ===== src/Router/Ordering.antt =====
-- The orders by which sortPlatform and sortEnvironment sort, and their laws.
use bb_action_router.Base.{
  same_iff, same_comm, text_lt_asym, text_lt_irrefl, text_lt_total, text_lt_neg_trans, IsOrdered,
  OrderingLaws, sort_by-IsOrdered, Option, none, some, List, arith,
}
use bb_action_router.Reapi.{Command, Property}
use bb_action_router.Router.State.{World}
use bb_action_router.Router.Template.{properties}
use bb_action_router.Router.Pipeline.{property_lt, variable_lt, sort_platform, sort_environment}

variable_laws : OrderingLaws variable_lt
variable_laws = record {
  asym = λ x y h. text_lt_asym x.name y.name h;
  neg_trans = λ x y z h k. text_lt_neg_trans x.name y.name z.name h k;
}

property_laws : OrderingLaws property_lt
property_laws = record {
  asym = λ x y h. ground (
    arith,
    text_lt_asym x.name y.name,
    text_lt_asym x.value y.value,
    same_comm x.name y.name,
    same_iff x.name y.name,
    text_lt_irrefl x.name,
  );
  neg_trans = λ x y z h k. ground (
    arith,
    text_lt_neg_trans x.name y.name z.name,
    text_lt_neg_trans x.value y.value z.value,
    same_iff x.name y.name,
    same_iff y.name z.name,
    same_iff x.name z.name,
    text_lt_total x.name y.name,
    text_lt_total y.name z.name,
    text_lt_total x.name z.name,
    text_lt_asym x.name y.name,
    text_lt_asym y.name z.name,
    text_lt_asym x.name z.name,
  );
}

pub sort_platform-IsOrdered :
    (o : Option (List Property)) → IsOrdered property_lt (properties (sort_platform o))
unfolding sort_platform
sort_platform-IsOrdered none = tt
sort_platform-IsOrdered (some ps) = sort_by-IsOrdered property_lt property_laws ps

pub sort_environment-IsOrdered :
    (w : World) (c : Command) → IsOrdered variable_lt (sort_environment w c).environment_variables
unfolding sort_environment
sort_environment-IsOrdered w c =
    sort_by-IsOrdered variable_lt variable_laws (w.arrange c.environment_variables)
