-- ===== src/Tests/Schemes.antt =====
-- The scheme registry with one scheme retired.
use amarian_amr.Base.{◌≤◌, ◌<◌, ◌≡◌, ◌↔◌, refl, true, some, if◌then◌else◌, ◌==◌, nat_eq, arith}
use amarian_amr.Consensus.SchemeLifecycle.{
  SchemeLifecycle, default_registry, get_state, is_spendable, register, get_lifecycle,
  may_create_output, retired, state_of, find_state,
}
use amarian_amr.Consensus.SchemeLifecycle.Progress.{
  stage, get_state_forward, register-get_lifecycle,
}

abbrev retiring : SchemeLifecycle
retiring = record {
  scheme_id = 2;
  activation_height = 10;
  deprecation_height = 20;
  retirement_height = 30;
}

get_state_forward_example :
    (stage (get_state (register retiring default_registry) 2 15)
      ≤ stage (get_state (register retiring default_registry) 2 25))
    × (is_spendable (register retiring default_registry) 2 15
        ≡ is_spendable (register retiring default_registry) 2 25)
get_state_forward_example =
    get_state_forward (register retiring default_registry) 2 15 25 (omega arith)

register-get_lifecycle_example :
    (get_lifecycle (register retiring default_registry) 2
      ≡ (if retiring.scheme_id == 2 then some retiring else get_lifecycle default_registry 2))
    × ((may_create_output (register retiring default_registry) retiring.scheme_id 15 ≡ true) ↔ (
        (retiring.activation_height ≤ 15)
        × (15 < retiring.deprecation_height)
        × (15 < retiring.retirement_height)))
register-get_lifecycle_example =
    register-get_lifecycle retiring default_registry 2 15 refl (omega arith)

-- A scheme that is never to be retired is retired at the last height.
last_height : get_state default_registry 1 0xffff_ffff ≡ retired
unfolding get_state find_state state_of
last_height = refl
