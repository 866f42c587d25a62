-- ===== src/Tests/Pools.antt =====
-- The states of a pool that was lost.
use smoothnas.Prelude.{◌≡◌, refl, true, false, List, [], ◌∷◌}
use smoothnas.Prelude.Distinct.{all}
use smoothnas.Prelude.Eq.{nat_eq}
use smoothnas.Prelude.Maps.{find}
use smoothnas.Prelude.Text.{Text, text_eq, text_beq}
use smoothnas.Tiers.Rules.{can_transition, is_member, error_state, destroying, provisioning}
use smoothnas.Tiers.Histories.{IsHistory, is_down, error_lasts}

abbrev later : List Text
later = error_state ∷ destroying ∷ []

lost_pool : IsHistory (error_state ∷ later)
unfolding can_transition find is_member text_beq
lost_pool = (refl, (refl, (tt, tt)))

never_provisioned : is_member provisioning later ≡ false
unfolding is_member text_beq
never_provisioned = refl

error_lasts_example : all is_down later ≡ true
error_lasts_example = error_lasts error_state later refl lost_pool never_provisioned
