-- ===== src/Instances/Restoring.antt =====
-- A scale-up that fails.
use smoothnas.Prelude.{◌≡◌, Bool, true, false}
use smoothnas.Prelude.Eq.{nat_eq}
use smoothnas.Prelude.Text.{Text, text_eq}
use smoothnas.Instances.Rows.{Plugin}
use smoothnas.Instances.Scale.{Refusal, route_failed, refused, Scaling}
use smoothnas.Instances.Keys.{KeepsRows}

abbrev pub is_route : Refusal → Bool
is_route route_failed = true
is_route _ = false

-- What a call that is refused leaves, but for a failure of the route.
abbrev IsRestoring : Plugin → Scaling → Type 0
IsRestoring p x =
    (why : Refusal) → x.result ≡ refused why → is_route why ≡ false → KeepsRows p x.plugin
