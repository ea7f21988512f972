-- ===== src/Store/ApiKeys/Order.antt =====
-- ORDER BY name, as an insertion sort: the rows of a tenant have different names.
use Prim.Native.Nat.{Ordering}
use Prim.Native.String.{compare}
use an.Prelude.{Bool, true, false, List, [], ◌∷◌, if◌then◌else◌}
use an.Rows.{ApiKey}

abbrev name_le : ApiKey → ApiKey → Bool
name_le a b = elim (compare a.name b.name) [ Ordering.gt ↦ false | _ ↦ true ]

unfoldable pub place : ApiKey → List ApiKey → List ApiKey
place key [] = key ∷ []
place key (row ∷ rows) = if name_le key row then key ∷ row ∷ rows else row ∷ place key rows

unfoldable pub sort_by_name : List ApiKey → List ApiKey
unfolding place
sort_by_name [] = []
sort_by_name (row ∷ rows) = place row (sort_by_name rows)
