-- ===== src/Models/Export/Legacy.antt =====
-- The filters of the first two versions of the export format (common/src/models/export.rs).
use openwec.Prelude.{String, Bool, true, not, Option, none, some, List, ◌≡◌, refl, string_eq}
use openwec.Prelude.HashSet.{contains}
use openwec.Subscription.Data.{filter_allows}
use openwec.Subscription.Filter.{Glob, eval, matches, new_legacy}
use openwec.Models.Export.V1
use openwec.Models.Export.V2

-- Whom the filter of a file lets through, by the principal of the client.
abbrev pub v1_allows : Option V1.PrincsFilterOperation → List String → String → Bool
v1_allows none princs client = true
v1_allows (some V1.only) princs client = contains client princs
v1_allows (some V1.except) princs client = not (contains client princs)

abbrev pub v2_allows : Option V2.PrincsFilterOperation → List String → String → Bool
v2_allows none princs client = true
v2_allows (some V2.only) princs client = contains client princs
v2_allows (some V2.except) princs client = not (contains client princs)

module _ {P : Type 0} (crate : Glob P) (to_lowercase : String → String) where
  v1_filter :
      (operation : Option V1.PrincsFilterOperation) (princs : List String) (client : String)
      (machine : Option String)
      → filter_allows crate to_lowercase
          (V1.into_client_filter (record { operation = operation; princs = princs }))
          client
          machine
        ≡ v1_allows operation princs client
  unfolding V1.into_client_filter V1.into_operation new_legacy eval matches
  v1_filter none princs client machine = refl
  v1_filter (some V1.only) princs client machine = refl
  v1_filter (some V1.except) princs client machine = refl

  v2_filter :
      (operation : Option V2.PrincsFilterOperation) (princs : List String) (client : String)
      (machine : Option String)
      → filter_allows crate to_lowercase
          (V2.into_client_filter (record { operation = operation; princs = princs }))
          client
          machine
        ≡ v2_allows operation princs client
  unfolding V2.into_client_filter V2.into_operation new_legacy eval matches
  v2_filter none princs client machine = refl
  v2_filter (some V2.only) princs client machine = refl
  v2_filter (some V2.except) princs client machine = refl

  -- A filter of either old version that was imported lets the same clients through as the file says:
  -- all when it has no operation, and else by the listed principals, whatever the machine is.
  pub filter_allows-into_client_filter :
      (f : V1.PrincsFilter) (g : V2.PrincsFilter) (client : String) (machine : Option String)
      → (filter_allows crate to_lowercase (V1.into_client_filter f) client machine
          ≡ v1_allows f.operation f.princs client)
        × (filter_allows crate to_lowercase (V2.into_client_filter g) client machine
            ≡ v2_allows g.operation g.princs client)
  filter_allows-into_client_filter f g client machine =
      (v1_filter f.operation f.princs client machine, v2_filter g.operation g.princs client machine)
