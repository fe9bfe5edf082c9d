-- ===== src/Models/Export/RoundTrip.antt =====
-- `parse` of what `serialize` wrote (common/src/models/export.rs).
use openwec.Prelude.{ℕ, suc, String, Bool, List, [], ◌∷◌, map, ◌≡◌, refl, ok, All}
use openwec.Prelude.Run.{done, ◌>>=◌, run_map, run_map_from}
use openwec.Subscription.Data.{Uuid, SubscriptionData}
use openwec.Subscription.Filter.{Glob}
use openwec.Subscription.Filter.Collected.{IsOrder}
use openwec.Models.Export.{v3, SerdeJson, serialize, into_subscriptions, parse}
use openwec.Models.Export.V3
use openwec.Models.Export.V3.RoundTrip.{
  IsExportable, SameData, Reimported, exported_data, from_data-done, into_data-done,
}

-- The subscriptions of two files, one by one, up to the order of the targets of their filters.
abbrev pub AllSame : List V3.SubscriptionData → List V3.SubscriptionData → Type 0
AllSame [] [] = Unit
AllSame (old ∷ olds) (new ∷ news) = SameData old new × AllSame olds news
AllSame [] (new ∷ news) = ⊥
AllSame (old ∷ olds) [] = ⊥

module _ {P : Type 0} (crate : Glob P) (to_lowercase : String → String)
    (is_ip_addr : String → Bool) where
  -- Each subscription again, with the internal version that is drawn for it.
  abbrev pub AllReimported :
      (ℕ → ℕ → Uuid) → ℕ → List (SubscriptionData P) → List (SubscriptionData P) → Type 0
  AllReimported drawn n [] [] = Unit
  AllReimported drawn n (old ∷ olds) (new ∷ news) =
      Reimported crate to_lowercase (drawn n) old new × AllReimported drawn (suc n) olds news
  AllReimported drawn n [] (new ∷ news) = ⊥
  AllReimported drawn n (old ∷ olds) [] = ⊥

  module _ (order : List String → List String) where
    run_map-from_data :
        (subscriptions : List (SubscriptionData P))
        → run_map (V3.from_data crate to_lowercase order) subscriptions
          ≡ done (map (exported_data crate to_lowercase order) subscriptions)
    run_map-from_data [] = refl
    run_map-from_data (s ∷ ss) =
        rw (from_data-done crate to_lowercase order s, run_map-from_data ss) refl

    import_list :
        (drawn : ℕ → ℕ → Uuid) (n : ℕ) (subscriptions : List (SubscriptionData P))
        (files : List V3.SubscriptionData)
        → IsOrder order
        → All (IsExportable crate to_lowercase is_ip_addr) subscriptions
        → AllSame (map (exported_data crate to_lowercase order) subscriptions) files
        → (after : List (SubscriptionData P)) × (run_map_from n
              (λ n e. V3.into_data crate to_lowercase is_ip_addr (drawn n) e)
              files
            ≡ done after)
          × AllReimported drawn n subscriptions after
    import_list drawn n [] [] permutes h same = ([], refl, tt)
    import_list drawn n (s ∷ ss) (file ∷ files) permutes (fits, h) (here, same) =
        let (new, imported, again) =
          into_data-done crate to_lowercase is_ip_addr order (drawn n) s file permutes fits here in
        let (news, all_imported, all_again) = import_list drawn (suc n) ss files permutes h same in
        (new ∷ news, rw (imported, all_imported) refl, (again, all_again))
    import_list drawn n [] (file ∷ files) permutes h same = elim same [ ]
    import_list drawn n (s ∷ ss) [] permutes h same = elim same [ ]

    -- Subscriptions whose outputs and filters are built again from their parts, as those of
    -- configuration files are, can be exported and imported again. Each comes back as it was, but for
    -- a new internal version and the order of the targets of its filter, when the JSON package writes
    -- the export and reads back what it wrote, up to the order of the sets of targets in it.
    pub parse-serialize :
        (serde_json : SerdeJson) (drawn : ℕ → ℕ → Uuid) (subscriptions : List (SubscriptionData P))
        → IsOrder order
        → ((e : V3.Subscriptions)
            → V3.from_subscriptions crate to_lowercase order subscriptions ≡ done e
            → (text : String) × (read : V3.Subscriptions) × (serde_json.to_string (v3 e) ≡ ok text)
              × (serde_json.from_str text ≡ ok (v3 read))
              × AllSame e.subscriptions read.subscriptions)
        → All (IsExportable crate to_lowercase is_ip_addr) subscriptions
        → (after : List (SubscriptionData P)) × ((serialize crate to_lowercase serde_json order
                subscriptions
              >>= λ text. parse crate to_lowercase serde_json is_ip_addr drawn text)
            ≡ done after)
          × AllReimported drawn 0 subscriptions after
    unfolding serialize parse into_subscriptions V3.into_subscriptions V3.from_subscriptions
    parse-serialize serde_json drawn subscriptions permutes round_trips fits =
        let exported = run_map-from_data subscriptions in
        let (text, read, written, reads, same) =
          round_trips
            (record { subscriptions = map (exported_data crate to_lowercase order) subscriptions })
            (rw exported refl) in
        let (after, imported, again) =
          import_list drawn 0 subscriptions read.subscriptions permutes fits same in
        (after, rw (exported, written, reads, imported) refl, again)
