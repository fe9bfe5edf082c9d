-- ===== src/Database/Bookmarks/Selection.antt =====
-- What storing and deleting bookmarks leave for each machine and subscription.
use openwec.Prelude.{
  String, Bool, true, ◌&&◌, Option, none, some, [], ◌∷◌, ◌≡◌, arith, ◌==◌, eq_of_==, string_eq,
  if◌then◌else◌,
}
use openwec.Prelude.Dict.{lookup, lookup-insert}
use openwec.Database.Bookmarks.{
  BookmarkKey, bookmark_key_eq, Bookmarks, get_bookmark, store_bookmark, delete_where,
  delete_bookmarks,
}

-- A bookmark that is stored is read back for its machine and subscription, and every other one is
-- read as before.
pub get-store_bookmark :
    (machine subscription m s bookmark : String) (table : Bookmarks)
    → get_bookmark machine subscription (store_bookmark m s bookmark table) ≡ (
        if machine == m && subscription == s
        then some bookmark
        else get_bookmark machine subscription table)
unfolding get_bookmark store_bookmark
get-store_bookmark machine subscription m s bookmark table = ground (
  arith,
  lookup-insert (record { machine = machine; subscription = subscription })
      (record { machine = m; subscription = s }) bookmark table,
)

lookup-delete_where :
    (selected : BookmarkKey → Bool) (key : BookmarkKey) (table : Bookmarks)
    → lookup key (delete_where selected table) ≡ (if selected key then none else lookup key table)
unfolding lookup
lookup-delete_where selected key [] = ground arith
lookup-delete_where selected key ((j, bookmark) ∷ table) =
    ground (arith, lookup-delete_where selected key table, eq_of_== key j)

-- An absent argument selects every machine, or every subscription.
abbrev pub selects : Option String → String → Bool
selects none text = true
selects (some wanted) text = text == wanted

-- After a deletion, exactly the bookmarks that both arguments select are gone; every other one is as
-- before.
pub get-delete_bookmarks :
    (wanted_machine wanted_subscription : Option String) (machine subscription : String)
    (table : Bookmarks)
    → get_bookmark machine subscription (delete_bookmarks wanted_machine wanted_subscription table)
      ≡ (if selects wanted_machine machine && selects wanted_subscription subscription
          then none
          else get_bookmark machine subscription table)
unfolding get_bookmark delete_bookmarks
get-delete_bookmarks (some m) (some s) machine subscription table =
    lookup-delete_where (λ key. key.machine == m && key.subscription == s) _ table
get-delete_bookmarks (some m) none machine subscription table = ground (
  arith,
  lookup-delete_where (λ key. key.machine == m)
      (record { machine = machine; subscription = subscription }) table,
)
get-delete_bookmarks none (some s) machine subscription table =
    lookup-delete_where (λ key. key.subscription == s) _ table
get-delete_bookmarks none none machine subscription table =
    lookup-delete_where (λ key. true) _ table
