-- ===== src/Database/Bookmarks.antt =====
-- The table `bookmarks`: common/src/bookmark.rs, and the statements on it in
-- common/src/database/sqlite.rs, where they succeed. The primary key is the machine and the
-- subscription.
pub mod Selection
use openwec.Prelude.{
  String, Bool, true, false, not, ◌&&◌, Option, none, some, List, [], ◌∷◌, Eq, string_dec,
  string_eq, ◌==◌, if◌then◌else◌,
}
use openwec.Prelude.Dict
use openwec.Prelude.Dict.{Dict}

pub record BookmarkKey : Type 0 where
  pub machine : String
  pub subscription : String

unfoldable pub BookmarkKey-discrete : Discrete BookmarkKey
BookmarkKey-discrete = hlevel string_dec

instance abbrev pub bookmark_key_eq : Eq BookmarkKey
bookmark_key_eq = record { dec = BookmarkKey-discrete }

abbrev pub Bookmarks : Type 0
Bookmarks = Dict BookmarkKey String

pub record BookmarkData : Type 0 where
  pub subscription : String
  pub machine : String
  pub bookmark : String

unfoldable pub get_bookmark : String → String → Bookmarks → Option String
unfolding Dict.lookup
get_bookmark machine subscription =
    Dict.lookup (record { machine = machine; subscription = subscription })

unfoldable pub get_bookmarks : String → Bookmarks → List BookmarkData
get_bookmarks subscription [] = []
get_bookmarks subscription ((key, bookmark) ∷ table) =
    let rest = get_bookmarks subscription table in
    if key.subscription == subscription
    then record { subscription = subscription; machine = key.machine; bookmark = bookmark } ∷ rest
    else rest

unfoldable pub store_bookmark : String → String → String → Bookmarks → Bookmarks
unfolding Dict.insert
store_bookmark machine subscription =
    Dict.insert (record { machine = machine; subscription = subscription })

-- `DELETE FROM bookmarks WHERE …`
abbrev pub delete_where : (BookmarkKey → Bool) → Bookmarks → Bookmarks
delete_where selected [] = []
delete_where selected ((key, bookmark) ∷ table) =
    let rest = delete_where selected table in if selected key then rest else (key, bookmark) ∷ rest

unfoldable pub delete_bookmarks : Option String → Option String → Bookmarks → Bookmarks
delete_bookmarks (some machine) (some subscription) =
    delete_where (λ key. key.machine == machine && key.subscription == subscription)
delete_bookmarks (some machine) none = delete_where (λ key. key.machine == machine)
delete_bookmarks none (some subscription) = delete_where (λ key. key.subscription == subscription)
delete_bookmarks none none = delete_where (λ key. true)
