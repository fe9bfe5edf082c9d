-- ===== src/Server/Files/Garbage.antt =====
-- The garbage collection of open files (server/src/drivers/files.rs).
use openwec.Prelude.{
  ℕ, ◌+◌, leb, String, Bool, false, Option, none, some, List, [], ◌∷◌, ◌==◌, string_eq, arith,
  if◌then◌else◌, ◌≡◌, refl, ◌∙◌, Bool-cases, inl, inr, eq_of_==,
}
use openwec.Prelude.Dict.{lookup, remove, lookup-remove, NodupKeys}
use openwec.Prelude.HashSet.{contains}
use openwec.Server.Files.{
  FileContainer, FileHandles, has_not_been_used_since, stale_paths, remove_paths, collect_garbage,
}

module _ {File : Type 0} where
  lookup-remove_paths :
      (path : String) (paths : List String) (handles : FileHandles File)
      → lookup path (remove_paths paths handles)
        ≡ (if contains path paths then none else lookup path handles)
  unfolding contains
  lookup-remove_paths path [] handles = refl
  lookup-remove_paths path (p ∷ paths) handles =
      ground
        (arith, lookup-remove_paths path paths (remove p handles), lookup-remove path p handles)

  abbrev is_stale : ℕ → ℕ → Option (FileContainer File) → Bool
  is_stale now timeout none = false
  is_stale now timeout (some c) = has_not_been_used_since now timeout c

  abbrev kept : ℕ → ℕ → Option (FileContainer File) → Option (FileContainer File)
  kept now timeout found = if is_stale now timeout found then none else found

  contains-stale_paths :
      (now timeout : ℕ) (path : String) (handles : FileHandles File)
      → NodupKeys handles
      → contains path (stale_paths now timeout handles) ≡ is_stale now timeout (lookup path handles)
  unfolding contains lookup
  contains-stale_paths now timeout path [] nodup = refl
  contains-stale_paths now timeout path ((p, c) ∷ handles) (fresh, nodup) =
      let ih = contains-stale_paths now timeout path handles nodup in
      elim (Bool-cases (path == p)) [
        | inl same ↦
            let gone : lookup path handles ≡ none = rw (eq_of_== path p same) fresh in
            let absent = rw gone at ih in
            elim (Bool-cases (has_not_been_used_since now timeout c)) [
              | inl stale ↦ rw (stale, same, contains) (rw stale refl)
              | inr used ↦ rw (used, same) (absent ∙ rw used refl)
            ]
        | inr other ↦ elim (Bool-cases (has_not_been_used_since now timeout c)) [
          | inl stale ↦ rw (stale, other, contains) ih
          | inr used ↦ rw (used, other) ih
        ]
      ]

  -- The file is kept when it was used within the timeout.
  abbrev pub kept_within : ℕ → ℕ → Option (FileContainer File) → Option (FileContainer File)
  kept_within now timeout none = none
  kept_within now timeout (some c) = if leb now (c.last_used + timeout) then some c else none

  kept-kept_within :
      (now timeout : ℕ) (found : Option (FileContainer File))
      → kept now timeout found ≡ kept_within now timeout found
  unfolding has_not_been_used_since
  kept-kept_within now timeout none = refl
  kept-kept_within now timeout (some c) = ground arith

  -- A garbage collection of handles with one entry for each path keeps exactly the files that were
  -- used within the timeout, to the instant, and closes the others.
  pub lookup-collect_garbage :
      (now timeout : ℕ) (path : String) (handles : FileHandles File)
      → NodupKeys handles
      → lookup path (collect_garbage now timeout handles)
        ≡ kept_within now timeout (lookup path handles)
  unfolding collect_garbage
  lookup-collect_garbage now timeout path handles nodup =
      lookup-remove_paths path (stale_paths now timeout handles) handles
      ∙ rw (contains-stale_paths now timeout path handles nodup)
          (kept-kept_within now timeout (lookup path handles))
