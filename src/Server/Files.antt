-- ===== src/Server/Files.antt =====
-- The Files driver: the thread that owns the open files, in server/src/drivers/files.rs. The file
-- system is a parameter. An instant is a number of seconds; each message comes with the instant at
-- which it is handled.
pub mod Names
pub mod Prefix
pub mod Contents
pub mod Garbage
use openwec.Prelude.{
  ℕ, ◌+◌, String, Bool, Option, none, some, List, [], ◌∷◌, Result, ok, err, bail, with_context, ltb,
  Eq, keep, map, string_eq, if◌then◌else◌,
}
use openwec.Prelude.Dict
use openwec.Prelude.Dict.{Dict, lookup, insert, remove}
use openwec.Server.Drivers.{
  WriteMessage, WriteFilesMessage, write, garbage_collect, clear_handles, stop,
}

-- `Path::parent`, `create_dir_all`, `OpenOptions` that create and append, and `write_all`.
pub record FileSystem (Fs File : Type 0) : Type 0 where
  pub parent : String → Option String
  pub create_dir_all : String → Fs → Fs × Result (Unit {0})
  pub open_append : String → Fs → Fs × Result File
  pub write_all : File → String → Fs → Fs × Result (Unit {0})

pub record FileContainer (File : Type 0) : Type 0 where
  pub file : File
  pub last_used : ℕ

-- `last_used < now - timeout`
unfoldable pub has_not_been_used_since : {File : Type 0} → ℕ → ℕ → FileContainer File → Bool
has_not_been_used_since now timeout c = ltb (c.last_used + timeout) now

abbrev pub FileHandles : Type 0 → Type 0
FileHandles File = Dict String (FileContainer File)

-- The thread's map of open files, and the file system.
pub record Worker (Fs File : Type 0) : Type 0 where
  pub file_handles : FileHandles File
  pub fs : Fs

abbrev pub stale_paths : {File : Type 0} → ℕ → ℕ → FileHandles File → List String
stale_paths now timeout [] = []
stale_paths now timeout ((path, c) ∷ handles) =
    let rest = stale_paths now timeout handles in
    if has_not_been_used_since now timeout c then path ∷ rest else rest

abbrev pub remove_paths : {File : Type 0} → List String → FileHandles File → FileHandles File
remove_paths [] handles = handles
remove_paths (path ∷ paths) handles = remove_paths paths (remove path handles)

-- `garbage_collect`
unfoldable pub collect_garbage : {File : Type 0} → ℕ → ℕ → FileHandles File → FileHandles File
collect_garbage now timeout handles = remove_paths (stale_paths now timeout handles) handles

module _ {Fs File : Type 0} (system : FileSystem Fs File) where
  -- A write to a file that is open. The instant is set before the write.
  unfoldable pub write_open :
      ℕ → WriteMessage → FileContainer File → Worker Fs File → Worker Fs File × Result (Unit {0})
  write_open now message c w =
      let (fs, result) = system.write_all c.file message.content w.fs in
      (
        record {
          file_handles =
              insert message.path (record { file = c.file; last_used = now }) w.file_handles;
          fs = fs;
        },
        result,
      )

  -- What follows the opening of a file; it is kept open when the write succeeds.
  unfoldable pub write_new :
      ℕ → WriteMessage → Fs → Result File → FileHandles File → Worker Fs File × Result (Unit {0})
  write_new now message fs (err e) handles = (record { file_handles = handles; fs = fs }, err e)
  write_new now message fs (ok file) handles =
      let (fs, result) = system.write_all file message.content fs in
      elim result [
        | err e ↦ (record { file_handles = handles; fs = fs }, err e)
        | ok _ ↦ (
          record {
            file_handles = insert message.path (record { file = file; last_used = now }) handles;
            fs = fs;
          },
          ok tt,
        )
      ]

  unfoldable pub open_and_write :
      ℕ → WriteMessage → String → Worker Fs File → Worker Fs File × Result (Unit {0})
  open_and_write now message parent w =
      let (fs, created) = system.create_dir_all parent w.fs in
      elim created [
        | err e ↦ (record { file_handles = w.file_handles; fs = fs }, err e)
        | ok _ ↦
            let (fs, opened) = system.open_append message.path fs in
            write_new now message fs (with_context "Failed to open file {}" opened) w.file_handles
      ]

  unfoldable pub handle_message :
      ℕ → WriteMessage → Worker Fs File → Worker Fs File × Result (Unit {0})
  handle_message now message w = elim (system.parent message.path) [
    | none ↦ (w, bail "Failed to retrieve messages parent folder")
    | some parent ↦ elim (lookup message.path w.file_handles) [
      | some c ↦ write_open now message c w
      | none ↦ open_and_write now message parent w
    ]
  ]

  -- `run`: the messages with the instants at which they are received, up to the end of the channel.
  -- The replies are those to the writes, in order.
  unfoldable pub run :
      List (ℕ × WriteFilesMessage) → Worker Fs File → Worker Fs File × List (Result (Unit {0}))
  run [] w = (w, [])
  run ((now, write message) ∷ received) w =
      let (w, reply) = handle_message now message w in
      let (w, replies) = run received w in (w, reply ∷ replies)
  run ((now, garbage_collect timeout) ∷ received) w =
      run received (record w { file_handles = collect_garbage now timeout w.file_handles })
  run ((now, clear_handles) ∷ received) w = run received (record w { file_handles = [] })
  run ((now, stop) ∷ received) w = (w, [])
