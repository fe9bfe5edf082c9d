-- ===== src/Tests/Files.antt =====
-- The thread of the Files driver on concrete messages, with a file system that is a function from
-- paths to contents and a path on which every write fails; and the names in paths.
use Prim.Native.String.{◌++◌}
use openwec.Prelude.{
  ℕ, String, Bool, true, false, Option, none, some, List, [], ◌∷◌, Result, ok, bail, ◌==◌,
  string_eq, ==-refl, ◌≡◌, refl, arith, Bool-cases, inl, inr, if◌then◌else◌, ◌≤◌,
}
use openwec.Prelude.Dict
use openwec.Prelude.Dict.{lookup}
use openwec.Prelude.Text.{has_char, join, split}
use openwec.Server.Drivers.{WriteFilesMessage, write, garbage_collect, clear_handles, stop}
use openwec.Server.Files.{
  FileSystem, FileContainer, Worker, FileHandles, run, collect_garbage, has_not_been_used_since,
}
use openwec.Server.Files.Contents.{FileSystemLaws, written, acknowledged, contents-run}
use openwec.Server.Files.Garbage.{lookup-collect_garbage}
use openwec.Server.Files.Names.{split_ip, sanitize_name, sanitize_from, is_allowed}
use openwec.Server.Files.Prefix.{char_count, all_chars, split_ip-join, sanitize_name-bounds}

abbrev full : String
full = "/full"

abbrev wrote : String → String → (String → String) → String → String
wrote file text fs path = if path == file then fs path ++ text else fs path

abbrev disk : FileSystem (String → String) String
disk = record {
  parent = λ path. some "/";
  create_dir_all = λ dir fs. (fs, ok tt);
  open_append = λ path fs. (fs, ok path);
  write_all = λ file text fs.
      if file == full then (fs, bail "No space left on device") else (wrote file text fs, ok tt);
}

abbrev disk_laws : FileSystemLaws disk
disk_laws = record {
  contents = λ fs path. fs path;
  path_of = λ file. file;
  contents-create_dir_all = λ dir fs path. refl;
  contents-open_append = λ opened fs path. refl;
  path_of-open_append = λ opened fs file h. cc;
  contents-write_all = λ file text fs h. elim (Bool-cases (file == full)) [
    | inl fails ↦ cc (rw fails at h)
    | inr works ↦ rw (works, ==-refl file) refl
  ];
  contents-write_other = λ file text fs path other. elim (Bool-cases (file == full)) [
    | inl fails ↦ rw fails refl
    | inr works ↦ rw (works, other) refl
  ];
}

abbrev logs : String
logs = "/logs/messages"

abbrev received : List (ℕ × WriteFilesMessage)
received =
    (1, write (record { path = logs; content = "a\n" }))
    ∷ (2, write (record { path = full; content = "lost\n" }))
    ∷ (700, garbage_collect 600)
    ∷ (701, write (record { path = logs; content = "b\n" }))
    ∷ (702, clear_handles)
    ∷ (703, write (record { path = logs; content = "c\n" }))
    ∷ (704, stop)
    ∷ (705, write (record { path = logs; content = "late\n" }))
    ∷ []

abbrev started : Worker (String → String) String
started = record { file_handles = []; fs = λ path. "" }

run-logs : (run disk received started).0.fs logs ≡ "a\nb\nc\n"
unfolding run openwec.Server.Files.handle_message lookup openwec.Server.Files.open_and_write
    openwec.Server.Files.write_new openwec.Prelude.string_dec collect_garbage Dict.insert
    has_not_been_used_since Dict.remove
run-logs = refl

nothing_open :
    (p : String) (c : FileContainer String) → lookup p started.file_handles ≡ some c → c.file ≡ p
unfolding lookup
nothing_open p c found = cc

contents_example : (run disk received started).0.fs logs ≡ "" ++ written logs received
unfolding acknowledged run openwec.Prelude.string_dec openwec.Server.Files.handle_message lookup
    openwec.Server.Files.open_and_write openwec.Server.Files.write_new collect_garbage Dict.insert
    has_not_been_used_since Dict.remove
contents_example = contents-run disk disk_laws received started logs nothing_open refl

abbrev handles : FileHandles String
handles =
    (logs, record { file = logs; last_used = 90 })
    ∷ ("/old", record { file = "/old"; last_used = 9 })
    ∷ []

garbage_example : lookup "/old" (collect_garbage 100 60 handles) ≡ none
unfolding lookup openwec.Prelude.string_dec has_not_been_used_since
garbage_example = lookup-collect_garbage 100 60 "/old" handles (refl, (refl, tt))

split_ip_example : split_ip (λ ip. true) "10.0.3.4" 2 ≡ "10.0"
unfolding join split
split_ip_example = split_ip-join (λ ip. true) "10.0.3.4" 2

sanitize_name_example :
    (char_count (sanitize_name "DC$/../@AD") ≤ 255)
    × (all_chars is_allowed (sanitize_name "DC$/../@AD") ≡ true)
    × (has_char "/" (sanitize_name "DC$/../@AD") ≡ false)
sanitize_name_example = sanitize_name-bounds "DC$/../@AD"

same_tests :
    (sanitize_name "/bad/dir" ≡ "baddir")
    × (sanitize_name "DC$@WINDOMAIN.LOCAL" ≡ "DC@WINDOMAIN.LOCAL")
    × (sanitize_name ".." ≡ "..")
unfolding sanitize_name sanitize_from is_allowed
same_tests = (refl, refl, refl)
