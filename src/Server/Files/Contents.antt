-- ===== src/Server/Files/Contents.antt =====
-- What the writes to a file leave in it, however the files are closed and opened in between
-- (server/src/drivers/files.rs).
use Prim.Native.String.{◌++◌}
use text.Mathlib.TextLemmas.{append-nil, append_assoc}
use openwec.Prelude.{
  ℕ, String, Bool, true, false, none, some, List, [], ◌∷◌, Result, ok, err, with_context, ◌==◌,
  string_eq, if◌then◌else◌, ◌≡◌, refl, sym, ◌∙◌, Bool-cases, Option-cases, Result-cases, inl, inr,
  ◌&&◌, eq_of_==, and_true,
}
use openwec.Prelude.Dict.{lookup, insert, remove, lookup-insert, lookup-remove}
use openwec.Server.Drivers.{
  WriteMessage, WriteFilesMessage, write, garbage_collect, clear_handles, stop,
}
use openwec.Server.Files.{
  FileSystem, FileContainer, FileHandles, Worker, stale_paths, remove_paths, collect_garbage,
  write_open, write_new, open_and_write, handle_message, run,
}

-- The documented behaviour of the calls, where distinct paths name distinct files: a file that is
-- opened has the contents that it had, and a write that succeeds appends to its file. A write
-- touches no other file.
pub record FileSystemLaws {Fs File : Type 0} (system : FileSystem Fs File) : Type 0 where
  pub contents : Fs → String → String
  pub path_of : File → String
  pub contents-create_dir_all :
      (dir : String) (fs : Fs) (path : String)
      → contents (system.create_dir_all dir fs).0 path ≡ contents fs path
  pub contents-open_append :
      (opened : String) (fs : Fs) (path : String)
      → contents (system.open_append opened fs).0 path ≡ contents fs path
  pub path_of-open_append :
      (opened : String) (fs : Fs) (file : File)
      → (system.open_append opened fs).1 ≡ ok file
      → path_of file ≡ opened
  pub contents-write_all :
      (file : File) (text : String) (fs : Fs)
      → (system.write_all file text fs).1 ≡ ok tt
      → contents (system.write_all file text fs).0 (path_of file)
        ≡ contents fs (path_of file) ++ text
  pub contents-write_other :
      (file : File) (text : String) (fs : Fs) (path : String)
      → path == path_of file ≡ false
      → contents (system.write_all file text fs).0 path ≡ contents fs path

-- The texts that the messages up to a stop write to a path.
unfoldable pub written : String → List (ℕ × WriteFilesMessage) → String
written path [] = ""
written path ((now, write message) ∷ received) =
    let rest = written path received in
    if path == message.path then message.content ++ rest else rest
written path ((now, stop) ∷ received) = ""
written path ((now, _) ∷ received) = written path received

abbrev pub succeeds : Result (Unit {0}) → Bool
succeeds (ok _) = true
succeeds (err e) = false

succeeds_ok : (reply : Result (Unit {0})) → succeeds reply ≡ true → reply ≡ ok tt
succeeds_ok (ok _) h = refl
succeeds_ok (err e) h = cc

keeps :
    (test : Bool) (c : String) {a b : String}
    → (if test then false else true) ≡ true
    → a ≡ b
    → a ≡ (if test then c else b)
keeps true c h e = cc
keeps false c h e = e

with_context-ok {ℓ} :
    {A : Type ℓ} (text : String) (r : Result A) (a : A) → with_context text r ≡ ok a → r ≡ ok a
with_context-ok text (ok b) a h = cc
with_context-ok text (err e) a h = cc

-- Whether each reply to a write to the path is a success.
unfoldable pub acknowledged :
    String → List (ℕ × WriteFilesMessage) → List (Result (Unit {0})) → Bool
acknowledged path ((now, write message) ∷ received) (reply ∷ replies) =
    let rest = acknowledged path received replies in
    if path == message.path then succeeds reply && rest else rest
acknowledged path ((now, write message) ∷ received) [] = true
acknowledged path ((now, stop) ∷ received) replies = true
acknowledged path ((now, _) ∷ received) replies = acknowledged path received replies
acknowledged path [] replies = true

removed {ℓ} : {A : Type ℓ} {a : A} → none ≡ some a → ⊥
removed h = cc

module _ {Fs File : Type 0} (system : FileSystem Fs File) (laws : FileSystemLaws system) where
  -- Each open file is the one of its path.
  abbrev pub AreOpen : FileHandles File → Type 0
  AreOpen handles =
      (path : String) (c : FileContainer File)
      → lookup path handles ≡ some c
      → laws.path_of c.file ≡ path

  -- What one message does to a file: a success appends the text, and other files stay.
  abbrev Appends : WriteMessage → Worker Fs File → Worker Fs File × Result (Unit {0}) → Type 0
  Appends message w (w', reply) =
      AreOpen w'.file_handles
      × ((path : String)
          → (if path == message.path then succeeds reply else true) ≡ true
          → laws.contents w'.fs path ≡ (
              if path == message.path
              then laws.contents w.fs path ++ message.content
              else laws.contents w.fs path))

  insert-AreOpen :
      (path : String) (c : FileContainer File) (handles : FileHandles File)
      → laws.path_of c.file ≡ path
      → AreOpen handles
      → AreOpen (insert path c handles)
  insert-AreOpen path c handles e h p d found = elim (Bool-cases (p == path)) [
    | inl same ↦
        let kept = rw (lookup-insert p path c handles, same) at found in
        let there = eq_of_== p path same in cc (kept, e, there)
    | inr other ↦ h p d (rw (lookup-insert p path c handles, other) at found)
  ]

  contents_of_write :
      (file : File) (text p : String) (fs : Fs) (path : String)
      → laws.path_of file ≡ p
      → (if path == p then succeeds (system.write_all file text fs).1 else true) ≡ true
      → laws.contents (system.write_all file text fs).0 path
        ≡ (if path == p then laws.contents fs path ++ text else laws.contents fs path)
  contents_of_write file text p fs path e h = elim (Bool-cases (path == p)) [
    | inl same ↦
        let here : laws.path_of file ≡ path = e ∙ sym (eq_of_== path p same) in
        rw same (rw here at (laws.contents-write_all file text fs (succeeds_ok _ (rw same at h))))
    | inr other ↦ rw other (laws.contents-write_other file text fs path (rw e other))
  ]

  write_open-Appends :
      (now : ℕ) (message : WriteMessage) (c : FileContainer File) (w : Worker Fs File)
      → AreOpen w.file_handles
      → laws.path_of c.file ≡ message.path
      → Appends message w (write_open system now message c w)
  unfolding write_open
  write_open-Appends now message c w h e = (
    insert-AreOpen message.path (record { file = c.file; last_used = now }) w.file_handles e h,
    λ path good. contents_of_write c.file message.content message.path w.fs path e good,
  )

  write_new-Appends :
      (now : ℕ) (message : WriteMessage) (w : Worker Fs File) (fs : Fs) (opened : Result File)
      → AreOpen w.file_handles
      → ((path : String) → laws.contents fs path ≡ laws.contents w.fs path)
      → ((file : File) → opened ≡ ok file → laws.path_of file ≡ message.path)
      → Appends message w (write_new system now message fs opened w.file_handles)
  unfolding write_new
  write_new-Appends now message w fs (err e) h same named = (
    h,
    λ path good.
        keeps (path == message.path) (laws.contents w.fs path ++ message.content) good (same path),
  )
  write_new-Appends now message w fs (ok file) h same named =
      elim (Result-cases (system.write_all file message.content fs).1) [
        | inl (a, fine) ↦
            rw (fine, write_new)
              (
                insert-AreOpen message.path (record { file = file; last_used = now }) w.file_handles
                    (named file refl) h,
                λ path good.
                    contents_of_write file message.content message.path fs path (named file refl)
                      (rw fine good)
                    ∙ rw (same path) refl,
              )
        | inr (e, failed) ↦
            rw (failed, write_new)
              (
                h,
                λ path good.
                    contents_of_write file message.content message.path fs path (named file refl)
                      (rw failed good)
                    ∙ rw (same path) refl,
              )
      ]

  open_and_write-Appends :
      (now : ℕ) (message : WriteMessage) (parent : String) (w : Worker Fs File)
      → AreOpen w.file_handles
      → Appends message w (open_and_write system now message parent w)
  unfolding open_and_write
  open_and_write-Appends now message parent w h =
      let created = (system.create_dir_all parent w.fs).0 in
      elim (Result-cases (system.create_dir_all parent w.fs).1) [
        | inl (a, fine) ↦
            rw (fine, open_and_write)
              (write_new-Appends now message w (system.open_append message.path created).0
                (with_context "Failed to open file {}" (system.open_append message.path created).1)
                h
                (λ path.
                  laws.contents-open_append message.path created path
                  ∙ laws.contents-create_dir_all parent w.fs path)
                λ file named.
                  laws.path_of-open_append message.path created file
                    (with_context-ok "Failed to open file {}" _ file named))
        | inr (e, failed) ↦
            rw (failed, open_and_write)
              (
                h,
                λ path good.
                    keeps (path == message.path) (laws.contents w.fs path ++ message.content) good
                      (laws.contents-create_dir_all parent w.fs path),
              )
      ]

  handle_message-Appends :
      (now : ℕ) (message : WriteMessage) (w : Worker Fs File)
      → AreOpen w.file_handles
      → Appends message w (handle_message system now message w)
  unfolding handle_message
  handle_message-Appends now message w h = elim (Option-cases (system.parent message.path)) [
    | inl missing ↦
        rw (missing, handle_message)
          (
            h,
            λ path good.
                keeps (path == message.path) (laws.contents w.fs path ++ message.content) good refl,
          )
    | inr (parent, e) ↦ elim (Option-cases (lookup message.path w.file_handles)) [
      | inl new ↦ rw (e, new, handle_message) (open_and_write-Appends now message parent w h)
      | inr (c, found) ↦
          rw (e, found, handle_message)
            (write_open-Appends now message c w h (h message.path c found))
    ]
  ]

  remove_paths-AreOpen :
      (paths : List String) (handles : FileHandles File)
      → AreOpen handles
      → AreOpen (remove_paths paths handles)
  remove_paths-AreOpen [] handles h = h
  remove_paths-AreOpen (path ∷ paths) handles h =
      remove_paths-AreOpen paths (remove path handles) λ p c found. elim (Bool-cases (p == path)) [
        | inl same ↦ absurd (removed (rw (lookup-remove p path handles, same) at found))
        | inr other ↦ h p c (rw (lookup-remove p path handles, other) at found)
      ]

  -- The run of the thread: a file whose writes are all answered by a success has what it had and then
  -- the texts written to it, in order, whatever is closed and opened again in between and whatever
  -- becomes of other files. Each handle at the start is open on its path, as with no handles, and the
  -- file system obeys its laws.
  pub contents-run :
      (received : List (ℕ × WriteFilesMessage)) (w : Worker Fs File) (path : String)
      → AreOpen w.file_handles
      → acknowledged path received (run system received w).1 ≡ true
      → laws.contents (run system received w).0.fs path
        ≡ laws.contents w.fs path ++ written path received
  unfolding run written acknowledged lookup collect_garbage
  contents-run [] w path h good = sym (append-nil _)
  contents-run ((now, write message) ∷ received) w path h good =
      let (kept, step) = handle_message-Appends now message w h in
      let after = (handle_message system now message w).0 in
      elim (Bool-cases (path == message.path)) [
        | inl same ↦
            let (fine, rest) = and_true _ _ (rw same at good) in
            contents-run received after path kept rest
            ∙ rw (step path (rw same fine), same) (append_assoc _ _ _)
        | inr other ↦
            contents-run received after path kept (rw other at good)
            ∙ rw (step path (rw other refl), other) refl
      ]
  contents-run ((now, garbage_collect timeout) ∷ received) w path h good =
      contents-run received (record w { file_handles = collect_garbage now timeout w.file_handles })
        path (remove_paths-AreOpen (stale_paths now timeout w.file_handles) w.file_handles h) good
  contents-run ((now, clear_handles) ∷ received) w path h good =
      contents-run received (record w { file_handles = [] }) path (λ p c found. cc) good
  contents-run ((now, stop) ∷ received) w path h good = sym (append-nil _)
