-- ===== src/Files.antt =====
-- The files that the programs read and write, `std::fs` as they use it: a state from paths to bytes,
-- and the faults of the disk as arguments.
use ldk_server.Prelude.{
  ◌≡◌, ◌∙◌, true, inl, inr, ◌>>=◌, Result-cases, Bool-cases, Bool, false, not, ◌&&◌, Option, none,
  some, Result, ok, err, if◌then◌else◌, is_some, arith,
}
use ldk_server.Text.{Text, lit, text_eq}
use ldk_server.Text.Utf8.{is_utf8}
use ldk_server.Text.Equality.{text_eq_refl}
use ldk_server.Storage.Namespace.{IoError, not_found, invalid_data}

abbrev pub Files : Type 0
Files = Text → Option Text

-- Where the disk fails: `exists` and `read` on a path, and a `write`, with what is then in the file.
pub record Disk : Type 0 where
  pub exists_fault : Text → Bool
  pub read_fault : Text → Option IoError
  pub write_fault : Text → Text → Option (IoError × Option Text)

-- The file `path` with this content, or none.
abbrev pub with_file : Text → Option Text → Files → Files
with_file path content fs = λ q. if text_eq path q then content else fs q

abbrev missing : IoError
missing = record { kind = not_found; message = lit "No such file or directory" }

module _ (disk : Disk) where
  -- `fs::exists(&path).unwrap_or(false)`
  abbrev pub exists : Text → Files → Bool
  exists path fs = not (disk.exists_fault path) && is_some (fs path)

  -- `fs::read`
  unfoldable pub read_file : Text → Files → Result Text IoError
  read_file path fs = elim (disk.read_fault path) [
    | some e ↦ err e
    | none ↦ elim (fs path) [ none ↦ err missing | some bytes ↦ ok bytes ]
  ]

  -- `fs::read_to_string`
  unfoldable pub read_to_string : Text → Files → Result Text IoError
  read_to_string path fs = read_file path fs >>= λ bytes.
      if is_utf8 bytes
      then ok bytes
      else err (record { kind = invalid_data; message = lit "stream did not contain valid UTF-8" })

  -- `fs::write`
  unfoldable pub write_file : Text → Text → Files → Result (Unit {0}) IoError × Files
  write_file path bytes fs = elim (disk.write_fault path bytes) [
    | none ↦ (ok tt, with_file path (some bytes) fs)
    | some (e, left) ↦ (err e, with_file path left fs)
  ]

pub with_file-same : (path : Text) (c : Option Text) (fs : Files) → with_file path c fs path ≡ c
with_file-same path c fs = rw (text_eq_refl path)

pub with_file-other :
    (path q : Text) (c : Option Text) (fs : Files)
    → text_eq path q ≡ false
    → with_file path c fs q ≡ fs q
with_file-other path q c fs h = rw h

pub read_file-found :
    (disk : Disk) (path bytes : Text) (fs : Files)
    → disk.read_fault path ≡ none
    → fs path ≡ some bytes
    → read_file disk path fs ≡ ok bytes
unfolding read_file
read_file-found disk path bytes fs sound there = cc

pub write_file_sound :
    (disk : Disk) (path bytes : Text) (fs : Files)
    → disk.write_fault path bytes ≡ none
    → write_file disk path bytes fs ≡ (ok tt, with_file path (some bytes) fs)
unfolding write_file
write_file_sound disk path bytes fs sound = cc

pub read_file-ok :
    (disk : Disk) (path bytes : Text) (fs : Files)
    → read_file disk path fs ≡ ok bytes
    → fs path ≡ some bytes
unfolding read_file
read_file-ok disk path bytes fs h = ground arith

pub read_to_string-found :
    (disk : Disk) (path bytes : Text) (fs : Files)
    → disk.read_fault path ≡ none
    → fs path ≡ some bytes
    → is_utf8 bytes ≡ true
    → read_to_string disk path fs ≡ ok bytes
unfolding read_to_string
read_to_string-found disk path bytes fs sound there valid =
    rw (read_file-found disk path bytes fs sound there, valid)

pub read_to_string-ok :
    (disk : Disk) (path bytes : Text) (fs : Files)
    → read_to_string disk path fs ≡ ok bytes
    → fs path ≡ some bytes
unfolding read_to_string
read_to_string-ok disk path bytes fs h = elim (Result-cases (read_file disk path fs)) [
  | inl (b, e) ↦
      read_file-ok disk path bytes fs
        (e ∙ elim (Bool-cases (is_utf8 b)) [ inl v ↦ rw (e, v) at h | inr v ↦ cc (rw (e, v) at h) ])
  | inr (x, e) ↦ cc (rw e at h)
]
