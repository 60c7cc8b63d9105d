-- ===== src/Builtin/File.antt =====
-- lib/builtin/file.c: a storage that keeps each key's value in a file of a directory. The file system
-- is a tree from paths to bytes.
pub mod Format
pub mod Laws
use propd.Prelude.{
  ℕ, ◌-◌, ◌+◌, Text, ℤ, pos, Bool, true, false, List, [], ◌∷◌, ◌++◌, Option, none, some, Reply, ok,
  err, fault, Done, done, enoent, enomem, eio, Errno, take, length, leb, if◌then◌else◌,
}
use propd.Value.{Tag, Value}
use propd.Storage.{Storage}
use propd.Infra.Tree.{TreeOps}
use propd.Builtin.File.Format.{Head, encode, decode_head, sized_bytes}

abbrev pub slash : ℕ
slash = b'/'

-- `snprintf(path, size, "%s/%s", root, key)` keeps what fits before the NUL.
unfoldable pub path_of : ℕ → Text → Text → Text
path_of size root key = take (size - 1) (root ++ (slash ∷ key))

-- The sizes of the path in `file_get`, and in `file_set` and `file_del`.
abbrev pub path_max : ℕ
path_max = 4096

abbrev pub path_short : ℕ
path_short = 256

read_data : Head → Option (List ℕ) → Reply (Value × ℤ)
read_data h none = err eio
read_data h (some bs) = ok (record { tag = h.tag; length = h.length; bytes = bs }, pos 0)

read_body : Bool → Option (Head × List ℕ) → Reply (Value × ℤ)
unfolding read_data sized_bytes
read_body granted none = err eio
read_body false (some (h, rest)) = err enomem
read_body true (some (h, rest)) = read_data h (sized_bytes h.length rest)

-- `file_get` on a file that is open, with these bytes.
unfoldable pub read_value : Bool → List ℕ → Reply (Value × ℤ)
unfolding read_body decode_head
read_value granted file = read_body granted (decode_head file)

read_found : Bool → Option (List ℕ) → Reply (Value × ℤ)
unfolding read_value
read_found granted none = err enoent
read_found granted (some file) = read_value granted file

module _ (F : TreeOps (List ℕ)) where
  unfoldable pub file_get : Bool → Text → F.Tree → Text → Reply (Value × ℤ) × F.Tree
  unfolding read_found path_of
  file_get granted root fs key = (read_found granted (F.find fs (path_of path_max root key)), fs)

  -- `fopen(path, "w")` makes the file if it is not there.
  unfoldable pub write_file : F.Tree → Text → List ℕ → F.Tree
  write_file fs path file = elim (F.find fs path) [
    | none ↦ (F.insert fs path file).0
    | some old ↦ F.assign fs path file
  ]

  -- `refused` is the error of `fopen`, and `room` the number of bytes that can be written. `told` says
  -- whether `fwrite` sees that they do not fit: what it keeps in its buffer fails in `fclose` only, whose
  -- result is not looked at.
  unfoldable pub file_set : Option Errno → Bool → ℕ → Text → F.Tree → Text → Value → Done × F.Tree
  unfolding path_of write_file
  file_set refused told room root fs key v = elim refused [
    | some e ↦ (err e, fs)
    | none ↦ (
      if leb (length (encode v)) room then done else if told then err eio else done,
      write_file fs (path_of path_short root key) (take room (encode v)),
    )
  ]

  unfoldable pub file_del : Text → F.Tree → Text → Done × F.Tree
  unfolding path_of
  file_del root fs key = elim (F.find fs (path_of path_short root key)) [
    | none ↦ (err enoent, fs)
    | some file ↦ (done, F.remove fs (path_of path_short root key))
  ]

  -- The directory is there or was made, and the memory of the name and of the private part is granted.
  unfoldable pub constructor_file :
      Option Errno → Bool → Bool → Option Errno → Bool → ℕ → Text → Text → Reply (Storage F.Tree)
  constructor_file no_dir made granted refused told room name dir = elim no_dir [
    | some e ↦ err e
    | none ↦
        if made
        then ok (record {
          name = name;
          get = some (file_get granted dir);
          set = some (file_set refused told room dir);
          del = some (file_del dir);
          destructor = some (λ fs. fs);
        })
        else err enomem
  ]
