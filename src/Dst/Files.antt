-- ===== src/Dst/Files.antt =====
-- crates/stratamoto-dst/src/fs.rs: the files of the simulated hosts.
-- An address and a path are numbers. The inodes that `Arc`s share are kept in one store, where a file
-- holds the index of its own. A slice out of range or a subtraction below zero is the result `panic`.
pub mod Contents
use stratamoto.Base.{
  ℕ, ◌+◌, ◌-◌, List, [], ◌∷◌, ◌++◌, length, take, drop, replicate, get_elem?, set, Option, none,
  some, leb, ltb, if◌then◌else◌, map_get, map_insert, Bool, true, false, Result, ok, err, panic,
  ◌>>=◌,
}

pub record File : Type 0 where
  pub inode : ℕ
  pub can_write : Bool

pub record INode : Type 0 where
  pub path : ℕ
  pub contents : List ℕ

-- a host's files: the paths and their inodes
pub record FileSystemLocalHandle : Type 0 where
  pub addr : ℕ
  pub fs : List (ℕ × ℕ)

pub record FileSystem : Type 0 where
  pub inodes : List INode
  pub handles : List (ℕ × FileSystemLocalHandle)

pub data IoError : Type 0 where
  not_found permission_denied : IoError

-- `FileSystemLocalHandle::new`
abbrev pub new_local_handle : ℕ → FileSystemLocalHandle
new_local_handle addr = record { addr = addr; fs = [] }

-- `FileSystemHandle::local_handle`: the host's files, which are made where there are none
unfoldable pub local_handle : ℕ → FileSystem → FileSystemLocalHandle × FileSystem
local_handle addr s = elim (map_get addr s.handles) [
  | some h ↦ (h, s)
  | none ↦ (
    new_local_handle addr,
    record s { handles = map_insert addr (new_local_handle addr) s.handles },
  )
]

-- `FileSystemLocalHandle::open` on the host at an address
unfoldable pub open_file : ℕ → ℕ → FileSystem → Result IoError File
unfolding local_handle
open_file addr path s = elim (map_get path (local_handle addr s).0.fs) [
  | none ↦ err not_found
  | some inode ↦ ok (record { inode = inode; can_write = false })
]

-- the entry of a path in a host's files
put_path : ℕ → ℕ → ℕ → FileSystemLocalHandle → FileSystem → FileSystem
put_path addr path inode h s = record s {
  inodes = s.inodes ++ record { path = path; contents = [] } ∷ [];
  handles = map_insert addr (record h { fs = map_insert path inode h.fs }) s.handles;
}

-- `FileSystemLocalHandle::create` on the host at an address
unfoldable pub create : ℕ → ℕ → FileSystem → File × FileSystem
unfolding put_path local_handle
create addr path s =
    let (h, s₁) = local_handle addr s in
    elim (map_get path h.fs) [
      | some inode ↦ (record { inode = inode; can_write = true }, s₁)
      | none ↦
          let inode = length s₁.inodes in
          (record { inode = inode; can_write = true }, put_path addr path inode h s₁)
    ]

unfoldable pub min : ℕ → ℕ → ℕ
min a b = if leb a b then a else b

-- `read_at` of a number of bytes: those that it copies
unfoldable pub read_bytes : List ℕ → ℕ → ℕ → Result IoError (List ℕ)
unfolding min
read_bytes contents count offset =
    let end = min (length contents) (offset + count) in
    if ltb end offset then panic else ok (take (end - offset) (drop offset contents))

-- `write_all_at` on the data
unfoldable pub write_bytes : List ℕ → List ℕ → ℕ → Result IoError (List ℕ)
unfolding min
write_bytes contents buf offset =
    let end = min (length contents) (offset + length buf) in
    let len = end - offset in
    let copied = take offset contents ++ take len buf ++ drop end contents in
    if ltb end offset
    then panic
    else if ltb len (length buf)
    then ok (copied ++ drop len buf)
    else ok copied

-- `set_len` on the data
unfoldable pub resize : ℕ → List ℕ → List ℕ
resize size contents = take size contents ++ replicate (size - length contents) 0

-- The data of a file; a file's inode is in the store.
unfoldable pub data_of : File → FileSystem → Result IoError (List ℕ)
data_of f s = elim (get_elem? s.inodes f.inode) [ none ↦ panic | some node ↦ ok node.contents ]

unfoldable pub put_data : File → List ℕ → FileSystem → FileSystem
put_data f contents s = elim (get_elem? s.inodes f.inode) [
  | none ↦ s
  | some node ↦ record s { inodes = set s.inodes f.inode (record node { contents = contents }) }
]

unfoldable pub read_at : File → ℕ → ℕ → FileSystem → Result IoError (List ℕ)
unfolding data_of read_bytes
read_at f count offset s = do contents ← data_of f s; read_bytes contents count offset

unfoldable pub write_all_at : File → List ℕ → ℕ → FileSystem → Result IoError FileSystem
unfolding data_of write_bytes put_data
write_all_at f buf offset s =
    if f.can_write
    then (do
      contents ← data_of f s
      written ← write_bytes contents buf offset
      ok (put_data f written s))
    else err permission_denied

unfoldable pub set_len : File → ℕ → FileSystem → Result IoError FileSystem
unfolding data_of put_data
set_len f size s = do contents ← data_of f s; ok (put_data f (resize size contents) s)
