-- ===== src/Cpio/Reader/Tests.antt =====
-- An archive of one file, "a" with the contents "hi", and paths.
use fsforge.Common.{
  ℕ, zero, suc, ◌<◌, ◌≤◌, ◌≡◌, refl, sym, ap, ◌∙◌, Bool, true, false, leb, Option, none, some, List,
  [], ◌∷◌, ◌++◌, length, replicate, Bytes, All, arith,
}
use fsforge.Device.{Mem, mem_device, mem_read_at, mem_size}
use fsforge.Modes.{plain}
use fsforge.Image.{new_node, Entry, Node, Store, node_at, find}
use fsforge.Image.Lookups.{IsPlain}
use fsforge.Cpio.Header.{Hdr, marshal}
use fsforge.Cpio.Reader.{
  Result, ok, fail, bad_magic, invalid_name, Reading, read_archive, split_path, split_slash,
  kept_parts, dir_node, trailer_name,
}
use fsforge.Cpio.Reader.Names.{read_archive-IsPlain}
use fsforge.Cpio.Reader.Ends.{is_stuck, mem_device-IsBounded, read_archive-ends}

-- "./a//b"
parts : split_path (46 ∷ 47 ∷ 97 ∷ 47 ∷ 47 ∷ 98 ∷ []) ≡ (97 ∷ []) ∷ (98 ∷ []) ∷ []
unfolding split_path split_slash kept_parts fsforge.Common.same_bytes
parts = refl

abbrev file_header : Hdr
file_header = record {
  ino = 1;
  mode = 33188;
  uid = 0;
  gid = 0;
  nlink = 1;
  mtime = 7;
  filesize = 2;
  devmajor = 0;
  devminor = 0;
  rdevmajor = 0;
  rdevminor = 0;
  namesize = 2;
}

abbrev end_header : Hdr
end_header = record file_header { ino = 0; mode = 0; filesize = 0; mtime = 0; namesize = 11 }

abbrev archive : Mem
archive = record {
  buffer =
      marshal file_header
      ++ 97 ∷ 0 ∷ 104 ∷ 105 ∷ 0 ∷ 0 ∷ marshal end_header
      ++ trailer_name
      ++ 0 ∷ [];
}

abbrev tree_of_archive : Result Reading
tree_of_archive = read_archive mem_device archive

-- The root and the file in it.
abbrev got : Reading
got = record {
  tree =
      record dir_node { children = record { name = 97 ∷ []; node = 1 } ∷ [] }
      ∷ record (new_node
          (record {
            mode = record plain { perm = 420 };
            uid = 0;
            gid = 0;
            mod_time = some 7;
            xattrs = [];
          })
          1) { content = some (104 ∷ 105 ∷ []) }
      ∷ [];
  ino_map = [];
}

read_it : tree_of_archive ≡ ok got
unfolding read_archive fsforge.Cpio.Reader.read_from fsforge.Cpio.Reader.buffer
    fsforge.Device.filled fsforge.Cpio.Reader.add_entry fsforge.Cpio.Reader.link
    fsforge.Cpio.Reader.link_leaf fsforge.Cpio.Reader.descend fsforge.Cpio.Reader.all_valid
    fsforge.Cpio.Reader.last_apart fsforge.Cpio.Reader.trim_nul split_path split_slash kept_parts
    fsforge.Cpio.Header.marshal fsforge.Cpio.Header.parse_header fsforge.Cpio.Header.n_align
    fsforge.Cpio.Header.align4 fsforge.Cpio.Header.append_all fsforge.Cpio.Header.append_hex8
    fsforge.Cpio.Header.format_uint fsforge.Cpio.Header.hex_digit fsforge.Cpio.Header.parse_fields
    fsforge.Cpio.Header.parse_uint fsforge.Cpio.Header.digit_value fsforge.Cpio.Mode.mode_from_unix
    mem_read_at mem_size fsforge.Image.find fsforge.Image.valid_name fsforge.Image.contains
    fsforge.Image.add_child fsforge.Image.add fsforge.Common.same_bytes fsforge.Common.overwrite
read_it = refl

read_archive-IsPlain_example :
    All (λ (e : Entry). IsPlain e.name × (e.node < 2)) (record { name = 97 ∷ []; node = 1 } ∷ [])
read_archive-IsPlain_example = read_archive-IsPlain mem_device archive got read_it 0 (omega arith)

read_archive-ends_example : is_stuck (read_archive mem_device archive) ≡ false
read_archive-ends_example = read_archive-ends mem_device archive (mem_device-IsBounded archive)

-- A path that climbs out of the tree is refused, wherever its ".." stands.
abbrev climbing : Mem
climbing = record {
  buffer = marshal (record file_header { namesize = 5 }) ++ 46 ∷ 46 ∷ 47 ∷ 97 ∷ 0 ∷ [];
}

climbs : read_archive mem_device climbing ≡ fail invalid_name
unfolding read_archive fsforge.Cpio.Reader.read_from fsforge.Cpio.Reader.buffer
    fsforge.Device.filled fsforge.Cpio.Reader.add_entry fsforge.Cpio.Reader.link
    fsforge.Cpio.Reader.link_leaf fsforge.Cpio.Reader.descend fsforge.Cpio.Reader.all_valid
    fsforge.Cpio.Reader.last_apart fsforge.Cpio.Reader.trim_nul split_path split_slash kept_parts
    fsforge.Cpio.Header.marshal fsforge.Cpio.Header.parse_header fsforge.Cpio.Header.n_align
    fsforge.Cpio.Header.align4 fsforge.Cpio.Header.append_all fsforge.Cpio.Header.append_hex8
    fsforge.Cpio.Header.format_uint fsforge.Cpio.Header.hex_digit fsforge.Cpio.Header.parse_fields
    fsforge.Cpio.Header.parse_uint fsforge.Cpio.Header.digit_value fsforge.Cpio.Mode.mode_from_unix
    mem_read_at mem_size fsforge.Image.find fsforge.Image.valid_name fsforge.Image.contains
    fsforge.Image.add_child fsforge.Image.add fsforge.Common.same_bytes fsforge.Common.overwrite
climbs = refl
