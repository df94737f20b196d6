-- ===== src/Romfs/Reader/Tests.antt =====
-- An image with the empty file "a" in its root, and the same one with a hard link to itself in its place.
use fsforge.Common.{
  ℕ, ◌<◌, ◌≡◌, refl, Bool, true, false, none, some, List, [], ◌∷◌, length, replicate, Bytes, All,
  arith, be, raw, put_fields,
}
use fsforge.Device.{Device, Mem, mem_device, mem_read_at}
use fsforge.Image.{Entry, Node, Store, new_node}
use fsforge.Image.Lookups.{IsPlain}
use fsforge.Romfs.Header.{magic_w0, magic_w1}
use fsforge.Romfs.Reader.{Result, ok, fail, stuck, Rhdr, root_node, read_image, read_dir, meta_of}
use fsforge.Romfs.Reader.Names.{read_image-IsPlain}
use fsforge.Romfs.Reader.Loops.{read_dir_loops}

abbrev image_with : ℕ → ℕ → Mem
image_with next spec = record {
  buffer =
      put_fields
        (be 0 4 magic_w0
          ∷ be 4 4 magic_w1
          ∷ be 32 4 9
          ∷ be 36 4 64
          ∷ be 64 4 next
          ∷ be 68 4 spec
          ∷ raw 80 1 (97 ∷ [])
          ∷ [])
        (replicate 96 0);
}

abbrev one_file : Mem
one_file = image_with 2 0

abbrev self_link : Mem
self_link = image_with 0 64

abbrev got : Store
got =
    record (root_node mem_device one_file) { children = record { name = 97 ∷ []; node = 1 } ∷ [] }
    ∷ record (new_node (meta_of 2 false) 1) { content = some [] }
    ∷ []

read_it : read_image mem_device one_file 3 ≡ ok got
unfolding read_image read_dir fsforge.Romfs.Reader.buffer fsforge.Romfs.Reader.header
    fsforge.Romfs.Reader.name_at fsforge.Romfs.Reader.resolve fsforge.Romfs.Reader.until_nul
    fsforge.Romfs.Reader.is_dots fsforge.Romfs.Reader.mem fsforge.Romfs.Header.masked
    fsforge.Romfs.Header.align_up fsforge.Romfs.Header.mode_of fsforge.Device.filled mem_read_at
    fsforge.Image.valid_name fsforge.Image.contains fsforge.Image.add_child fsforge.Image.add
    fsforge.Common.same_bytes fsforge.Common.overwrite put_fields fsforge.Common.put_field
    fsforge.Common.field_off fsforge.Common.field_width fsforge.Common.field_bytes
    fsforge.Common.be_bytes fsforge.Common.be_from
read_it = refl

read_image-IsPlain_example :
    All (λ (e : Entry). IsPlain e.name × (e.node < 2)) (record { name = 97 ∷ []; node = 1 } ∷ [])
unfolding read_image read_dir fsforge.Romfs.Reader.buffer fsforge.Romfs.Reader.header
    fsforge.Romfs.Reader.name_at fsforge.Romfs.Reader.resolve fsforge.Romfs.Reader.until_nul
    fsforge.Romfs.Reader.is_dots fsforge.Romfs.Reader.mem fsforge.Romfs.Header.masked
    fsforge.Romfs.Header.align_up fsforge.Romfs.Header.mode_of fsforge.Device.filled mem_read_at
    fsforge.Image.valid_name fsforge.Image.contains fsforge.Image.add_child fsforge.Image.add
    fsforge.Common.same_bytes fsforge.Common.overwrite put_fields fsforge.Common.put_field
    fsforge.Common.field_off fsforge.Common.field_width fsforge.Common.field_bytes
    fsforge.Common.be_bytes fsforge.Common.be_from
read_image-IsPlain_example = read_image-IsPlain mem_device one_file 3 got read_it 0 (omega arith)

abbrev own_header : Rhdr
own_header = record { next = 0; spec = 64; size = 0; off = 64; dtype = 0; exec = false }

read_dir_loops_example : read_dir mem_device self_link 50 got 0 64 [] ≡ fail stuck
unfolding read_image read_dir fsforge.Romfs.Reader.buffer fsforge.Romfs.Reader.header
    fsforge.Romfs.Reader.name_at fsforge.Romfs.Reader.resolve fsforge.Romfs.Reader.until_nul
    fsforge.Romfs.Reader.is_dots fsforge.Romfs.Reader.mem fsforge.Romfs.Header.masked
    fsforge.Romfs.Header.align_up fsforge.Romfs.Header.mode_of fsforge.Device.filled mem_read_at
    fsforge.Image.valid_name fsforge.Image.contains fsforge.Image.add_child fsforge.Image.add
    fsforge.Common.same_bytes fsforge.Common.overwrite put_fields fsforge.Common.put_field
    fsforge.Common.field_off fsforge.Common.field_width fsforge.Common.field_bytes
    fsforge.Common.be_bytes fsforge.Common.be_from
read_dir_loops_example =
    read_dir_loops mem_device self_link own_header (97 ∷ []) 64 (λ k. ground arith) refl refl refl
      refl refl 50 got 0
