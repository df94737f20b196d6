-- ===== src/Fat/Table/Tests.antt =====
-- A FAT12 volume of ten clusters: two files of 700 and of 3 bytes, and their table.
use fsforge.Common.{ℕ, false, ◌*◌, none, length-replicate, ◌≡◌, refl, Option, some, [], ◌∷◌, arith}
use fsforge.Fat.Geometry.{Geometry, eoc, cluster_size_bytes}
use fsforge.Fat.Table.{
  Layouter, err, out_of_clusters, FileContent, bytes_of, start, alloc_chain, link_chain,
  layout_file,
}
use fsforge.Fat.Table.Chains.{ChainPost, start-IsTable, alloc_chain-ChainPost, follow}
use fsforge.Fat.Table.Content.{FilePost, layout_file-FilePost}
use fsforge.Device.{Mem, mem_device, new_mem}
use fsforge.Fat.Packed.{saved, write_fats}
use fsforge.Fat.Packed.Written.{AreCopies, write_fats-AreCopies}

abbrev small_volume : Geometry
small_volume = record {
  fat_bits = 12;
  total_sectors = 44;
  reserved_secs = 1;
  sec_per_clus = 1;
  fat_size_sectors = 1;
  root_ent_count = 512;
  root_dir_sectors = 32;
  clusters = 10;
  data_start_sec = 35;
}

abbrev fresh : Layouter
fresh = start small_volume

alloc_chain-ChainPost_example : ChainPost 3 fresh (alloc_chain 3 fresh)
unfolding eoc start
alloc_chain-ChainPost_example =
    alloc_chain-ChainPost 3 fresh (start-IsTable small_volume (omega arith)) (omega arith)
      (omega arith)

abbrev a_file : Option FileContent
a_file = some (record { bytes = 1 ∷ 2 ∷ 3 ∷ []; fails = false })

layout_file-FilePost_example : FilePost (bytes_of a_file) false fresh (layout_file a_file fresh)
unfolding eoc start cluster_size_bytes
layout_file-FilePost_example =
    layout_file-FilePost a_file fresh (start-IsTable small_volume (omega arith)) (omega arith)
      (omega arith) (omega arith)

-- Three clusters from cluster 2 on, then no room for eight.
abbrev three_taken : Layouter
three_taken = (alloc_chain 3 fresh).1

table_of_three : three_taken.fat ≡ 0xff8 ∷ 0xfff ∷ 3 ∷ 4 ∷ 0xfff ∷ 0 ∷ 0 ∷ 0 ∷ 0 ∷ 0 ∷ 0 ∷ 0 ∷ []
unfolding alloc_chain start link_chain eoc
table_of_three = refl

chain_of_three : follow 5 0xfff three_taken.fat 2 ≡ 2 ∷ 3 ∷ 4 ∷ []
unfolding alloc_chain start link_chain eoc follow
chain_of_three = refl

no_room : (alloc_chain 8 three_taken).0 ≡ err out_of_clusters
unfolding alloc_chain start link_chain eoc
no_room = refl

abbrev disk : Mem
disk = new_mem (44 * 512)

write_fats-AreCopies_example :
    (m' : Mem) × (write_fats mem_device three_taken disk ≡ saved m' none)
    × AreCopies three_taken disk m'
unfolding alloc_chain start link_chain eoc new_mem
write_fats-AreCopies_example =
    write_fats-AreCopies three_taken disk (omega arith)
      (omega (arith, length-replicate {A = ℕ} 22528 0))
      (omega (arith, length-replicate {A = ℕ} 22528 0))
