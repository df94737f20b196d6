-- ===== src/Device/Tests.antt =====
-- Runs of the devices, and their theorems at concrete inputs.
use fsforge.Common.{◌≡◌, refl, arith, some, none, [], ◌∷◌, overwrite}
use fsforge.Device.{
  at, negative, read, wrote, eof, short_write, negative_offset, out_of_range, Mem, mem_read_at,
  mem_write_at, mem_discard, mem_device, Section, section_read_at, section_write_at,
}
use fsforge.Device.Windows.{window, WindowPost, section_write_at-WindowPost}

abbrev eight : Mem
eight = record { buffer = 0 ∷ 1 ∷ 2 ∷ 3 ∷ 4 ∷ 5 ∷ 6 ∷ 7 ∷ [] }

abbrev middle : Section
middle = record { off = 2; size = 4 }

requests :
    (mem_read_at eight 3 (at 6) ≡ read (6 ∷ 7 ∷ []) (some eof))
    × (mem_read_at eight 3 negative ≡ read [] (some negative_offset))
    × (mem_write_at eight (9 ∷ 9 ∷ []) (at 7) ≡ wrote eight 0 (some short_write))
    × (mem_discard eight (at 1) 7
        ≡ wrote (record { buffer = 0 ∷ 0 ∷ 0 ∷ 0 ∷ 0 ∷ 0 ∷ 0 ∷ 0 ∷ [] }) 0 none)
    × (section_read_at mem_device middle eight 9 (at 1) ≡ read (3 ∷ 4 ∷ 5 ∷ []) none)
    × (section_write_at mem_device middle eight (9 ∷ 9 ∷ []) (at 3)
        ≡ wrote eight 0 (some out_of_range))
unfolding mem_read_at mem_write_at mem_discard section_read_at section_write_at overwrite
requests = (refl, refl, refl, refl, refl, refl)

section_write_at-WindowPost_example :
    WindowPost middle eight
      (section_write_at mem_device middle eight (9 ∷ []) (at 3))
      (mem_write_at (window middle eight) (9 ∷ []) (at 3))
section_write_at-WindowPost_example =
    section_write_at-WindowPost middle eight (9 ∷ []) 3 (omega arith) (omega arith)
