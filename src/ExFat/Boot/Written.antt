-- ===== src/ExFat/Boot/Written.antt =====
-- What the layouter of pkg/exfat leaves of the boot region on an in-memory device.
use mathlib.Core.Path.{subst}
use fsforge.Common.{
  ℕ, ◌≤◌, ◌<◌, ◌≡◌, ap, ◌∙◌, none, inl, length, slice, drop, Bytes, overwrite, le_bytes,
  length-overwrite, slice-overwrite_self, slice-overwrite_apart, drop-overwrite_behind, arith,
}
use fsforge.Device.{Mem, mem_device, wrote, Device, i63, at}
use fsforge.Device.Memory.{mem_write_at-inside}
use fsforge.ExFat.Geometry.{Geometry}
use fsforge.ExFat.Boot.{boot_region, after_main, write_boot}
use fsforge.ExFat.Boot.Valid.{IsValid, boot_region-IsValid, boot_region-StaysValid}

-- The second write, when the first one works.
then_backup :
    {D : Type 0} (d : Device D) (x y : D) (n : ℕ) (region : Bytes)
    → d.write_at x region (at 0) ≡ wrote y n none
    → write_boot d x region ≡ d.write_at y region (at 6144)
unfolding write_boot
then_backup d x y n region h = ap (after_main d region) h

-- The main region and its backup, after the write.
pub record Copies (region : Bytes) (m m' : Mem) : Type 0 where
  pub same_size : length m'.buffer ≡ length m.buffer
  pub main : slice 0 6144 m'.buffer ≡ region
  pub backup : slice 6144 6144 m'.buffer ≡ region
  pub behind : drop 12288 m'.buffer ≡ drop 12288 m.buffer

twice :
    (region : Bytes) (m : Mem)
    → length region ≡ 6144
    → 12288 ≤ length m.buffer
    → Copies region m (record { buffer = overwrite 6144 region (overwrite 0 region m.buffer) })
twice region m wide room =
    let len = length-overwrite 0 region m.buffer in
    let b = overwrite 0 region m.buffer in
    record {
      same_size = length-overwrite 6144 region b ∙ len;
      main =
          slice-overwrite_apart 0 6144 6144 region b (inl (omega arith))
          ∙ subst (λ k. slice 0 k b ≡ region) wide
              (slice-overwrite_self 0 region m.buffer (omega arith));
      backup =
          subst (λ k. slice 6144 k (overwrite 6144 region b) ≡ region) wide
            (slice-overwrite_self 6144 region b (omega arith));
      behind =
          drop-overwrite_behind 12288 6144 region b (omega arith)
          ∙ drop-overwrite_behind 12288 0 region m.buffer (omega arith);
    }

-- On an in-memory device of at least 24 sectors and below 2^63 bytes, writeBoot succeeds. It leaves the
-- region twice, in the first 12 sectors and in the next 12, and nothing else changes. The region's last
-- sector holds 128 times the sum of the sectors before, and this stays so whatever the volume's
-- flags and the percentage in use are later set to.
pub write_boot-Copies :
    (g : Geometry) (root_first serial used : ℕ) (m : Mem)
    → 12288 ≤ length m.buffer
    → length m.buffer < i63
    → (m' : Mem) × (write_boot mem_device m (boot_region g root_first serial used)
        ≡ wrote m' 6144 none)
      × Copies (boot_region g root_first serial used) m m'
      × IsValid (boot_region g root_first serial used)
      × ((flags percent : ℕ)
          → IsValid (
              overwrite 112
                (le_bytes 1 percent)
                (overwrite 106 (le_bytes 2 flags) (boot_region g root_first serial used))))
write_boot-Copies g root_first serial used m room small =
    let region = boot_region g root_first serial used in
    let v = boot_region-IsValid g root_first serial used in
    let wide = v.sized in
    let len = length-overwrite 0 region m.buffer in
    let first : Mem = record { buffer = overwrite 0 region m.buffer } in
    (
      record { buffer = overwrite 6144 region (overwrite 0 region m.buffer) },
      then_backup mem_device m first (length region) region
            (mem_write_at-inside m region 0 (omega arith) small)
          ∙ mem_write_at-inside first region 6144 (omega arith) (omega arith)
          ∙ ap
              (λ (k : ℕ).
                wrote (record first { buffer = overwrite 6144 region first.buffer }) k none)
              wide,
      twice region m wide room,
      v,
      boot_region-StaysValid g root_first serial used,
    )
