-- ===== src/Partition/Gpt/Tests.antt =====
-- Runs of `FormatGPT`.
use fsforge.Common.{ℕ, ◌*◌, ◌≡◌, refl, [], ◌∷◌}
use fsforge.Partition.{ok, err, disk_too_small, fill_not_last}
use fsforge.Partition.Gpt.{Spec, plan_gpt, assign_gpt}

abbrev boot : Spec
boot = record { type_guid = []; name = []; size = 600 }

abbrev rest : Spec
rest = record { type_guid = []; name = []; size = 0 }

-- A disk of 8192 sectors.
abbrev disk : ℕ
disk = 8192 * 512

plans :
    (plan_gpt disk (boot ∷ rest ∷ [])
      ≡ ok (
          record { spec = boot; start_lba = 2048; end_lba = 2049 }
          ∷ record { spec = rest; start_lba = 4096; end_lba = 8158 }
          ∷ []))
    × (plan_gpt disk (rest ∷ boot ∷ []) ≡ err fill_not_last)
    × (plan_gpt disk (boot ∷ boot ∷ boot ∷ rest ∷ []) ≡ err disk_too_small)
unfolding plan_gpt assign_gpt
plans = (refl, refl, refl)
