-- ===== src/Cpio/Mode/RoundTrip/Tests.antt =====
-- Modes at concrete values.
use fsforge.Common.{ℕ, ◌≡◌, refl, true, false}
use fsforge.Cpio.Mode.{mode_to_unix, type_of}
use fsforge.Cpio.Mode.RoundTrip.{regular, mode_of}

-- 0o755, and 0o100755 with the setuid bit.
abbrev perm : ℕ
perm = 493

setuid_file : mode_to_unix (mode_of regular perm true false false) ≡ 35309
unfolding mode_to_unix type_of
setuid_file = refl
