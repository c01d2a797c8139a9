-- ===== src/Bytes/Tests.antt =====
-- Texts at fixed inputs.
use srslog.Base.{◌≡◌, refl}
use srslog.Base.Int.{pos, negsuc, ◌-ℤ◌}
use srslog.Bytes.{codes, atoi}

atoi_sign : atoi (codes " -120x") ≡ negsuc 119
unfolding atoi ◌-ℤ◌
atoi_sign = refl

atoi_word : atoi (codes "many") ≡ pos 0
unfolding atoi
atoi_word = refl
