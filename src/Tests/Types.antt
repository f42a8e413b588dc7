-- ===== src/Tests/Types.antt =====
-- OfflineUUID where the sum is all ones.
use gophermc.Base.{◌≡◌, refl, ◌++◌, ◌∷◌, replicate}
use gophermc.Types.{codes, copy_16, offline_uuid}
use gophermc.Types.Uuid.{IsNamed, offline_uuid-IsNamed}
use gophermc.Wire.Stream.{Bytes}

abbrev all_ones : Bytes → Bytes
all_ones bs = replicate 20 0xff

marked :
    offline_uuid all_ones (codes "Steve")
    ≡ replicate 6 0xff ++ 0x3f ∷ 0xff ∷ 0xbf ∷ replicate 7 0xff
unfolding offline_uuid
marked = refl

offline_uuid-IsNamed_example :
    IsNamed
      (copy_16 (all_ones (codes "OfflinePlayer:" ++ codes "Steve")))
      (offline_uuid all_ones (codes "Steve"))
offline_uuid-IsNamed_example = offline_uuid-IsNamed all_ones (codes "Steve")
