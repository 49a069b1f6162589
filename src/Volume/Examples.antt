-- ===== src/Volume/Examples.antt =====
-- A map of two bytes.
use kt.Base.{ℕ, ◌+◌, ◌≡◌, refl, true, ◌&&◌, some, List, [], ◌∷◌, arith, ltb, leb, if◌then◌else◌}
use kt.Volume.Ovw.{VolumeOvw, IsReady, ovw_get, set_vol_ovw_range, set_vol_ovw_range_lem}

abbrev two_bytes : List ℕ
two_bytes = 1 ∷ 128 ∷ []

abbrev ready_map : VolumeOvw
ready_map = record { ovw_memory = some two_bytes; ovw_init = true }

ready_map-IsReady : IsReady 2 ready_map two_bytes
ready_map-IsReady = record { inited = refl; there = refl; size = refl; bytes = omega arith }

set_vol_ovw_range_lem_example :
    (v : VolumeOvw) × (mem : List ℕ) × (set_vol_ovw_range ready_map 6 4 true ≡ some (v, true))
    × IsReady 2 v mem
    × ((b : ℕ)
        → ovw_get v b ≡ (if leb 6 b && ltb b (6 + 4) then some true else ovw_get ready_map b))
set_vol_ovw_range_lem_example =
    set_vol_ovw_range_lem 2 ready_map two_bytes 6 4 true ready_map-IsReady (omega arith)
      (omega arith)
