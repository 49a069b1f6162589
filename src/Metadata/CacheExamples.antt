-- ===== src/Metadata/CacheExamples.antt =====
-- Three blocks of one datanode, two of which are next to one another.
use kt.Base.{ℕ, ◌-◌, ◌^◌, ◌≡◌, refl, some, List, [], ◌∷◌, arith, length}
use kt.Metadata.Triple.{compose_triple, decompose_triple}
use kt.Metadata.Merge.{PhyLoc, create_triplets, merge_triplets, split_loc}
use kt.Metadata.RoundTrip.{split_loc-merge_triplets}

abbrev places : List PhyLoc
places =
    record { rbid = 7; offset = 40 }
    ∷ record { rbid = 7; offset = 41 }
    ∷ record { rbid = 9; offset = 42 }
    ∷ []

split_loc-merge_triplets_example :
    split_loc 1 0 (merge_triplets 3 (create_triplets places)) ≡ record { rbid = 7; offset = 41 }
split_loc-merge_triplets_example =
    split_loc-merge_triplets places 1 (record { rbid = 7; offset = 41 })
      ((omega arith, omega arith), ((omega arith, omega arith), ((omega arith, omega arith), tt)))
      (omega arith) refl

merge_test : length (merge_triplets 3 (create_triplets places)) ≡ 2
unfolding merge_triplets create_triplets compose_triple decompose_triple kt.Base.BitOr.bit_or
merge_test = refl

-- A length of 2048 comes back as -2048.
long_test : decompose_triple (compose_triple 1 2048 5) ≡ (1, 2 ^ 32 - 2048, 5)
unfolding compose_triple decompose_triple kt.Base.BitOr.bit_or
long_test = refl
