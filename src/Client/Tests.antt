-- ===== src/Client/Tests.antt =====
-- Runs of `write_all`.
use vynkor_sdk_cpp.Base.{◌≡◌, ◌↔◌, [], ◌∷◌, ◌++◌}
use vynkor_sdk_cpp.Mac.{Bytes}
use vynkor_sdk_cpp.Client.Write.{interrupted, took, done, write_all, write_all_prefix}

write_all_prefix_example :
    (rest : Bytes) × ((write_all (took 1 ∷ interrupted ∷ took 0 ∷ []) (7 ∷ 8 ∷ 9 ∷ [])).0 ++ rest
      ≡ 7 ∷ 8 ∷ 9 ∷ [])
    × (((write_all (took 1 ∷ interrupted ∷ took 0 ∷ []) (7 ∷ 8 ∷ 9 ∷ [])).1 ≡ done) ↔ (rest ≡ []))
write_all_prefix_example = write_all_prefix (took 1 ∷ interrupted ∷ took 0 ∷ []) (7 ∷ 8 ∷ 9 ∷ [])
