-- ===== src/Checks/Storages.antt =====
-- The theorems on the storage device behind the sender, at concrete inputs.
use usb_lib.Prelude.{◌≡◌, refl, List, [], ◌∷◌, ◌++◌, some, arith}
use usb_lib.Words.{Bytes}
use usb_lib.Storage.FindEndpoints.{no_endpoints, find_endpoints}
use usb_lib.Storage.Descriptors.{survey, flat, find_endpoints-survey}

-- The head of a configuration, a storage interface and its two bulk endpoints, then two stray bytes.
abbrev descriptors : List Bytes
descriptors =
    (9 ∷ 2 ∷ 32 ∷ 0 ∷ 1 ∷ 1 ∷ 0 ∷ 128 ∷ 50 ∷ [])
    ∷ (9 ∷ 4 ∷ 0 ∷ 0 ∷ 2 ∷ 8 ∷ 6 ∷ 80 ∷ 0 ∷ [])
    ∷ (7 ∷ 5 ∷ 129 ∷ 2 ∷ 0 ∷ 2 ∷ 0 ∷ [])
    ∷ (7 ∷ 5 ∷ 2 ∷ 2 ∷ 0 ∷ 2 ∷ 0 ∷ [])
    ∷ []

find_endpoints-survey_example :
    find_endpoints (flat descriptors ++ (0 ∷ 5 ∷ [])) no_endpoints
    ≡ some (survey descriptors no_endpoints)
find_endpoints-survey_example =
    find_endpoints-survey descriptors (0 ∷ 5 ∷ []) no_endpoints
      ((omega arith, refl), ((omega arith, refl), ((omega arith, refl), ((omega arith, refl), tt))))
      refl
