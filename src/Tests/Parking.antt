-- ===== src/Tests/Parking.antt =====
-- Three spots, two residents' cars and one other.
use liviq.Base.{
  ℕ, ◌+◌, ◌≡◌, ◌⊎◌, true, false, none, some, List, [], ◌∷◌, ◌++◌, filter, length, Text, codes,
}
use mathlib.Core.List.{Perm}
use liviq.Base.Sort.{IsSorted}
use liviq.Parking.{
  Spot, Core, VehicleRef, Occupancy, assign_occupancy, pick_nearest, nearest_free, key_less,
  pick_key, is_free, resident_candidate, kind_ev, kind_normal, kind_disabled,
}
use liviq.Parking.Once.{IsAssignment}
use liviq.Parking.Assign.{assign_occupancy-IsAssignment}
use liviq.Parking.Pick.{IsNearest, pick_nearest-IsNearest, nearest_free-IsSorted}
use liviq.Tests.World.{thousandths}
use liviq.Tests.Confidence.{thousandths-FloatLaws}

abbrev taxicab : ℕ → ℕ → ℕ
taxicab a b = a + b

abbrev spot : Text → Text → ℕ → Spot ℕ
spot number kind x = record { no = number; kind = kind; x = x; y = 0 }

abbrev spots : List (Spot ℕ)
spots =
    spot (codes "1") kind_disabled 1000
    ∷ spot (codes "2") kind_ev 2000
    ∷ spot (codes "3") kind_normal 3000
    ∷ spot (codes "4") kind_normal 4000
    ∷ []

abbrev cores : List (Core ℕ)
cores = record { name = codes "401"; x = 0; y = 0; w = 0; h = 0 } ∷ []

abbrev vehicles : List VehicleRef
vehicles =
    record { vehicle_id = codes "b"; dong = codes "401"; is_ev = false }
    ∷ record { vehicle_id = codes "a"; dong = codes "401"; is_ev = true }
    ∷ []

assign_occupancy-IsAssignment_example :
    (os : List (Occupancy ℕ)) × (assign_occupancy thousandths taxicab spots cores vehicles 1
      ≡ some os)
    × IsAssignment spots vehicles os
assign_occupancy-IsAssignment_example =
    assign_occupancy-IsAssignment thousandths taxicab spots cores vehicles 1

pick_nearest-IsNearest_example :
    IsNearest thousandths taxicab thousandths-FloatLaws none
      (λ s. resident_candidate [] false s)
      spots
      (pick_nearest thousandths taxicab spots none (λ s. resident_candidate [] false s))
pick_nearest-IsNearest_example =
    pick_nearest-IsNearest thousandths taxicab thousandths-FloatLaws none
      (λ s. resident_candidate [] false s) spots

nearest_free-IsSorted_example :
    (rest : List (Spot ℕ)) × Perm
      (nearest_free thousandths taxicab spots (0, 0) [] true 2 ++ rest)
      (filter (λ s. is_free [] true s) spots)
    × IsSorted
        (λ s t.
          key_less thousandths taxicab
            (pick_key thousandths taxicab (some (0, 0)) s)
            (pick_key thousandths taxicab (some (0, 0)) t))
        (nearest_free thousandths taxicab spots (0, 0) [] true 2 ++ rest)
    × ((length (nearest_free thousandths taxicab spots (0, 0) [] true 2) ≡ 2) ⊎ (rest ≡ []))
nearest_free-IsSorted_example =
    nearest_free-IsSorted thousandths taxicab thousandths-FloatLaws spots (0, 0) [] true 2
