-- ===== src/Parking.antt =====
-- packages/ai-core/src/ai_core/parking/geometry.py: which car stands on which spot, and the free
-- spots near a core. Floats and `hypot` are parameters, on a range without NaN.
pub mod Order
pub mod Pick
pub mod Plates
pub mod Once
pub mod Assign
use liviq.Base.{
  ℕ, zero, suc, ◌+◌, ◌*◌, ◌%◌, Bool, true, false, ◌&&◌, ◌||◌, not, Option, none, some, List, [],
  ◌∷◌, ◌++◌, map, if◌then◌else◌, ◌==◌, ltb, filter, length, get_elem?, take, Text, codes, text_eq,
  mem_text,
}
use liviq.Base.Decimal.{dec}
use liviq.Base.Sort.{sorted}
use liviq.Base.Float.{Float}

pub record Spot (F : Type 0) : Type 0 where
  pub no : Text
  pub kind : Text
  pub x : F
  pub y : F

pub record Core (F : Type 0) : Type 0 where
  pub name : Text
  pub x : F
  pub y : F
  pub w : F
  pub h : F

pub record VehicleRef : Type 0 where
  pub vehicle_id : Text
  pub dong : Text
  pub is_ev : Bool

pub record Occupancy (F : Type 0) : Type 0 where
  pub spot_no : Text
  pub is_external : Bool
  pub vehicle_id : Option Text
  pub external_plate : Option Text
  pub parked_hours : F

pub record NearestSpot : Type 0 where
  pub no : Text
  pub kind : Text
  pub distance_m : ℕ

abbrev pub kind_disabled : Text
kind_disabled = codes "장애인"

abbrev pub kind_ev : Text
kind_ev = codes "전기차"

abbrev pub kind_normal : Text
kind_normal = codes "일반"

-- `s < t` of two texts
unfoldable pub text_lt : Text → Text → Bool
text_lt [] [] = false
text_lt [] (b ∷ t) = true
text_lt (a ∷ s) [] = false
text_lt (a ∷ s) (b ∷ t) =
    let rest = text_lt s t in if ltb a b then true else if ltb b a then false else rest

module _ {F : Type 0} where
  -- `_resident_candidate`
  unfoldable pub resident_candidate : List Text → Bool → Spot F → Bool
  resident_candidate taken is_ev s =
      if mem_text s.no taken || text_eq s.kind kind_disabled
      then false
      else not (text_eq s.kind kind_ev) || is_ev

  -- `_external_candidate`
  unfoldable pub external_candidate : List Text → Spot F → Bool
  external_candidate taken s =
      if mem_text s.no taken || text_eq s.kind kind_disabled
      then false
      else not (text_eq s.kind kind_ev)

  -- `_is_free`
  unfoldable pub is_free : List Text → Bool → Spot F → Bool
  is_free occupied ev_preferred s =
      if mem_text s.no occupied || text_eq s.kind kind_disabled
      then false
      else text_eq s.kind kind_normal || (text_eq s.kind kind_ev && ev_preferred)

  -- `core_by_dong.get(dong)`: of two cores with one name the last counts
  unfoldable pub core_by_dong : Text → List (Core F) → Option (Core F)
  core_by_dong dong [] = none
  core_by_dong dong (c ∷ cs) = elim (core_by_dong dong cs) [
    | some d ↦ some d
    | none ↦ if text_eq c.name dong then some c else none
  ]

  -- `next((c for c in cores if c.name == core_name), None)`
  unfoldable pub first_core : Text → List (Core F) → Option (Core F)
  first_core name [] = none
  first_core name (c ∷ cs) = if text_eq c.name name then some c else first_core name cs

-- `sorted(vehicles, key=lambda v: (v.dong, v.vehicle_id))`
abbrev pub comes_before : VehicleRef → VehicleRef → Bool
comes_before u v =
    if text_lt u.dong v.dong
    then true
    else if text_lt v.dong u.dong
    then false
    else text_lt u.vehicle_id v.vehicle_id

abbrev pub plate_letters : Text
plate_letters = codes "가나다라마거너더러머버서어저허"

abbrev pub plate_letter : ℕ → ℕ
plate_letter n = elim (get_elem? plate_letters (n % 15)) [ some c ↦ c | none ↦ 0 ]

-- The plate that is tried for n.
unfoldable pub plate : ℕ → Text
plate n = dec (100 + n * 37) ++ (plate_letter n ∷ dec (1000 + n * 137))

-- `_external_plate`: the loop on fuel
unfoldable pub external_plate : ℕ → ℕ → List Text → Option Text
external_plate zero n used = none
external_plate (suc fuel) n used =
    let rest = external_plate fuel (suc n) used in
    if mem_text (plate n) used then rest else some (plate n)

module _ (float : Float) (hypot : float.F → float.F → float.F) where
  open float use {F, lt, add, sub, mul, of_nat, lit}

  unfoldable pub spot_center : Spot F → F × F
  spot_center s = (add s.x (lit 34 2), add s.y (lit 64 2))

  unfoldable pub core_center : Core F → F × F
  core_center c = (add c.x (mul c.w (lit 1 2)), add c.y (mul c.h (lit 1 2)))

  unfoldable pub distance_px : Spot F → F × F → F
  distance_px s (cx, cy) = let (sx, sy) = spot_center s in hypot (sub sx cx) (sub sy cy)

  abbrev pub least_x : F → List (Spot F) → F
  least_x m [] = m
  least_x m (s ∷ ss) = least_x (if lt s.x m then s.x else m) ss

  abbrev pub greatest_y : F → List (Spot F) → F
  greatest_y m [] = m
  greatest_y m (s ∷ ss) = greatest_y (if lt m s.y then s.y else m) ss

  -- `_entrance_center`
  unfoldable pub entrance_center : List (Spot F) → Option (F × F)
  entrance_center [] = none
  entrance_center (s ∷ ss) =
      some (add (least_x s.x ss) (lit 160 2), add (add (greatest_y s.y ss) (lit 64 1)) (lit 64 2))

  -- `key < best_key` of two pairs of a score and a spot's number
  unfoldable pub key_less : F × Text → F × Text → Bool
  key_less (a, s) (b, t) = if lt a b then true else if lt b a then false else text_lt s t

  unfoldable pub pick_key : Option (F × F) → Spot F → F × Text
  pick_key anchor s = (elim anchor [ some a ↦ distance_px s a | none ↦ s.x ], s.no)

  -- One round of the loop of `_pick_nearest`, on `best_key` and `best`.
  unfoldable pub better :
      Option (F × F)
      → (Spot F → Bool)
      → Option ((F × Text) × Spot F)
      → Spot F
      → Option ((F × Text) × Spot F)
  better anchor is_candidate best s = if not (is_candidate s) then best else elim best [
    | none ↦ some (pick_key anchor s, s)
    | some (k, b) ↦
        if key_less (pick_key anchor s) k then some (pick_key anchor s, s) else some (k, b)
  ]

  unfoldable pub pick_from :
      Option (F × F)
      → (Spot F → Bool)
      → Option ((F × Text) × Spot F)
      → List (Spot F)
      → Option (Spot F)
  pick_from anchor is_candidate best [] = elim best [ none ↦ none | some (k, b) ↦ some b ]
  pick_from anchor is_candidate best (s ∷ ss) =
      pick_from anchor is_candidate (better anchor is_candidate best s) ss

  -- `_pick_nearest`
  unfoldable pub pick_nearest : List (Spot F) → Option (F × F) → (Spot F → Bool) → Option (Spot F)
  pick_nearest spots anchor is_candidate = pick_from anchor is_candidate none spots

  -- The locals of `assign_occupancy`.
  pub record Parked : Type 0 where
    pub taken : List Text
    pub result : List (Occupancy F)
    pub used_plates : List Text

  abbrev pub resident_entry : ℕ → VehicleRef → Spot F → Occupancy F
  resident_entry idx v s = record {
    spot_no = s.no;
    is_external = false;
    vehicle_id = some v.vehicle_id;
    external_plate = none;
    parked_hours = add (lit 1 2) (mul (of_nat (idx % 28)) (lit 1 2));
  }

  abbrev pub external_entry : ℕ → Text → Spot F → Occupancy F
  external_entry i plate s = record {
    spot_no = s.no;
    is_external = true;
    vehicle_id = none;
    external_plate = some plate;
    parked_hours = if i % 2 == 0 then of_nat (1 + i) else of_nat (20 + i);
  }

  abbrev pub resident_anchor : List (Core F) → VehicleRef → Option (F × F)
  resident_anchor cores v = elim (core_by_dong v.dong cores) [
    | some c ↦ some (core_center c)
    | none ↦ none
  ]

  -- The loop over the residents' cars.
  unfoldable pub assign_residents :
      List (Spot F) → List (Core F) → ℕ → List VehicleRef → Parked → Parked
  assign_residents spots cores idx [] p = p
  assign_residents spots cores idx (v ∷ vs) p =
      elim (pick_nearest spots (resident_anchor cores v) (resident_candidate p.taken v.is_ev)) [
        | none ↦ p
        | some s ↦
            assign_residents spots cores (suc idx) vs (record p {
              taken = s.no ∷ p.taken;
              result = p.result ++ resident_entry idx v s ∷ [];
            })
      ]

  -- The loop over the other cars; `none` would be a plate that is never found.
  unfoldable pub assign_externals : List (Spot F) → ℕ → ℕ → Parked → Option Parked
  assign_externals spots i zero p = some p
  assign_externals spots i (suc n) p =
      elim (pick_nearest spots (entrance_center spots) (external_candidate p.taken)) [
        | none ↦ some p
        | some s ↦ elim (external_plate (suc (length p.used_plates)) i p.used_plates) [
          | none ↦ none
          | some plate ↦ assign_externals spots (suc i) n (record p {
            taken = s.no ∷ p.taken;
            result = p.result ++ external_entry i plate s ∷ [];
            used_plates = plate ∷ p.used_plates;
          })
        ]
      ]

  abbrev pub nobody : Parked
  nobody = record { taken = []; result = []; used_plates = [] }

  unfoldable pub assign_occupancy :
      List (Spot F) → List (Core F) → List VehicleRef → ℕ → Option (List (Occupancy F))
  assign_occupancy spots cores vehicles external_count =
      elim (assign_externals spots 0 external_count
        (assign_residents spots cores 0 (sorted comes_before vehicles) nobody)) [
          | none ↦ none
          | some p ↦ some p.result
        ]

  -- `free.sort(key=...)[:top_k]`
  unfoldable pub nearest_free : List (Spot F) → F × F → List Text → Bool → ℕ → List (Spot F)
  nearest_free spots anchor occupied ev_preferred top_k = take top_k (
      sorted (λ s t. key_less (pick_key (some anchor) s) (pick_key (some anchor) t))
        (filter (λ s. is_free occupied ev_preferred s) spots))

  -- `round` is Python's, on what is not negative.
  unfoldable pub nearest_available_spots :
      (F → ℕ) → List (Spot F) → List (Core F) → List Text → Text → Bool → ℕ → List NearestSpot
  nearest_available_spots round spots cores occupied core_name ev_preferred top_k =
      elim (first_core core_name cores) [
        | none ↦ []
        | some c ↦
            map
              (λ (s : Spot F). record {
                no = s.no;
                kind = s.kind;
                distance_m = round (mul (distance_px s (core_center c)) (lit 1 13));
              })
              (nearest_free spots (core_center c) occupied ev_preferred top_k)
      ]
