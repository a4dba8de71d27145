-- ===== src/Parking/Once.antt =====
-- What an assignment owes its reader: no spot twice, no plate twice, and only spots that the car may
-- use.
use liviq.Base.{
  ◌≡◌, refl, ap, ◌⊎◌, true, false, ◌||◌, Option, none, some, List, [], ◌∷◌, ◌++◌, arith, Text,
  text_eq, mem_text, All, All-map_weaken,
}
use mathlib.Core.List.{Mem, mem-cons_self, mem-cons_of_mem}
use liviq.Parking.{Spot, VehicleRef, Occupancy, kind_disabled, kind_ev}

-- Every text of the list stands in it once.
abbrev pub IsOnce : List Text → Type 0
IsOnce [] = Unit
IsOnce (t ∷ ts) = (mem_text t ts ≡ false) × IsOnce ts

pub mem_text-snoc :
    (t u : Text) (ts : List Text) → mem_text t (ts ++ u ∷ []) ≡ (text_eq t u || mem_text t ts)
unfolding mem_text
mem_text-snoc t u [] = refl
mem_text-snoc t u (s ∷ ts) = ground (arith, mem_text-snoc t u ts)

text_eq_sym : (s t : Text) → text_eq s t ≡ text_eq t s
unfolding text_eq
text_eq_sym [] [] = refl
text_eq_sym [] (b ∷ t) = refl
text_eq_sym (a ∷ s) [] = refl
text_eq_sym (a ∷ s) (b ∷ t) = ground (arith, text_eq_sym s t)

pub IsOnce-snoc :
    (u : Text) (ts : List Text) → mem_text u ts ≡ false → IsOnce ts → IsOnce (ts ++ u ∷ [])
unfolding mem_text
IsOnce-snoc u [] n h = (refl, tt)
IsOnce-snoc u (s ∷ ts) n h = (
  ground (arith, mem_text-snoc s u ts, text_eq_sym s u, h.0),
  IsOnce-snoc u ts (ground arith) h.1,
)

pub append_nil : {A : Type 0} (xs : List A) → xs ++ [] ≡ xs
append_nil [] = refl
append_nil (x ∷ xs) = ap (λ ys. x ∷ ys) (append_nil xs)

pub All-Mem : {A : Type 0} (xs : List A) → All (λ x. Mem x xs) xs
All-Mem [] = tt
All-Mem (x ∷ xs) = (
  mem-cons_self,
  All-map_weaken (λ y. Mem y xs) (λ y. Mem y (x ∷ xs)) xs (λ y m. mem-cons_of_mem x m) (All-Mem xs),
)

abbrev pub plates_from : Option Text → List Text → List Text
plates_from none ps = ps
plates_from (some p) ps = p ∷ ps

module _ {F : Type 0} where
  abbrev pub spot_nos : List (Occupancy F) → List Text
  spot_nos [] = []
  spot_nos (o ∷ os) = o.spot_no ∷ spot_nos os

  abbrev pub plates : List (Occupancy F) → List Text
  plates [] = []
  plates (o ∷ os) = plates_from o.external_plate (plates os)

  pub spot_nos-snoc :
      (os : List (Occupancy F)) (o : Occupancy F)
      → spot_nos (os ++ o ∷ []) ≡ spot_nos os ++ o.spot_no ∷ []
  spot_nos-snoc [] o = refl
  spot_nos-snoc (q ∷ os) o = ap (λ l. q.spot_no ∷ l) (spot_nos-snoc os o)

  pub plates-snoc :
      (os : List (Occupancy F)) (o : Occupancy F)
      → plates (os ++ o ∷ []) ≡ plates os ++ plates_from o.external_plate []
  plates-snoc [] o = refl
  plates-snoc (q ∷ os) o = go q.external_plate (plates-snoc os o)
    where
      go :
          (e : Option Text)
          → plates (os ++ o ∷ []) ≡ plates os ++ plates_from o.external_plate []
          → plates_from e (plates (os ++ o ∷ []))
            ≡ plates_from e (plates os) ++ plates_from o.external_plate []
      go none h = h
      go (some p) h = ap (λ l. p ∷ l) h

  -- Who may stand on a spot: an external car on none that charges, a resident's car on one that
  -- charges only where it is electric.
  abbrev pub MayUse : List VehicleRef → Spot F → Occupancy F → Type 0
  MayUse vehicles s o =
      ((o.is_external ≡ true) × (o.vehicle_id ≡ none) × (text_eq s.kind kind_ev ≡ false))
      ⊎ ((v : VehicleRef) × Mem v vehicles
          × (o.vehicle_id ≡ some v.vehicle_id)
          × (o.is_external ≡ false)
          × (o.external_plate ≡ none)
          × (text_eq s.kind kind_ev ≡ true → v.is_ev ≡ true))

  abbrev pub IsPlaced : List (Spot F) → List VehicleRef → Occupancy F → Type 0
  IsPlaced spots vehicles o =
      (s : Spot F) × Mem s spots
      × (s.no ≡ o.spot_no)
      × (text_eq s.kind kind_disabled ≡ false)
      × MayUse vehicles s o

  pub record IsAssignment (spots : List (Spot F)) (vehicles : List VehicleRef)
      (os : List (Occupancy F)) : Type 0 where
    pub placed : All (IsPlaced spots vehicles) os
    pub spots_once : IsOnce (spot_nos os)
    pub plates_once : IsOnce (plates os)
