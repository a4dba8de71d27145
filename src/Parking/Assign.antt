-- ===== src/Parking/Assign.antt =====
-- `assign_occupancy`: every car that gets a spot gets one that it may use, and no spot twice.
use liviq.Base.{
  ℕ, zero, suc, ◌≡◌, refl, sym, ap, ◌∙◌, inl, inr, Bool, true, false, ◌||◌, Option, none, some,
  List, [], ◌∷◌, ◌++◌, arith, length, Text, text_eq, mem_text, All, All-append, subst,
}
use mathlib.Core.List.{Mem}
use liviq.Base.Sort.{sorted, All-sorted}
use liviq.Base.Float.{Float}
use liviq.Parking.{
  Spot, Core, VehicleRef, Occupancy, Parked, resident_candidate, external_candidate, kind_disabled,
  kind_ev, pick_nearest, resident_anchor, entrance_center, external_plate, resident_entry,
  external_entry, assign_residents, assign_externals, assign_occupancy, nobody, comes_before,
}
use liviq.Parking.Pick.{pick_nearest_has}
use liviq.Parking.Plates.{external_plate_finds}
use liviq.Parking.Once.{
  IsOnce, IsOnce-snoc, mem_text-snoc, append_nil, All-Mem, plates_from, spot_nos, plates,
  spot_nos-snoc, plates-snoc, IsPlaced, IsAssignment,
}

module _ (float : Float) (hypot : float.F → float.F → float.F) (spots : List (Spot float.F))
    (cores : List (Core float.F)) (vehicles : List VehicleRef) where
  open float use {F}

  record IsSound (p : Parked float hypot) : Type 0 where
    assigned : IsAssignment spots vehicles p.result
    spots_taken : (t : Text) → mem_text t (spot_nos p.result) ≡ mem_text t p.taken
    plates_used : (t : Text) → mem_text t (plates p.result) ≡ mem_text t p.used_plates

  -- The plates that are used once an entry is added.
  abbrev NewPlate : Option Text → List Text → List Text → Type 0
  NewPlate none old used = used ≡ old
  NewPlate (some q) old used = (used ≡ q ∷ old) × (mem_text q old ≡ false)

  abbrev SameMembers : List Text → List Text → Type 0
  SameMembers ts us = (t : Text) → mem_text t ts ≡ mem_text t us

  snoc-IsOnce :
      (ts us : List Text) (t : Text)
      → IsOnce ts
      → SameMembers ts us
      → mem_text t us ≡ false
      → IsOnce (ts ++ t ∷ []) × SameMembers (ts ++ t ∷ []) (t ∷ us)
  unfolding mem_text
  snoc-IsOnce ts us t once same new = (
    IsOnce-snoc t ts (same t ∙ new) once,
    λ u. mem_text-snoc u t ts ∙ ap (λ b. text_eq u t || b) (same u),
  )

  plates_step :
      (ps old used : List Text) (e : Option Text)
      → IsOnce ps
      → SameMembers ps old
      → NewPlate e old used
      → IsOnce (ps ++ plates_from e []) × SameMembers (ps ++ plates_from e []) used
  plates_step ps old used none once same new =
      rw (append_nil ps) (once, λ u. same u ∙ ap (mem_text u) (sym new))
  plates_step ps old used (some q) once same (e, new) = rw e (snoc-IsOnce ps old q once same new)

  add-IsSound :
      (p : Parked float hypot) (o : Occupancy F) (used : List Text)
      → IsSound p
      → IsPlaced spots vehicles o
      → mem_text o.spot_no p.taken ≡ false
      → NewPlate o.external_plate p.used_plates used
      → IsSound
          (record { taken = o.spot_no ∷ p.taken; result = p.result ++ o ∷ []; used_plates = used })
  add-IsSound p o used h placed new plate =
      let once =
        snoc-IsOnce (spot_nos p.result) p.taken o.spot_no h.assigned.spots_once h.spots_taken new in
      let kept =
        plates_step (plates p.result) p.used_plates used o.external_plate h.assigned.plates_once
          h.plates_used plate in
      record {
        assigned = record {
          placed =
              All-append (IsPlaced spots vehicles) p.result (o ∷ []) h.assigned.placed (placed, tt);
          spots_once = subst IsOnce (sym (spot_nos-snoc p.result o)) once.0;
          plates_once = subst IsOnce (sym (plates-snoc p.result o)) kept.0;
        };
        spots_taken = λ t. ap (mem_text t) (spot_nos-snoc p.result o) ∙ once.1 t;
        plates_used = λ t. ap (mem_text t) (plates-snoc p.result o) ∙ kept.1 t;
      }

  resident_may :
      (taken : List Text) (is_ev : Bool) (s : Spot F)
      → resident_candidate taken is_ev s ≡ true
      → (mem_text s.no taken ≡ false)
        × (text_eq s.kind kind_disabled ≡ false)
        × (text_eq s.kind kind_ev ≡ true → is_ev ≡ true)
  unfolding resident_candidate
  resident_may taken is_ev s h = (ground arith, ground arith, λ e. ground arith)

  external_may :
      (taken : List Text) (s : Spot F)
      → external_candidate taken s ≡ true
      → (mem_text s.no taken ≡ false)
        × (text_eq s.kind kind_disabled ≡ false)
        × (text_eq s.kind kind_ev ≡ false)
  unfolding external_candidate
  external_may taken s h = (ground arith, ground arith, ground arith)

  residents-IsSound :
      (idx : ℕ) (vs : List VehicleRef) (p : Parked float hypot)
      → All (λ v. Mem v vehicles) vs
      → IsSound p
      → IsSound (assign_residents float hypot spots cores idx vs p)
  unfolding assign_residents
  residents-IsSound idx [] p m h = h
  residents-IsSound idx (v ∷ vs) p m h =
      go (residents-IsSound (suc idx) vs)
        (pick_nearest float hypot spots (resident_anchor float hypot cores v)
          (resident_candidate p.taken v.is_ev))
        refl
    where
      go :
          ((q : Parked float hypot)
            → All (λ v. Mem v vehicles) vs
            → IsSound q
            → IsSound (assign_residents float hypot spots cores (suc idx) vs q))
          → (r : Option (Spot F))
          → pick_nearest float hypot spots
              (resident_anchor float hypot cores v)
              (resident_candidate p.taken v.is_ev)
            ≡ r
          → IsSound (elim r [
            | none ↦ p
            | some s ↦ assign_residents float hypot spots cores (suc idx) vs (record p {
              taken = s.no ∷ p.taken;
              result = p.result ++ resident_entry float hypot idx v s ∷ [];
            })
          ])
      go later none e = h
      go later (some s) e =
          let (at, ok) =
            pick_nearest_has float hypot (resident_anchor float hypot cores v)
              (resident_candidate p.taken v.is_ev) (λ q. Mem q spots) spots s (All-Mem spots) e in
          let (new, able, charged) = resident_may p.taken v.is_ev s ok in
          later _ m.1 (
            add-IsSound p (resident_entry float hypot idx v s) p.used_plates h
              (s, at, refl, able, inr (v, m.0, refl, refl, refl, charged)) new refl)

  IsFound : Option (Parked float hypot) → Type 0
  IsFound none = ⊥
  IsFound (some p) = IsSound p

  externals-IsSound :
      (i n : ℕ) (p : Parked float hypot)
      → IsSound p
      → IsFound (assign_externals float hypot spots i n p)
  unfolding assign_externals IsFound
  externals-IsSound i zero p h = h
  externals-IsSound i (suc n) p h =
      go (externals-IsSound (suc i) n)
        (pick_nearest float hypot spots (entrance_center float hypot spots)
          (external_candidate p.taken))
        refl (external_plate_finds i p.used_plates)
    where
      go :
          ((q : Parked float hypot)
            → IsSound q
            → IsFound (assign_externals float hypot spots (suc i) n q))
          → (r : Option (Spot F))
          → pick_nearest float hypot spots
              (entrance_center float hypot spots)
              (external_candidate p.taken)
            ≡ r
          → ((q : Text) × (external_plate (suc (length p.used_plates)) i p.used_plates ≡ some q)
              × (mem_text q p.used_plates ≡ false))
          → IsFound (elim r [
            | none ↦ some p
            | some s ↦ elim (external_plate (suc (length p.used_plates)) i p.used_plates) [
              | none ↦ none
              | some plate ↦ assign_externals float hypot spots (suc i) n (record p {
                taken = s.no ∷ p.taken;
                result = p.result ++ external_entry float hypot i plate s ∷ [];
                used_plates = plate ∷ p.used_plates;
              })
            ]
          ])
      go later none e found = h
      go later (some s) e (q, found, fresh) =
          let (at, ok) =
            pick_nearest_has float hypot (entrance_center float hypot spots)
              (external_candidate p.taken) (λ t. Mem t spots) spots s (All-Mem spots) e in
          let (new, able, plain) = external_may p.taken s ok in
          rw found (
            later _ (
              add-IsSound p (external_entry float hypot i q s) (q ∷ p.used_plates) h
                (s, at, refl, able, inl (refl, refl, plain)) new (refl, fresh)))

  -- The assignment never fails for want of a plate. Each entry is a spot of the layout that is not
  -- for the disabled; an external car stands on none that charges, and a resident's car is one of
  -- those given, and electric where its spot charges. No spot number and no made-up plate stands
  -- in the result twice.
  pub assign_occupancy-IsAssignment :
      (external_count : ℕ)
      → (os : List (Occupancy F)) × (assign_occupancy float hypot spots cores vehicles
            external_count
          ≡ some os)
        × IsAssignment spots vehicles os
  unfolding assign_occupancy IsFound
  assign_occupancy-IsAssignment external_count =
      let parked =
        assign_residents float hypot spots cores 0 (sorted comes_before vehicles)
          (nobody float hypot) in
      go (assign_externals float hypot spots 0 external_count parked) (
        externals-IsSound 0 external_count parked (
          residents-IsSound 0 (sorted comes_before vehicles) (nobody float hypot)
            (All-sorted comes_before (λ v. Mem v vehicles) vehicles (All-Mem vehicles))
            (record {
              assigned = record { placed = tt; spots_once = tt; plates_once = tt };
              spots_taken = λ t. refl;
              plates_used = λ t. refl;
            })))
    where
      go :
          (o : Option (Parked float hypot))
          → IsFound o
          → (os : List (Occupancy F)) × ((elim o as (λ _. Option (List (Occupancy F))) [
            | none ↦ none
            | some p ↦ some p.result
          ])
              ≡ some os)
            × IsAssignment spots vehicles os
      go none h = absurd h
      go (some p) h = (p.result, refl, h.assigned)
