-- ===== src/Heartbeat/Faults.antt =====
-- src/functional_safety_heartbeat.cpp: what `UpdateFaults` does to the set of active faults.
use livox_ros_driver.Common.{
  ℕ, ◌≡◌, refl, ◌<◌, ◌∙◌, Bool, true, false, not, ◌&&◌, ◌||◌, List, [], ◌∷◌, ltb, leb, ◌==◌, inl,
  inr, Bool-cases, arith,
}
use livox_ros_driver.Heartbeat.{
  HeartbeatPublisher, insert_fault, erase_fault, erase_all, insert_all, update_faults,
}

unfoldable pub has : ℕ → List ℕ → Bool
has c [] = false
has c (d ∷ ds) = c == d || has c ds

-- Every code of the list lies above `b`.
unfoldable pub above : ℕ → List ℕ → Bool
above b [] = true
above b (d ∷ ds) = ltb b d && above d ds

-- The codes are positive and increase: no code is 0 or occurs twice.
unfoldable pub Sorted : List ℕ → Type 0
Sorted ds = above 0 ds ≡ true

above-insert_fault :
    (b c : ℕ) (ds : List ℕ)
    → ltb b c ≡ true
    → above b ds ≡ true
    → above b (insert_fault c ds) ≡ true
unfolding above insert_fault
above-insert_fault b c [] l h = ground arith
above-insert_fault b c (d ∷ ds) l h = ground (arith, above-insert_fault d c ds)

above_weaken : (a b : ℕ) (ds : List ℕ) → a < b → above b ds ≡ true → above a ds ≡ true
unfolding above
above_weaken a b [] l h = refl
above_weaken a b (d ∷ ds) l h = ground arith

above-erase_fault : (b c : ℕ) (ds : List ℕ) → above b ds ≡ true → above b (erase_fault c ds) ≡ true
unfolding above erase_fault
above-erase_fault b c [] h = refl
above-erase_fault b c (d ∷ ds) h = ground (arith, above-erase_fault d c ds, above_weaken b d ds)

has-above : (b c : ℕ) (ds : List ℕ) → leb c b ≡ true → above b ds ≡ true → has c ds ≡ false
unfolding above has
has-above b c [] l h = refl
has-above b c (d ∷ ds) l h = ground (arith, has-above d c ds)

has-insert_fault : (c d : ℕ) (ds : List ℕ) → has c (insert_fault d ds) ≡ (c == d || has c ds)
unfolding has insert_fault
has-insert_fault c d [] = ground arith
has-insert_fault c d (e ∷ ds) = ground (arith, has-insert_fault c d ds)

has-erase_fault :
    (b c d : ℕ) (ds : List ℕ)
    → above b ds ≡ true
    → has c (erase_fault d ds) ≡ (not (c == d) && has c ds)
unfolding has erase_fault above
has-erase_fault b c d [] h = ground arith
has-erase_fault b c d (e ∷ ds) h = ground (arith, has-erase_fault e c d ds, has-above e c ds)

erase_all-has :
    (c : ℕ) (cs ds : List ℕ)
    → above 0 ds ≡ true
    → (above 0 (erase_all cs ds) ≡ true) × (has c (erase_all cs ds) ≡ (not (has c cs) && has c ds))
unfolding erase_all has
erase_all-has c [] ds h = (h, refl)
erase_all-has c (d ∷ cs) ds h =
    let (sorted, e) = erase_all-has c cs (erase_fault d ds) (above-erase_fault 0 d ds h) in
    (sorted, e ∙ ground (arith, has-erase_fault 0 c d ds h))

insert_all-has :
    (c : ℕ) (cs ds : List ℕ)
    → above 0 ds ≡ true
    → (above 0 (insert_all cs ds) ≡ true)
      × (has c (insert_all cs ds) ≡ ((not (c == 0) && has c cs) || has c ds))
unfolding insert_all has
insert_all-has c [] ds h = (h, ground arith)
insert_all-has c (d ∷ cs) ds h = elim (Bool-cases (d == 0)) [
  | inl e ↦ let (sorted, f) = insert_all-has c cs ds h in (rw (e) sorted, rw (e, f) (ground arith))
  | inr e ↦
      let (sorted, f) =
        insert_all-has c cs (insert_fault d ds) (above-insert_fault 0 d ds (ground arith) h) in
      (rw (e) sorted, rw (e, f, has-insert_fault c d ds) (ground arith))
]

-- `UpdateFaults` on a set of faults in order, none of which is 0: afterwards a code is active
-- exactly where it is not 0 and it either failed in this batch, whether it passed too or not, or
-- was active and did not pass. The set still holds each code once, in order, and never 0.
pub update_faults_lem :
    (h : HeartbeatPublisher) (failed passed : List ℕ) (c : ℕ)
    → Sorted h.active_faults
    → Sorted (update_faults h failed passed).active_faults
      × (has c (update_faults h failed passed).active_faults
          ≡ ((not (c == 0) && has c failed) || (not (has c passed) && has c h.active_faults)))
unfolding update_faults Sorted
update_faults_lem h failed passed c sorted =
    let (s, e) = erase_all-has c passed h.active_faults sorted in
    let (s', e') = insert_all-has c failed (erase_all passed h.active_faults) s in
    (s', e' ∙ rw (e) refl)
