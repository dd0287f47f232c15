-- ===== src/Model/Selection/Cycle.antt =====
-- Cycling through the members.
use native.Mathlib.Nat.{mod-lt, mod-eq_of_lt, mod_self}
use kitmux_linux.Base.{
  ℕ, zero, suc, ◌+◌, ◌-◌, ◌<◌, ◌≡◌, ◌∙◌, inl, inr, ◌==◌, if◌then◌else◌, arith, Bool-cases,
}
use kitmux_linux.Base.Int.{ℤ, pos, negsuc}
use kitmux_linux.Model.Selection.{rem_euclid, add_index, wrapped_index}

rem_euclid-lt : (z : ℤ) (m : ℕ) → 0 < m → rem_euclid z m < m
unfolding rem_euclid
rem_euclid-lt (pos n) m h = mod-lt n h
rem_euclid-lt (negsuc n) m h = omega arith

-- Cycling stays among the members.
pub wrapped_index-lt : (i : ℕ) (d : ℤ) (count : ℕ) → 0 < count → wrapped_index i d count < count
unfolding wrapped_index
wrapped_index-lt i d count h = rem_euclid-lt (add_index i d) count h

wrapped_index_forwards :
    (i count : ℕ)
    → i < count
    → wrapped_index i (pos 1) count ≡ (if suc i == count then 0 else suc i)
unfolding wrapped_index
wrapped_index_forwards i count h = elim (Bool-cases (suc i == count)) [
  | inl e ↦ let e' : i + 1 ≡ count = ground arith in rw (e, e') (mod_self count)
  | inr e ↦ rw e (mod-eq_of_lt (ground arith) ∙ omega arith)
]

wrapped_index_backwards :
    (i count : ℕ)
    → i < count
    → wrapped_index i (negsuc 0) count ≡ (if i == 0 then count - 1 else i - 1)
unfolding wrapped_index
wrapped_index_backwards zero count h = rw (mod-eq_of_lt h) (omega arith)
wrapped_index_backwards (suc i) count h =
    let e : add_index (suc i) (negsuc 0) ≡ pos i = ground arith in
    rw (e, rem_euclid) (mod-eq_of_lt (omega arith) ∙ ground arith)

-- For an index in range, a step forwards goes to the next index, from the last one to 0; a step
-- backwards undoes it, and a step forwards undoes a step backwards.
pub wrapped_index_step :
    (i count : ℕ)
    → i < count
    → (wrapped_index i (pos 1) count ≡ (if suc i == count then 0 else suc i))
      × (wrapped_index (wrapped_index i (pos 1) count) (negsuc 0) count ≡ i)
      × (wrapped_index (wrapped_index i (negsuc 0) count) (pos 1) count ≡ i)
wrapped_index_step i count h =
    let n = wrapped_index i (pos 1) count in
    let p = wrapped_index i (negsuc 0) count in
    let ef = wrapped_index_forwards i count h in
    let eb = wrapped_index_backwards i count h in
    let ln = wrapped_index-lt i (pos 1) count (omega arith) in
    let lp = wrapped_index-lt i (negsuc 0) count (omega arith) in
    (
      ef,
      wrapped_index_backwards n count ln ∙ ground arith,
      wrapped_index_forwards p count lp ∙ ground arith,
    )
