-- ===== src/Daemon/Sleep.antt =====
-- `_sleep` of src/uplinkmgr/daemon.py: the naps between two rounds of the loop. Times are in
-- nanoseconds, as integers.
use uplinkmgr.Prelude.{
  ℕ, zero, suc, ◌*◌, ◌≤◌, ◌≡◌, refl, List, [], ◌∷◌, Bool, true, Bool-cases, inl, inr, Option, none,
  some, ℤ, pos, ◌⊎◌, ◌<◌, ◌+◌, subst, int_laws, ◌+ℤ◌, ◌-ℤ◌, ◌≤ℤ◌, leb_ℤ, length, if◌then◌else◌,
  arith,
}

abbrev pub half_second : ℤ
half_second = pos 500000000

-- min(remaining, 0.5)
unfoldable pub nap : ℤ → ℤ
nap remaining = if leb_ℤ remaining half_second then remaining else half_second

-- What each turn of the loop finds: whether the daemon has stopped or a signal has come in, and the
-- time.
module _ (woken : ℕ → Bool) (clock : ℕ → ℤ) (deadline : ℤ) where
  -- The naps from a turn on; `none` where the fuel runs out.
  unfoldable pub naps_from : (fuel : ℕ) → ℕ → Option (List ℤ)
  unfolding nap
  naps_from zero k = none
  naps_from (suc fuel) k =
      let remaining = deadline -ℤ clock k in
      let rest : Option (List ℤ) = elim (naps_from fuel (suc k)) [
        | none ↦ none
        | some naps ↦ some (nap remaining ∷ naps)
      ] in
      if woken k then some [] else if leb_ℤ remaining (pos 0) then some [] else rest

-- The deadline is from the time at the call.
unfoldable pub sleep :
    (woken : ℕ → Bool) (clock : ℕ → ℤ) (start seconds : ℤ) → (fuel : ℕ) → Option (List ℤ)
unfolding naps_from
sleep woken clock start seconds fuel = naps_from woken clock (start +ℤ seconds) fuel 0

pub nap-le : (r : ℤ) → nap r ≤ℤ half_second
unfolding nap
nap-le r = ground arith

nap_cases : (r : ℤ) → (nap r ≡ r) ⊎ (nap r ≡ half_second)
unfolding nap
nap_cases r = elim (Bool-cases (leb_ℤ r half_second)) [
  | inl small ↦ inl (rw small refl)
  | inr large ↦ inr (rw large refl)
]

module _ (woken : ℕ → Bool) (clock : ℕ → ℤ) (deadline : ℤ)
    (advances : (k : ℕ) → clock k +ℤ nap (deadline -ℤ clock k) ≤ℤ clock (suc k)) where
  -- With `m` half seconds left, or fewer, one less are left after a nap.
  next_remaining :
      (m k : ℕ)
      → deadline -ℤ clock k ≤ℤ pos (suc m * 500000000)
      → deadline -ℤ clock (suc k) ≤ℤ pos (m * 500000000)
  next_remaining m k h = elim (nap_cases (deadline -ℤ clock k)) [
    | inl all ↦
        let later = subst (λ x. clock k +ℤ x ≤ℤ clock (suc k)) all (advances k) in omega int_laws
    | inr part ↦
        let later = subst (λ x. clock k +ℤ x ≤ℤ clock (suc k)) part (advances k) in omega int_laws
  ]

  naps_from-ends :
      (fuel m k : ℕ)
      → m < fuel
      → deadline -ℤ clock k ≤ℤ pos (m * 500000000)
      → (naps : List ℤ) × (naps_from woken clock deadline fuel k ≡ some naps)
        × (length naps ≤ m)
        × ((j : ℕ) → k ≤ j → woken j ≡ true → length naps + k ≤ j)
  unfolding naps_from
  naps_from-ends zero m k h left = absurd (omega arith)
  naps_from-ends (suc fuel) zero k h left = elim (Bool-cases (woken k)) [
    | inl awake ↦ ([], rw awake refl, omega arith, λ j le w. omega arith)
    | inr asleep ↦
        let over : leb_ℤ (deadline -ℤ clock k) (pos 0) ≡ true = ground arith in
        ([], rw (asleep, over) refl, omega arith, λ j le w. omega arith)
  ]
  naps_from-ends (suc fuel) (suc m) k h left = elim (Bool-cases (woken k)) [
    | inl awake ↦ ([], rw awake refl, omega arith, λ j le w. omega arith)
    | inr asleep ↦ elim (Bool-cases (leb_ℤ (deadline -ℤ clock k) (pos 0))) [
      | inl over ↦ ([], rw (asleep, over) refl, omega arith, λ j le w. omega arith)
      | inr more ↦
          let (naps, e, short, quick) =
            naps_from-ends fuel m (suc k) (omega arith) (next_remaining m k left) in
          (
            nap (deadline -ℤ clock k) ∷ naps,
            rw (asleep, more, e) refl,
            omega arith,
            λ j le w. ground (arith, quick j),
          )
    ]
  ]

-- If the clock never goes back and each nap lasts at least as long as was asked for, the sleep ends:
-- with fuel for one turn more than half seconds fit in, it takes at most one nap for each half second
-- that was begun, and after a signal, or the end of the daemon, none is begun.
pub sleep-ends :
    (woken : ℕ → Bool) (clock : ℕ → ℤ) (start seconds : ℤ) (m fuel : ℕ)
    → ((k : ℕ) → clock k +ℤ nap (start +ℤ seconds -ℤ clock k) ≤ℤ clock (suc k))
    → start ≤ℤ clock 0
    → seconds ≤ℤ pos (m * 500000000)
    → m < fuel
    → (naps : List ℤ) × (sleep woken clock start seconds fuel ≡ some naps)
      × (length naps ≤ m)
      × ((j : ℕ) → woken j ≡ true → length naps ≤ j)
unfolding sleep
sleep-ends woken clock start seconds m fuel advances begun bound enough =
    let left : start +ℤ seconds -ℤ clock 0 ≤ℤ pos (m * 500000000) = omega int_laws in
    let (naps, e, short, quick) =
      naps_from-ends woken clock (start +ℤ seconds) advances fuel m 0 enough left in
    (naps, e, short, λ j w. omega (arith, quick j (omega arith) w))
