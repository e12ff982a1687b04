-- ===== src/Cap/Invariant.antt =====
-- An invariant of the capability tables of kernel/core/cap.c, and the operations that keep it.
use afriyie_os.Common.{
  ℕ, ◌^◌, ◌≤◌, ◌<◌, ◌≡◌, ◌≢◌, refl, sym, ◌∙◌, Bool, true, false, some, arith, List, All,
}
use afriyie_os.Common.Count.{count, count-le, count-gain, count-congr, count-none}
use afriyie_os.Cap.Object.{Object}
use afriyie_os.Cap.Table.{Table, fresh_table}
use afriyie_os.Cap.History.{Op, IsWord, run, run_keeps}
use afriyie_os.Cap.Ops.{relink, fill_slot, free_slot, release}

abbrev pub in_use : Table → ℕ → Bool
in_use t j = (t.slots j).used

-- Slot 0 is free, `used` counts the slots in use, and no generation is above 2 ^ 24.
pub record IsValid (t : Table) : Type 0 where
  pub slot_zero : (t.slots 0).used ≡ false
  pub counted : t.used ≡ count (in_use t) 256
  pub generations : (j : ℕ) → (t.slots j).generation ≤ 2 ^ 24

pub fresh_table-IsValid : IsValid fresh_table
unfolding fresh_table
fresh_table-IsValid = record {
  slot_zero = refl;
  counted = sym (count-none 256);
  generations = λ j. omega arith;
}

-- A free slot from 1 on may be filled.
pub fill_slot-IsValid :
    (t : Table) (i : ℕ) (object : Object) (rights : ℕ)
    → IsValid t
    → 1 ≤ i
    → i < 256
    → (t.slots i).used ≡ false
    → IsValid (fill_slot t i object rights)
unfolding fill_slot
fill_slot-IsValid t i object rights v lo hi free = record {
  slot_zero = ground (arith, v.slot_zero);
  counted = ground (
    arith,
    v.counted,
    count-le (in_use (fill_slot t i object rights)) 256,
    count-gain (in_use t) (in_use (fill_slot t i object rights)) i 256 hi free gained others,
  );
  generations = λ j. ground (arith, v.generations j, v.generations i);
}
  where
    gained : in_use (fill_slot t i object rights) i ≡ true
    gained = ground arith

    others : (j : ℕ) → j ≢ i → in_use t j ≡ in_use (fill_slot t i object rights) j
    others j ne = ground arith

-- A slot in use whose generation a handle can carry may be freed.
pub release-IsValid :
    (t : Table) (i : ℕ)
    → IsValid t
    → i < 256
    → (t.slots i).used ≡ true
    → (t.slots i).generation < 2 ^ 24
    → IsValid (release t i)
unfolding release free_slot
release-IsValid t i v hi live fits = record {
  slot_zero = ground (arith, v.slot_zero);
  counted =
      ground
        (arith, v.counted, count-gain (in_use (release t i)) (in_use t) i 256 hi freed live others);
  generations = λ j. ground (arith, v.generations j, v.generations i);
}
  where
    freed : in_use (release t i) i ≡ false
    freed = ground arith

    others : (j : ℕ) → j ≢ i → in_use (release t i) j ≡ in_use t j
    others j ne = ground arith

-- A change of parent is no change to the invariant.
pub relink-IsValid : (t : Table) (i p : ℕ) → IsValid t → IsValid (relink t i p)
unfolding relink
relink-IsValid t i p v = record {
  slot_zero = ground (arith, v.slot_zero);
  counted = v.counted ∙ count-congr (in_use t) _ 256 (λ j lt. ground arith);
  generations = λ j. ground (arith, v.generations j, v.generations i);
}

-- Where slot 0 of a table is free, `used` counts the slots in use, and no generation is above 2 ^ 24, this holds again
-- after any history of `cap_insert`, `cap_derive`, `cap_delete` and `cap_revoke` that runs to its end, with handles of 32
-- bits.
pub run-IsValid :
    (ops : List Op) (t s : Table) → All IsWord ops → IsValid t → run t ops ≡ some s → IsValid s
run-IsValid =
    run_keeps IsValid fill_slot-IsValid relink-IsValid (λ t i v lo hi. release-IsValid t i v hi)
