-- ===== src/Cap/Table.antt =====
-- The table of kernel/core/cap.c, the packing of handles and their resolution.
use afriyie_os.Common.{
  ℕ, ◌*◌, ◌/◌, ◌%◌, ◌^◌, bit_and, bit_or, Bool, false, not, ◌||◌, Option, none, some, leb, ◌==◌,
  if◌then◌else◌, update,
}
use afriyie_os.Cap.Object.{Object, ObjectType}

-- AF_CAP_INVALID, AF_CAP_INDEX_MASK, AF_CAP_MAX_SLOTS, AF_CAP_NO_PARENT
abbrev pub cap_invalid_handle : ℕ
cap_invalid_handle = 0

abbrev pub index_mask : ℕ
index_mask = 0xff

abbrev pub max_slots : ℕ
max_slots = 256

abbrev pub no_parent : ℕ
no_parent = 0xffff

-- `af_cap_slot_t`. `rights` and `generation` are words of 32 bits, `parent` of 16.
pub record Slot : Type 0 where
  pub object : Object
  pub rights : ℕ
  pub generation : ℕ
  pub parent : ℕ
  pub used : Bool

-- `struct af_cap_table`. The array of AF_CAP_MAX_SLOTS slots is a function of the index.
pub record Table : Type 0 where
  pub slots : ℕ → Slot
  pub used : ℕ

abbrev pub put_slot : Table → ℕ → Slot → Table
put_slot t i s = record t { slots = update t.slots i s }

abbrev pub no_object : Object
no_object = record { type = ObjectType.nothing; id = 0 }

-- Zeroed memory with the generations and parents that `cap_table_create` writes.
unfoldable pub fresh_table : Table
fresh_table = record {
  slots = λ i. record {
    object = no_object;
    rights = 0;
    generation = 1;
    parent = no_parent;
    used = false;
  };
  used = 0;
}

-- `pack`: `generation << AF_CAP_INDEX_BITS` is cut to 32 bits.
unfoldable pub pack : ℕ → ℕ → ℕ
pack index generation = bit_or (generation * 2 ^ 8 % 2 ^ 32) (bit_and index index_mask)

unfoldable pub unpack_index : ℕ → ℕ
unpack_index cap = bit_and cap index_mask

unfoldable pub unpack_generation : ℕ → ℕ
unpack_generation cap = cap / 2 ^ 8

-- `resolve`. The slot that the pointer returned points to is given by its index; `none` is NULL.
unfoldable pub resolve : Table → ℕ → Option ℕ
resolve t cap =
    let index = unpack_index cap in
    if cap == cap_invalid_handle
    then none
    else if index == 0 || leb max_slots index
    then none
    else if not (t.slots index).used
    then none
    else if not ((t.slots index).generation == unpack_generation cap)
    then none
    else some index
