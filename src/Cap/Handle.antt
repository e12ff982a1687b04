-- ===== src/Cap/Handle.antt =====
-- The handles of kernel/core/cap.c: packing, and what `resolve` accepts.
use afriyie_os.Common.{ℕ, ◌+◌, ◌*◌, ◌/◌, ◌%◌, ◌^◌, ◌<◌, ◌≡◌, true, some, arith}
use afriyie_os.Common.Bits.{bit_or-shifted, bit_and-low_byte}
use afriyie_os.Cap.Table.{Table, pack, unpack_index, unpack_generation, resolve}

pub unpack_index_lem : (h : ℕ) → unpack_index h ≡ h % 256
unfolding unpack_index
unpack_index_lem h = bit_and-low_byte h

-- The word that `pack` makes: 24 bits of the generation above the index.
pub pack_lem : (i g : ℕ) → pack i g ≡ g % 2 ^ 24 * 256 + i % 256
unfolding pack
pack_lem i g = ground (arith, bit_and-low_byte i, bit_or-shifted 8 (g % 2 ^ 24) (i % 256))

pub pack-lt : (i g : ℕ) → pack i g < 2 ^ 32
pack-lt i g = omega (arith, pack_lem i g)

-- A handle of 32 bits is the packing of its own two parts.
pub pack-unpack : (h : ℕ) → h < 2 ^ 32 → pack (unpack_index h) (unpack_generation h) ≡ h
unfolding unpack_generation
pack-unpack h small =
    omega (arith, pack_lem (unpack_index h) (unpack_generation h), unpack_index_lem h)

pub unpack_index-pack : (i g : ℕ) → i < 256 → unpack_index (pack i g) ≡ i
unpack_index-pack i g h = omega (arith, unpack_index_lem (pack i g), pack_lem i g)

pub unpack_generation-pack : (i g : ℕ) → i < 256 → unpack_generation (pack i g) ≡ g % 2 ^ 24
unfolding unpack_generation
unpack_generation-pack i g h = omega (arith, pack_lem i g)

-- What a handle that resolves has gone through.
pub record Resolves (t : Table) (h i : ℕ) : Type 0 where
  pub index : i ≡ h % 256
  pub above : 0 < i
  pub below : i < 256
  pub live : (t.slots i).used ≡ true
  pub current : (t.slots i).generation ≡ h / 256

pub resolve-Resolves : (t : Table) (h i : ℕ) → resolve t h ≡ some i → Resolves t h i
unfolding resolve unpack_generation
resolve-Resolves t h i e = ground (arith, unpack_index_lem h)

pub Resolves-resolve : (t : Table) (h i : ℕ) → Resolves t h i → resolve t h ≡ some i
unfolding resolve unpack_generation
Resolves-resolve t h i r = ground (arith, unpack_index_lem h)

-- A handle made for a slot in use resolves to that slot if the generation fits 24 bits.
pub resolve-pack :
    (t : Table) (i : ℕ)
    → 0 < i
    → i < 256
    → (t.slots i).used ≡ true
    → (t.slots i).generation < 2 ^ 24
    → resolve t (pack i (t.slots i).generation) ≡ some i
resolve-pack t i lo hi live fits =
    Resolves-resolve t (pack i (t.slots i).generation) i
      (ground (arith, pack_lem i (t.slots i).generation))
