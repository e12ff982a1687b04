-- ===== src/Cap/Object.antt =====
-- The objects and the rights of kernel/include/afriyie/cap.h.
use afriyie_os.Common.{ℕ, ◌==◌, Bool}

-- `af_object_type_t`
pub data ObjectType : Type 0 where
  nothing frame endpoint notification file device irq process : ObjectType

-- The values that C gives the enumerators, through which it compares them.
abbrev pub type_code : ObjectType → ℕ
type_code nothing = 0
type_code frame = 1
type_code endpoint = 2
type_code notification = 3
type_code file = 4
type_code device = 5
type_code irq = 6
type_code process = 7

abbrev pub is_type : ObjectType → ObjectType → Bool
is_type a b = type_code a == type_code b

-- `af_object_t`
pub record Object : Type 0 where
  pub type : ObjectType
  pub id : ℕ

-- The rights, a set of bits in an `af_u32`.
abbrev pub right_read : ℕ
right_read = 0x01

abbrev pub right_write : ℕ
right_write = 0x02

abbrev pub right_exec : ℕ
right_exec = 0x04

abbrev pub right_grant : ℕ
right_grant = 0x08

abbrev pub right_revoke : ℕ
right_revoke = 0x10

abbrev pub right_signal : ℕ
right_signal = 0x20

abbrev pub right_wait : ℕ
right_wait = 0x40

abbrev pub right_all : ℕ
right_all = 0x7f
