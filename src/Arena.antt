-- ===== src/Arena.antt =====
-- src/arena.cpp and include/v4/arena.h: the bump allocator. `size_t` has 64 bits; a pointer is an address, `none` a
-- null pointer.
pub mod Mask
pub mod Blocks
use v4_engine.Base.{
  ℕ, ◌+◌, ◌-◌, ◌%◌, ◌^◌, Bool, ◌||◌, not, Option, none, some, bit_and, ltb, ◌==◌, if◌then◌else◌,
}

pub record Arena : Type 0 where
  pub buffer : Option ℕ
  pub size : ℕ
  pub used : ℕ

-- size_t arithmetic.
abbrev pub size_of : ℕ → ℕ
size_of n = n % 2 ^ 64

abbrev pub sub_size : ℕ → ℕ → ℕ
sub_size a b = (a + 2 ^ 64 - b) % 2 ^ 64

-- ~m
abbrev pub complement : ℕ → ℕ
complement m = 2 ^ 64 - 1 - m

pub arena_init : Arena → Option ℕ → ℕ → Arena
arena_init arena buffer size = record { buffer = buffer; size = size; used = 0 }

-- align == 0 || (align & (align - 1)) != 0
unfoldable pub bad_align : ℕ → Bool
bad_align align = align == 0 || not (bit_and align (sub_size align 1) == 0)

-- (current + align - 1) & ~(align - 1)
unfoldable pub align_up : ℕ → ℕ → ℕ
align_up current align =
    bit_and (sub_size (size_of (current + align)) 1) (complement (sub_size align 1))

-- The pointer to the block, and the arena after the call.
unfoldable pub alloc_in : Option ℕ → Arena → ℕ → ℕ → Option ℕ × Arena
alloc_in none arena bytes align = (none, arena)
alloc_in (some buffer) arena bytes align =
    let aligned = align_up arena.used align in
    if bytes == 0
    then (none, arena)
    else if bad_align align
    then (none, arena)
    else if ltb arena.size (size_of (aligned + bytes))
    then (none, arena)
    else (some (buffer + aligned), record arena { used = size_of (aligned + bytes) })

pub arena_alloc : Arena → ℕ → ℕ → Option ℕ × Arena
arena_alloc arena bytes align = alloc_in arena.buffer arena bytes align

pub arena_reset : Arena → Arena
arena_reset arena = record arena { used = 0 }

pub arena_used : Option Arena → ℕ
arena_used none = 0
arena_used (some arena) = arena.used

pub arena_available : Option Arena → ℕ
arena_available none = 0
arena_available (some arena) = sub_size arena.size arena.used
