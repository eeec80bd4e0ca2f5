-- ===== src/Tests/Arena.antt =====
-- A block of 10 bytes at an alignment of 8, from an arena of 64 bytes at 4096 with 3 used.
use v4_engine.Base.{some, ℕ, ◌+◌, ◌*◌, ◌≤◌, ◌<◌, ◌≡◌, ◌⊎◌, refl, none, some, arith}
use v4_engine.Arena.{Arena, arena_alloc}
use v4_engine.Arena.Blocks.{arena_alloc_block}
use v4_engine.Arena.Mask.{two_power}

abbrev small_arena : Arena
small_arena = record { buffer = some 4096; size = 64; used = 3 }

arena_alloc_block_example :
    ((p : ℕ) × (arena_alloc small_arena 10 (two_power 3)
        ≡ (some (4096 + p), record small_arena { used = p + 10 }))
      × ((count : ℕ) × (p ≡ count * two_power 3))
      × ((start : ℕ) → 4096 ≡ start * two_power 3 → (count : ℕ) × (4096 + p ≡ count * two_power 3))
      × (3 ≤ p)
      × (p < 3 + two_power 3)
      × (p + 10 ≤ 64))
    ⊎ ((arena_alloc small_arena 10 (two_power 3) ≡ (none, small_arena))
        × (64 + 1 < 3 + two_power 3 + 10))
unfolding two_power
arena_alloc_block_example =
    arena_alloc_block small_arena 4096 10 3 refl (omega arith) (omega arith) (omega arith)
