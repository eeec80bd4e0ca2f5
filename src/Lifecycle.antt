-- ===== src/Lifecycle.antt =====
-- src/memory.cpp: creating and destroying a machine, and registering memory-mapped windows.
use v4_engine.Base.{
  ℕ, zero, suc, ◌+◌, Option, none, some, leb, ◌==◌, ◌||◌, if◌then◌else◌, update, copy_cells,
  is_negative,
}
use v4_engine.Err.{Err, v4_err}
use v4_engine.Arena.{Arena}
use v4_engine.Task.{zero_scheduler}
use v4_engine.Message.{empty_queue}
use v4_engine.Vm.{Vm, Env, Mmio, Word, max_mmio}

-- VmConfig. `mmio_count` is an `int`.
pub record VmConfig (W : Type 0) : Type 0 where
  pub mem : Option (ℕ → ℕ)
  pub mem_size : ℕ
  pub mmio : Option (ℕ → Mmio W)
  pub mmio_count : ℕ
  pub arena : Option Arena

module _ (W : Type 0) where
  abbrev pub zero_mmio : Mmio W
  zero_mmio = record { base = 0; size = 0; read32 = none; write32 = none }

abbrev pub zero_word : Word
zero_word = record { name = none; code = none; code_len = 0 }

module _ {W : Type 0} where
  -- The number of windows taken from the configuration: at most the table's capacity.
  unfoldable pub config_count : Option (ℕ → Mmio W) → ℕ → ℕ
  config_count none n = 0
  config_count (some mmio) n =
      if is_negative n || n == 0 then 0 else if leb n max_mmio then n else max_mmio

  unfoldable pub config_table : Option (ℕ → Mmio W) → ℕ → ℕ → Mmio W
  config_table none n = λ _. zero_mmio W
  config_table (some mmio) n = copy_cells (λ _. zero_mmio W) mmio n

  -- The fields of a fresh machine: memset to 0, vm_reset, then the configuration.
  unfoldable pub fresh_vm : VmConfig W → W → Vm W
  unfolding config_count config_table
  fresh_vm cfg world = record {
    ds = λ _. 0;
    rs = λ _. 0;
    sp = 0;
    rp = 0;
    fp = none;
    mem = cfg.mem;
    mem_size = cfg.mem_size;
    mmio = config_table cfg.mmio (config_count cfg.mmio cfg.mmio_count);
    mmio_count = config_count cfg.mmio cfg.mmio_count;
    last_err = 0;
    words = λ _. zero_word;
    word_count = 0;
    arena = cfg.arena;
    scheduler = zero_scheduler;
    msg_queue = empty_queue;
    panic_handler = none;
    world = world;
  }

  -- vm_create at a configuration that is not null, `bytes` being sizeof(Vm); `none` is a null pointer.
  unfoldable pub vm_create : Env W → ℕ → VmConfig W → W → Option (Vm W)
  unfolding fresh_vm
  vm_create env bytes cfg world =
      let r = env.malloc world bytes in if r.met then some (fresh_vm cfg r.world) else none

  -- The loop of vm_register_mmio at entry `i`, with `n` entries left: it breaks at a full table.
  unfoldable pub append_mmio : (ℕ → Mmio W) → ℕ → ℕ → Vm W → ℕ × Vm W
  append_mmio list zero i vm = (i, vm)
  append_mmio list (suc n) i vm =
      let rest = append_mmio list n (i + 1) (record vm {
        mmio = update vm.mmio vm.mmio_count (list i);
        mmio_count = vm.mmio_count + 1;
      }) in
      if leb max_mmio vm.mmio_count then (i, vm) else rest

  -- vm_register_mmio at pointers that are not null: the code and the machine afterwards. `count` is an `int`.
  unfoldable pub vm_register_mmio : (ℕ → Mmio W) → ℕ → Vm W → ℕ × Vm W
  unfolding append_mmio
  vm_register_mmio list count vm =
      let (appended, vm') = append_mmio list count 0 vm in
      if is_negative count || count == 0
      then (v4_err Err.invalid_arg, vm)
      else (if appended == count then v4_err Err.no_error else v4_err Err.invalid_arg, vm')

  -- The loop of vm_destroy at word `i`, with `n` words left; `free` of a null pointer is not called.
  unfoldable pub free_names : (W → W) → (ℕ → Word) → ℕ → ℕ → W → W
  free_names free words zero i w = w
  free_names free words (suc n) i w =
      free_names free words n (i + 1) (elim (words i).name [ none ↦ w | some name ↦ free w ])

  unfoldable pub free_owned : (W → W) → Option Arena → Vm W → W
  unfolding free_names
  free_owned free none vm = free_names free vm.words vm.word_count 0 vm.world
  free_owned free (some a) vm = vm.world

  -- vm_destroy at a vm that is not null: what is left outside it. `free` is the C library's, at any block.
  unfoldable pub vm_destroy : (W → W) → Vm W → W
  unfolding free_owned
  vm_destroy free vm = free (free_owned free vm.arena vm)
