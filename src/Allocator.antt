-- ===== src/Allocator.antt =====
-- The resource allocator of go-orchestrator/internal/core/allocator.go. Each method is atomic under
-- its mutex. `int` arithmetic wraps at 64 bits. The host's processor count and half of its memory
-- come from runtime.NumCPU and /proc/meminfo and are arguments.
pub mod Ledger
pub mod Tests
use dvf.Prelude.{ℕ, Bool, true, false, ◌&&◌, ◌||◌, if◌then◌else◌}
use dvf.Prelude.Int.{ℤ, pos, negsuc, add64, sub64, ltb_ℤ, leb_ℤ}

pub record Allocation : Type 0 where
  pub cpus : ℤ
  pub mem_mb : ℤ

pub record ResourceBudget : Type 0 where
  pub total_cpus : ℤ
  pub total_mem_mb : ℤ
  pub used_cpus : ℤ
  pub used_mem_mb : ℤ

-- AvailableCPUs and AvailableMemMB
unfoldable pub available_cpus : ResourceBudget → ℤ
available_cpus b = sub64 b.total_cpus b.used_cpus

unfoldable pub available_mem_mb : ResourceBudget → ℤ
available_mem_mb b = sub64 b.total_mem_mb b.used_mem_mb

-- NewResourceAllocator
unfoldable pub new_allocator : ℤ → ℤ → ℤ → ℤ → ResourceBudget
new_allocator num_cpu host_mem_mb cpus mem_mb = record {
  total_cpus = if leb_ℤ cpus (pos 0) then num_cpu else cpus;
  total_mem_mb = if leb_ℤ mem_mb (pos 0) then host_mem_mb else mem_mb;
  used_cpus = pos 0;
  used_mem_mb = pos 0;
}

-- TryAcquire
unfoldable pub try_acquire : Allocation → ResourceBudget → ResourceBudget × Bool
try_acquire a b =
    if ltb_ℤ a.cpus (pos 0) || ltb_ℤ a.mem_mb (pos 0)
    then (b, false)
    else if ltb_ℤ b.total_cpus (add64 b.used_cpus a.cpus)
    then (b, false)
    else if ltb_ℤ b.total_mem_mb (add64 b.used_mem_mb a.mem_mb)
    then (b, false)
    else (
      record b { used_cpus = add64 b.used_cpus a.cpus; used_mem_mb = add64 b.used_mem_mb a.mem_mb },
      true,
    )

clamp : ℤ → ℤ
clamp n = if ltb_ℤ n (pos 0) then pos 0 else n

-- Release
unfoldable pub release : Allocation → ResourceBudget → ResourceBudget
unfolding clamp
release a b = record b {
  used_cpus = clamp (sub64 b.used_cpus a.cpus);
  used_mem_mb = clamp (sub64 b.used_mem_mb a.mem_mb);
}

-- CanFit
unfoldable pub can_fit : Allocation → ResourceBudget → Bool
can_fit a b =
    leb_ℤ (add64 b.used_cpus a.cpus) b.total_cpus
    && leb_ℤ (add64 b.used_mem_mb a.mem_mb) b.total_mem_mb

-- SetTotal
unfoldable pub set_total : ℤ → ℤ → ResourceBudget → ResourceBudget
set_total cpus mem_mb b = record b {
  total_cpus = if ltb_ℤ (pos 0) cpus then cpus else b.total_cpus;
  total_mem_mb = if ltb_ℤ (pos 0) mem_mb then mem_mb else b.total_mem_mb;
}
