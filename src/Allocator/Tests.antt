-- ===== src/Allocator/Tests.antt =====
-- The allocator (core/allocator.go) on a host with 8 processors and 4096 MiB.
use dvf.Prelude.{◌+◌, ◌-◌, ◌^◌, ◌≡◌, ◌⊎◌, refl, [], ◌∷◌, true, false, arith}
use dvf.Prelude.Int.{pos, ◌<ℤ◌}
use dvf.Allocator.{ResourceBudget, try_acquire}
use dvf.Allocator.Ledger.{
  Hold, request, sum_cpus, sum_mem_mb, Accounts, try_acquire-Accounts, try_acquire_wraps,
}

abbrev pub small : Hold
small = record { cpus = 2; mem_mb = 1024 }

abbrev pub large : Hold
large = record { cpus = 4; mem_mb = 2048 }

abbrev pub host : ResourceBudget
host = record {
  total_cpus = pos 8;
  total_mem_mb = pos 4096;
  used_cpus = pos 6;
  used_mem_mb = pos 3072;
}

pub host-Accounts : Accounts (small ∷ large ∷ []) host
host-Accounts = record {
  cpus = refl;
  mem_mb = refl;
  cpus_fit = omega arith;
  mem_mb_fit = omega arith;
  cpus_int = omega arith;
  mem_mb_int = omega arith;
}

try_acquire-Accounts_example :
    (((try_acquire (request large) host).1 ≡ true)
      × Accounts (large ∷ small ∷ large ∷ []) (try_acquire (request large) host).0)
    ⊎ ((try_acquire (request large) host ≡ (host, false))
        × ((host.total_cpus <ℤ pos (sum_cpus (small ∷ large ∷ []) + large.cpus))
            ⊎ (host.total_mem_mb <ℤ pos (sum_mem_mb (small ∷ large ∷ []) + large.mem_mb))))
try_acquire-Accounts_example =
    try_acquire-Accounts large (small ∷ large ∷ []) host host-Accounts (omega arith)

abbrev busy : ResourceBudget
busy = record { total_cpus = pos 8; total_mem_mb = pos 0; used_cpus = pos 4; used_mem_mb = pos 0 }

try_acquire_wraps_example :
    ((try_acquire (record { cpus = pos (2 ^ 63 - 1); mem_mb = pos 0 }) busy).1 ≡ true)
    × ((try_acquire (record { cpus = pos (2 ^ 63 - 1); mem_mb = pos 0 }) busy).0.used_cpus <ℤ pos 0)
try_acquire_wraps_example =
    try_acquire_wraps 4 (2 ^ 63 - 1) 8 0 busy refl (omega arith) (omega arith) (omega arith)
      (omega arith)
