-- ===== src/Machines/Adapter/Tests.antt =====
-- A machine that the adapter (cmd/orchestrator/main.go) starts and stops.
use dvf.Prelude.{refl}
use dvf.Prelude.Int.{pos}
use dvf.Store.{MemoryStore, Format}
use dvf.Store.Tests.{stored}
use dvf.Machines.{memory_vms}
use dvf.Machines.Life.{good_boot}
use dvf.Machines.Adapter.{Adapter, adapter_start, adapter_stop}
use dvf.Machines.Adapter.Wired.{
  IsWired, Reach, new_adapter, starts, stops, here, later, Reach-IsWired,
}

abbrev format : Format
format = λ prefix n. "x"

abbrev finished : Adapter MemoryStore
finished =
    (adapter_stop (memory_vms format) "vm-1"
      (adapter_start (memory_vms format) "vm-1" (good_boot (pos 78))
        (new_adapter (memory_vms format) stored)).0).0

finished-Reach : Reach (memory_vms format) (new_adapter (memory_vms format) stored) finished
finished-Reach = later (later here (starts "vm-1" (good_boot (pos 78)) refl)) (stops "vm-1")

Reach-IsWired_example : IsWired finished
Reach-IsWired_example = Reach-IsWired (memory_vms format) stored finished finished-Reach
