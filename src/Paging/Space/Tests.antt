-- ===== src/Paging/Space/Tests.antt =====
-- A process without pages shrinks.
use osassignment.Prelude.{◌≢◌, none, [], fault, arith}
use osassignment.Fs.Io.Pages.{disk_file}
use osassignment.Fs.Io.Tests.{wide, wide-IsLaidOut, eight_blocks}
use osassignment.Fs.Tests.{no_devices}
use osassignment.Paging.Meta.{reset_paging_meta}
use osassignment.Paging.Swap.{Vm}
use osassignment.Paging.Swap.File.{SwapFile}
use osassignment.Paging.Space.{deallocuvm}
use osassignment.Paging.Space.Ends.{deallocuvm-ne-fault}

abbrev page_file : SwapFile
page_file = disk_file wide no_devices wide-IsLaidOut

abbrev empty_vm : Vm 0x8010_0000 page_file
empty_vm = record {
  pgdir = λ i. none;
  paging = reset_paging_meta;
  swap_file = eight_blocks;
  num_pageouts = 0;
  kmem = record { freelist = []; frames = λ a i. 0 };
}

deallocuvm-ne-fault_example : deallocuvm 0x8010_0000 page_file empty_vm 0x50_0000 8192 ≢ fault
deallocuvm-ne-fault_example =
    deallocuvm-ne-fault 0x8010_0000 page_file empty_vm 0x50_0000 8192 (omega arith)
