-- ===== src/Fifo/Tests.antt =====
-- The list of bytes as the queue.
use cse522s.Base.{◌≡◌, refl, false, some, if◌then◌else◌, pos, negsuc}
use cse522s.Fifo.{list_fifo}
use cse522s.Fifo.Example.{example_init}
use cse522s.Fifo.Passes.{example_init-passes}

example_init-passes_example :
    example_init (list_fifo 32) false ≡ some (if false then pos 0 else negsuc 11)
example_init-passes_example = example_init-passes (list_fifo 32) false refl
