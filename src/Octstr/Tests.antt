-- ===== src/Octstr/Tests.antt =====
-- Small octet strings, the destination as one of the arguments.
use crypti.Run.{Ensures}
use crypti.Base.{ltb, if◌then◌else◌, arith, length}
use crypti.Buffer.Valid.{contents}
use crypti.Buffer.Tests.{zero_alloc, two_held-IsValid, empty_held-IsValid, pair}
use crypti.Octstr.{op_xor, octstr_bitwise}
use crypti.Octstr.Bitwise.{Combined, octstr_bitwise-Combined}

octstr_bitwise-Combined_example : Ensures (octstr_bitwise zero_alloc pair 9 1 1 0 op_xor) (
    if ltb (length (contents (pair 0))) (length (contents (pair 1)))
    then Combined op_xor pair 9 1 0 1
    else Combined op_xor pair 9 1 1 0)
octstr_bitwise-Combined_example =
    octstr_bitwise-Combined zero_alloc pair 9 1 1 0 op_xor two_held-IsValid two_held-IsValid
      empty_held-IsValid (omega arith) (omega arith) (omega arith)
