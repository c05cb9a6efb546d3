-- ===== src/Session/Interleaving.antt =====
-- Every interleaving of the threads that use a session.
use cpp_code_blocks.Prelude.{ℕ, ◌<◌, ◌≡◌, List, [], length}
use cpp_code_blocks.Session.Defs.{Ikcp}
use cpp_code_blocks.Session.Writes.{Laws}
use cpp_code_blocks.Session.Reading.{Inbound, Reader}
use cpp_code_blocks.Session.View.{ReceiveLaws, NoneEmpty}
use cpp_code_blocks.Session.Threads.{Shared, Step, steps}
use cpp_code_blocks.Session.Order.{Write, by, queued, IsOrdered, AllShort}

module _ {ikcp : Ikcp} (inbound : Inbound ikcp) (reader : Reader) (Address : Type 0) where
  abbrev Q : Type 0
  Q = Shared inbound reader Address

  abbrev waiting : Q → List Write
  waiting q = queued inbound reader Address q.tasks

  module _ (laws : Laws ikcp) (receives : ReceiveLaws inbound) (fuel : ℕ)
      (full : (cb : ikcp.Cb) → NoneEmpty (receives.available cb))
      (few : (cb : ikcp.Cb) → length (receives.available cb) < fuel) where
    -- Nothing is queued by the loop's own thread, and nothing too large.
    abbrev IsForeign : Q → Type 0
    IsForeign q = (by 0 (waiting q) ≡ []) × AllShort inbound reader Address laws (waiting q)

    abbrev Steps : Type 0
    Steps = List (ℕ × Step inbound reader Address)

    abbrev Ordered : Q → Steps → Type 0
    Ordered q later =
        IsOrdered inbound reader Address q later (steps inbound reader Address fuel later q)
