-- ===== src/Tests.antt =====
-- Concrete inputs, and the theorems at them.
use cpp_code_blocks.Prelude.{ℕ, ◌+◌, ◌*◌, ◌%◌, List, [], ◌∷◌}
mod PacketTests
mod ServerTests
mod ClientTests
mod SessionTests
mod SocketTests
mod RelayTests
mod WireTests
mod StringsTests
mod GameTests

abbrev adler_loop : ℕ → ℕ → List ℕ → ℕ
adler_loop a b [] = b * 65536 + a
adler_loop a b (x ∷ xs) = adler_loop ((a + x) % 65521) ((b + (a + x) % 65521) % 65521) xs

-- The sum that zlib's `adler32` computes.
abbrev pub adler32 : List ℕ → ℕ
adler32 bytes = adler_loop 1 0 bytes
