-- ===== src/Relay/Grammar.antt =====
-- The grammar of requests.
use cpp_code_blocks.Prelude.{
  ℕ, ◌+◌, ◌*◌, List, [], ◌∷◌, Option, none, some, ltb, ◌==◌, if◌then◌else◌, length, take, drop,
}

-- A request: the name of a host, a port, and the bytes behind them.
abbrev pub Request : Type 0
Request = List ℕ × ℕ × List ℕ

-- At least one byte has to follow the port.
unfoldable pub port_of : List ℕ → List ℕ → Option Request
port_of host (x ∷ y ∷ z ∷ zs) = some (host, x * 256 + y, z ∷ zs)
port_of host _ = none

unfoldable pub host_of : List ℕ → Option Request
unfolding port_of
host_of [] = none
host_of (len ∷ rest) =
    if ltb len (length rest) then port_of (take len rest) (drop len rest) else none

-- Bytes that are no type of address are skipped; 1 and 4, IPv4 and IPv6, are refused.
unfoldable pub request_of : List ℕ → Option Request
unfolding host_of
request_of [] = none
request_of (t ∷ rest) =
    let later = request_of rest in
    if t == 3 then host_of rest else if t == 1 then none else if t == 4 then none else later
