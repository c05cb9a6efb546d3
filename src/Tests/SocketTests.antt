-- ===== src/Tests/SocketTests.antt =====
-- A socket on a concrete system.
use cpp_code_blocks.Prelude.{
  ℕ, ◌+◌, ◌==◌, arith, ◌≡◌, refl, true, false, List, [], ◌∷◌, none, some, ltb, if◌then◌else◌,
  length,
}
use cpp_code_blocks.Prelude.Int.{pos, negsuc}
use cpp_code_blocks.Socket.Io.{Call, returned, failed, System, Addresses, new_socket, af_inet}
use cpp_code_blocks.Socket.Setup.{connect, bind}
use cpp_code_blocks.Server.Listen.{listen}
use cpp_code_blocks.Server.Listening.{listen-IsEnding}
use cpp_code_blocks.Socket.Tidy.{live, opened, new_socket-IsTidy}
use cpp_code_blocks.Socket.Methods.{Method}
use cpp_code_blocks.Socket.Endings.{IsEnding, IsOpening, connect_and_bind-IsOpening}
use cpp_code_blocks.Socket.Random.{Reads, IsBounded, IsFilled, rand_bytes, rand_bytes-IsFilled}
use cpp_code_blocks.Socket.Retries.{IsRetried, handle_eintr-IsRetried}

-- An address is the bytes of its socket address; all are of IPv4.
abbrev inet : Addresses
inet = record {
  Address = List ℕ;
  family = λ a. af_inet;
  sock_addr = λ a. a;
  of_sock_addr = λ a. a;
  is_multicast = λ a. false;
}

-- Descriptors from 3 on, and three interrupted calls of `connect`, before one that succeeds.
abbrev system : System
system h (Call.socket family) = returned (3 + length h) []
system h (Call.connect fd address) = if ltb (length h) 4 then failed 3 else returned 0 []
system h (Call.bind fd address) = failed 97
system h _ = returned 0 []

abbrev home : List ℕ
home = 2 ∷ 0 ∷ 127 ∷ 0 ∷ 0 ∷ 1 ∷ []

connected : (connect system home (new_socket inet)).0 ≡ some (pos 0)
unfolding connect
connected = refl

unbound : (bind system home (new_socket inet)).0 ≡ some (negsuc 97)
unfolding bind
unbound = refl

abbrev methods : List (Method inet)
methods =
    Method.allows (λ o. record o { reuse_address = true })
    ∷ Method.connects home
    ∷ Method.sends_to (7 ∷ 8 ∷ []) none 0
    ∷ Method.closes
    ∷ Method.sends_to (7 ∷ 8 ∷ []) none 0
    ∷ []

connect_and_bind-IsOpening_example :
    IsOpening system af_inet (connect system home (new_socket inet))
    × IsOpening system af_inet (bind system home (new_socket inet))
connect_and_bind-IsOpening_example =
    connect_and_bind-IsOpening system home (new_socket inet) refl refl new_socket-IsTidy

handle_eintr-IsRetried_example : IsRetried system (Call.connect (some 3) home) 100 (new_socket inet)
handle_eintr-IsRetried_example =
    handle_eintr-IsRetried system (Call.connect (some 3) home) 100 (new_socket inet)

-- A system on which every call succeeds.
abbrev willing : System
willing h (Call.socket family) = returned (3 + length h) []
willing h (Call.getsockname fd) =
    returned 0 (2 ∷ 0 ∷ 127 ∷ 0 ∷ 0 ∷ 1 ∷ 0 ∷ 0 ∷ 0 ∷ 0 ∷ 0 ∷ 0 ∷ 0 ∷ 0 ∷ 0 ∷ 0 ∷ [])
willing h _ = returned 0 []

listens : (listen willing home (new_socket inet)).0 ≡ some (pos 0)
unfolding listen
listens = refl

listen-IsEnding_example :
    IsEnding af_inet (listen willing home (new_socket inet))
    × (live (listen willing home (new_socket inet)).1.history
        ≡ opened (listen willing home (new_socket inet)).1.sockfd)
listen-IsEnding_example = listen-IsEnding inet willing home

-- A byte at a time, and an error at the third call.
abbrev reads : Reads
reads call asked = if call == 2 then none else if asked == 0 then some [] else some (7 ∷ [])

reads-IsBounded : IsBounded reads
reads-IsBounded call asked xs e = ground arith

rand_bytes-IsFilled_example : IsFilled 4 (rand_bytes reads 4)
rand_bytes-IsFilled_example = rand_bytes-IsFilled reads reads-IsBounded 4
