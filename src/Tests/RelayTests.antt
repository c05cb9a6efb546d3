-- ===== src/Tests/RelayTests.antt =====
-- A request, on buffers that are their readable bytes.
use cpp_code_blocks.Prelude.{
  ℕ, ◌-◌, ◌%◌, inl, inr, Bool, false, map, ◌+◌, ◌*◌, ◌≡◌, ◌∙◌, ap, ap₂, refl, true, List, [], ◌∷◌,
  ◌++◌, Option, none, some, leb, if◌then◌else◌, length, take, drop, length-append, le→leb, chosen,
  arith,
}
use cpp_code_blocks.Packet.Bytes.{take-append, drop-append}
use cpp_code_blocks.Relay.Request.{
  Buffers, BufferLaws, ServerConnMeta, req_addr_type, parse_request,
}
use cpp_code_blocks.Relay.Messages.{Cipher, Appends, Connection, receive}
use cpp_code_blocks.Relay.Segments.{AppendLaws, Holds, IsAccepted, receive-IsAccepted}
use cpp_code_blocks.Relay.Tunnels.{
  Encrypts, Link, Event, client_message, host_connection, host_message, high_water_mark, happen_all,
}
use cpp_code_blocks.Relay.Streams.{TakeLaws, IsCarried, live, tunnel_of}
use cpp_code_blocks.Relay.Whole.{IsRelayed, whole, whole-IsRelayed}
use cpp_code_blocks.Relay.Carried.{happen_all-IsCarried}
use cpp_code_blocks.Relay.Grammar.{request_of}
use cpp_code_blocks.Relay.Parsing.{Answers, parse_request-request_of}

abbrev read_byte : List ℕ → Option (ℕ × List ℕ)
read_byte [] = none
read_byte (x ∷ xs) = some (x, xs)

abbrev read_pair : List ℕ → Option (ℕ × List ℕ)
read_pair (x ∷ y ∷ xs) = some (x * 256 + y, xs)
read_pair _ = none

abbrev retrieve : ℕ → List ℕ → Option (List ℕ × List ℕ)
retrieve n b = if leb n (length b) then some (take n b, drop n b) else none

retrieve-append : (xs ys : List ℕ) → retrieve (length xs) (xs ++ ys) ≡ some (xs, ys)
retrieve-append xs ys =
    let room : leb (length xs) (length (xs ++ ys)) ≡ true =
      le→leb _ _ (omega (arith, length-append xs ys)) in
    chosen (leb (length xs) (length (xs ++ ys))) _ _ room
    ∙ ap₂ (λ a b. some (a, b)) (take-append (length xs) xs ys refl)
        (drop-append (length xs) xs ys refl)

abbrev buffers : Buffers
buffers = record {
  Buffer = List ℕ;
  readable_bytes = length;
  read_int8 = read_byte;
  read_int16 = read_pair;
  retrieve_as_string = retrieve;
}

abbrev buffers_laws : BufferLaws buffers
buffers_laws = record {
  contents = λ b. b;
  counts = λ b. refl;
  reads_int8 = λ b x xs e. (xs, ap read_byte e, refl);
  reads_int16 = λ b x y xs e. (xs, ap read_pair e, refl);
  retrieves = λ b xs ys e. (ys, ap (retrieve (length xs)) e ∙ retrieve-append xs ys, refl);
}

-- A byte that is no type, "ab", port 443, and a byte of payload.
abbrev meta : ServerConnMeta buffers
meta = record {
  state = req_addr_type;
  buf = 0 ∷ 3 ∷ 2 ∷ 97 ∷ 98 ∷ 1 ∷ 187 ∷ 22 ∷ [];
  dst_hostname = [];
  dst_addr_len = 0;
  dst_port = 0;
}

requested : request_of meta.buf ≡ some (97 ∷ 98 ∷ [], 443, 22 ∷ [])
unfolding request_of
requested = refl

parse_request-request_of_example :
    Answers buffers_laws (request_of (buffers_laws.contents meta.buf)) (parse_request buffers meta)
parse_request-request_of_example = parse_request-request_of buffers_laws meta refl

-- A key that shifts each byte, the first byte of an initialization vector of two.
abbrev key_of : List ℕ → Option ℕ
key_of [] = none
key_of (k ∷ rest) = some k

abbrev shifting : Cipher
shifting = record {
  Encryptor = ℕ;
  iv_length = 2;
  init = key_of;
  update = λ k bytes. some (k, map (λ b. (b + 256 - k) % 256) bytes);
}

abbrev appends : Appends buffers
appends = record { empty = []; append = λ b xs. b ++ xs; take_all = λ b. (b, []) }

abbrev more_laws : AppendLaws buffers_laws appends
more_laws = record { starts = refl; grows = λ b xs. refl }

abbrev known_host : List ℕ → Bool
known_host host = true

abbrev accepted : Connection appends shifting known_host
accepted = record { input = []; meta = none; context = false; actions = [] }

-- The vector comes in two messages, and the request in two.
abbrev early : List (List ℕ)
early = (1 ∷ []) ∷ (5 ∷ 4 ∷ 3 ∷ []) ∷ []

abbrev last_message : List ℕ
last_message = 98 ∷ 99 ∷ 2 ∷ 188 ∷ 23 ∷ []

early-Holds : Holds buffers_laws appends more_laws shifting known_host (1 ∷ 5 ∷ 4 ∷ 3 ∷ []) none
unfolding request_of
early-Holds = record {
  fresh = 1;
  decryptor = 1;
  out = 3 ∷ 2 ∷ [];
  long = omega arith;
  inits = refl;
  updates = refl;
  asks = refl;
}

all-Holds :
    Holds buffers_laws appends more_laws shifting known_host
      (1 ∷ 5 ∷ 4 ∷ 3 ∷ 98 ∷ 99 ∷ 2 ∷ 188 ∷ 23 ∷ [])
      (some (97 ∷ 98 ∷ [], 443, 22 ∷ []))
unfolding request_of
all-Holds = record {
  fresh = 1;
  decryptor = 1;
  out = 3 ∷ 2 ∷ 97 ∷ 98 ∷ 1 ∷ 187 ∷ 22 ∷ [];
  long = omega arith;
  inits = refl;
  updates = refl;
  asks = refl;
}

receive-IsAccepted_example :
    IsAccepted buffers_laws appends more_laws shifting known_host accepted
      (97 ∷ 98 ∷ [])
      443
      (22 ∷ [])
      1
      (receive appends shifting known_host (early ++ last_message ∷ []) accepted)
unfolding all-Holds
receive-IsAccepted_example =
    receive-IsAccepted buffers_laws appends more_laws shifting known_host early last_message
      accepted (97 ∷ 98 ∷ []) 443 (22 ∷ []) refl (inl (omega arith), (inr early-Holds, tt))
      all-Holds refl

abbrev takes : TakeLaws buffers_laws appends
takes = record { takes = λ b. refl; leaves = λ b. refl }

abbrev encrypts : Encrypts shifting
encrypts = record { init_mixed = some; iv = λ k. k ∷ 0 ∷ [] }

-- The host's connection comes up behind one message of the client, and goes down in front of the last
-- message of the host.
abbrev traffic : List (Event appends shifting known_host)
traffic =
    client_message (5 ∷ [])
    ∷ host_connection true
    ∷ host_message (9 ∷ 8 ∷ [])
    ∷ client_message (6 ∷ [])
    ∷ host_message (7 ∷ [])
    ∷ high_water_mark
    ∷ host_connection false
    ∷ host_message (4 ∷ [])
    ∷ []

abbrev tunnelled : Link appends shifting known_host
tunnelled =
    live buffers_laws appends shifting known_host (record meta { buf = 22 ∷ [] }) 1 false []
      (tunnel_of buffers_laws appends shifting known_host false true 3) true none

happen_all-IsCarried_example :
    IsCarried buffers_laws appends shifting known_host encrypts
      (record meta { buf = 22 ∷ [] })
      []
      (4 ∷ 5 ∷ [])
      (3 ∷ 0 ∷ 6 ∷ 5 ∷ 4 ∷ [])
      (happen_all appends shifting known_host encrypts traffic tunnelled)
happen_all-IsCarried_example =
    happen_all-IsCarried buffers_laws appends more_laws takes shifting known_host encrypts traffic
      (record meta { buf = 22 ∷ [] }) 1 false [] false true 3 true none (4 ∷ 5 ∷ [])
      (6 ∷ 5 ∷ 4 ∷ []) (omega arith, (omega arith, (omega arith, (omega arith, (omega arith, tt)))))
      (1, 4 ∷ [], 5 ∷ [], refl, (1, 5 ∷ [], [], refl, refl, refl), refl)
      (3, 6 ∷ 5 ∷ [], 4 ∷ [], refl, (3, 4 ∷ [], [], refl, refl, refl), refl)

whole-IsRelayed_example :
    IsRelayed buffers_laws appends more_laws takes shifting known_host encrypts
      (22 ∷ 4 ∷ 5 ∷ [])
      (1 ∷ 0 ∷ 8 ∷ 7 ∷ 6 ∷ [])
      (whole buffers_laws appends more_laws takes shifting known_host encrypts
        (early ++ last_message ∷ [])
        (10 ∷ 0 ∷ 0 ∷ 1 ∷ [])
        traffic)
unfolding all-Holds
whole-IsRelayed_example =
    whole-IsRelayed buffers_laws appends more_laws takes shifting known_host encrypts early
      last_message (97 ∷ 98 ∷ []) (22 ∷ []) (10 ∷ 0 ∷ 0 ∷ 1 ∷ []) 443 traffic (4 ∷ 5 ∷ [])
      (8 ∷ 7 ∷ 6 ∷ []) (inl (omega arith), (inr early-Holds, tt)) all-Holds refl 1 refl
      (omega arith, (omega arith, (omega arith, (omega arith, (omega arith, tt)))))
      (1, 4 ∷ [], 5 ∷ [], refl, (1, 5 ∷ [], [], refl, refl, refl), refl)
      (1, 8 ∷ 7 ∷ [], 6 ∷ [], refl, (1, 6 ∷ [], [], refl, refl, refl), refl)
