-- ===== src/Relay/Segments.antt =====
-- A request may come in any number of messages.
use cpp_code_blocks.Prelude.{
  ℕ, ◌<◌, ◌≡◌, ◌∙◌, ap, subst, refl, ◌⊎◌, inl, inr, Bool, true, List, [], ◌∷◌, ◌++◌, Option, none,
  some, ltb, ◌==◌, if◌then◌else◌, ◌>>=◌, length, take, drop, arith, chosen, passed_over,
}
use cpp_code_blocks.Relay.Request.{Buffers, BufferLaws, ServerConnMeta, parse_request}
use cpp_code_blocks.Relay.Grammar.{Request, request_of}
use cpp_code_blocks.Relay.Parsing.{Answers, parse_request-request_of}
use cpp_code_blocks.Relay.Messages.{
  Cipher, Appends, Action, Connection, act, new_meta, parsed, decrypted, first_message, by_meta,
  on_server_message, receive,
}

module _ {buffers : Buffers} (laws : BufferLaws buffers) (appends : Appends buffers) where
  pub record AppendLaws : Type 0 where
    pub starts : laws.contents appends.empty ≡ []
    pub grows :
        (b : buffers.Buffer) (xs : List ℕ)
        → laws.contents (appends.append b xs) ≡ laws.contents b ++ xs

  module _ (more : AppendLaws) (cipher : Cipher) (resolve : List ℕ → Bool) where
    abbrev Conn : Type 0
    Conn = Connection appends cipher resolve

    -- What the bytes of a connection hold so far, behind the initialization vector.
    pub record Holds (bytes : List ℕ) (request : Option Request) : Type 0 where
      pub fresh : cipher.Encryptor
      pub decryptor : cipher.Encryptor
      pub out : List ℕ
      pub long : cipher.iv_length < length bytes
      pub inits : cipher.init (take cipher.iv_length bytes) ≡ some fresh
      pub updates : cipher.update fresh (drop cipher.iv_length bytes) ≡ some (decryptor, out)
      pub asks : request_of out ≡ request

    -- No request yet.
    abbrev pub IsWaiting : List ℕ → Type 0
    IsWaiting bytes = (length bytes < cipher.iv_length) ⊎ Holds bytes none

    abbrev pub AllWaiting : List ℕ → List (List ℕ) → Type 0
    AllWaiting bytes [] = Unit {0}
    AllWaiting bytes (d ∷ ds) = IsWaiting (bytes ++ d) × AllWaiting (bytes ++ d) ds

    abbrev pub joined : List ℕ → List (List ℕ) → List ℕ
    joined bytes [] = bytes
    joined bytes (d ∷ ds) = joined (bytes ++ d) ds

    -- `ParseRequest` on the bytes decrypted.
    fresh_Answers :
        (out : List ℕ)
        → Answers laws
            (request_of out)
            (parse_request buffers (new_meta appends cipher resolve out))
    fresh_Answers out =
        let m = new_meta appends cipher resolve out in
        let same : laws.contents m.buf ≡ out =
          more.grows appends.empty out ∙ ap (λ l. l ++ out) more.starts in
        subst (λ l. Answers laws (request_of l) (parse_request buffers m)) same
          (parse_request-request_of laws m refl)

    first-Holds :
        (c : Conn) (request : Option Request) (h : Holds c.input request)
        → first_message appends cipher resolve c ≡ (
            parse_request buffers (new_meta appends cipher resolve h.out) >>= λ r.
            some (parsed appends cipher resolve h.decryptor c r))
    unfolding first_message
    first-Holds c request h =
        passed_over (ltb (length c.input) cipher.iv_length) _ _ (ground (arith, h.long))
        ∙ passed_over (length c.input == cipher.iv_length) _ _ (ground (arith, h.long))
        ∙ ap
            (λ o. o >>= λ d.
              decrypted appends cipher resolve c (cipher.update d (drop cipher.iv_length c.input)))
            h.inits
        ∙ ap (decrypted appends cipher resolve c) h.updates

    held_Answers :
        (c : Conn) (request : Option Request) (h : Holds c.input request)
        → Answers laws request (parse_request buffers (new_meta appends cipher resolve h.out))
    held_Answers c request h =
        subst (λ q. Answers laws q (parse_request buffers (new_meta appends cipher resolve h.out)))
          h.asks (fresh_Answers h.out)

    waits :
        (c : Conn)
        → c.meta ≡ none
        → IsWaiting c.input
        → on_server_message appends cipher resolve c ≡ some c
    unfolding on_server_message first_message
    waits c new (inl short) =
        ap (by_meta appends cipher resolve c) new
        ∙ chosen (ltb (length c.input) cipher.iv_length) _ _ (ground (arith, short))
    waits c new (inr h) =
        let answer = held_Answers c none h in
        ap (by_meta appends cipher resolve c) new
        ∙ first-Holds c none h
        ∙ ap (λ o. o >>= λ r. some (parsed appends cipher resolve h.decryptor c r)) answer.1

    -- The request has been taken: the host's address is asked for, the connection has the decryptor, and
    -- the buffer what is behind the request.
    pub record IsAccepted (c : Conn) (host : List ℕ) (port : ℕ) (rest : List ℕ)
        (decryptor : cipher.Encryptor) (result : Option Conn) : Type 0 where
      pub m : ServerConnMeta buffers
      pub ends :
          result
          ≡ some (record c {
            input = [];
            meta = some (m, decryptor);
            actions = c.actions ++ Action.resolves host ∷ [];
          })
      pub host_of : m.dst_hostname ≡ host
      pub port_of : m.dst_port ≡ port
      pub rest_of : laws.contents m.buf ≡ rest

    -- What `resolve` on a host comes to.
    abbrev asks_for : ServerConnMeta buffers → cipher.Encryptor → Conn → List ℕ → Conn
    asks_for m decryptor c host =
        let asked = act appends cipher resolve (Action.resolves host) c in
        if resolve host
        then record asked { input = []; meta = some (m, decryptor) }
        else act appends cipher resolve Action.shuts_down asked

    accepts :
        (c : Conn) (host : List ℕ) (port : ℕ) (rest : List ℕ)
        → c.meta ≡ none
        → (h : Holds c.input (some (host, port, rest))) → resolve host ≡ true
        → IsAccepted c host port rest h.decryptor (on_server_message appends cipher resolve c)
    unfolding on_server_message
    accepts c host port rest new h known =
        let (m, parses, over, named, numbered, left) = held_Answers c (some (host, port, rest)) h in
        record {
          m = m;
          ends =
              ap (by_meta appends cipher resolve c) new
              ∙ first-Holds c (some (host, port, rest)) h
              ∙ ap (λ o. o >>= λ r. some (parsed appends cipher resolve h.decryptor c r)) parses
              ∙ ap (λ x. some (asks_for m h.decryptor c x)) named
              ∙ ap some (chosen (resolve host) _ _ known);
          host_of = named;
          port_of = numbered;
          rest_of = left;
        }

    -- A request that the client sends in any number of messages, encrypted behind the initialization
    -- vector, where no message but the last completes it, and none ends with the vector, whose
    -- assertion would fail: the relay waits, and at the last message asks for the address of the host
    -- that the grammar finds in all the bytes decrypted at once, just once, keeps the port, and has
    -- what is behind the request in its buffer. The cipher decrypts these bytes, the resolver takes the
    -- host, and `append` adds to the end of a buffer.
    pub receive-IsAccepted :
        (ds : List (List ℕ)) (last : List ℕ) (c : Conn) (host : List ℕ) (port : ℕ) (rest : List ℕ)
        → c.meta ≡ none
        → AllWaiting c.input ds
        → (h : Holds (joined c.input ds ++ last) (some (host, port, rest))) → resolve host ≡ true
        → IsAccepted c host port rest h.decryptor
            (receive appends cipher resolve (ds ++ last ∷ []) c)
    unfolding receive
    receive-IsAccepted [] last c host port rest new waiting h known =
        let a = accepts (record c { input = c.input ++ last }) host port rest new h known in
        record {
          m = a.m;
          ends = ap (λ o. o >>= receive appends cipher resolve []) a.ends;
          host_of = a.host_of;
          port_of = a.port_of;
          rest_of = a.rest_of;
        }
    receive-IsAccepted (d ∷ ds) last c host port rest new (waiting, later) h known =
        let next : Conn = record c { input = c.input ++ d } in
        let a = receive-IsAccepted ds last next host port rest new later h known in
        record {
          m = a.m;
          ends =
              ap (λ o. o >>= receive appends cipher resolve (ds ++ last ∷ []))
                (waits next new waiting)
              ∙ a.ends;
          host_of = a.host_of;
          port_of = a.port_of;
          rest_of = a.rest_of;
        }
