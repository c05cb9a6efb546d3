-- ===== src/Relay/Whole.antt =====
-- A connection of the relay from the first byte of the request on.
use cpp_code_blocks.Prelude.{
  ℕ, ◌≡◌, ◌∙◌, ap, refl, Bool, true, false, List, [], ◌∷◌, ◌++◌, Option, none, some, ◌>>=◌,
}
use cpp_code_blocks.Relay.Request.{Buffers, BufferLaws, ServerConnMeta}
use cpp_code_blocks.Relay.Messages.{Cipher, Appends, Action, Connection, receive}
use cpp_code_blocks.Relay.Segments.{AppendLaws, AllWaiting, Holds, joined, receive-IsAccepted}
use cpp_code_blocks.Relay.Tunnels.{
  Encrypts, Link, Event, resolved, happen, resolve_callback, happen_all,
}
use cpp_code_blocks.Relay.Streams.{
  gather, relayed_by, replied_by, TakeLaws, client_messages, host_messages, IsTraffic, Crypts,
  tunnel_of, live, vector,
}
use cpp_code_blocks.Relay.Carried.{happen_all-IsCarried}

module _ {buffers : Buffers} (laws : BufferLaws buffers) (appends : Appends buffers)
    (more : AppendLaws laws appends) (takes : TakeLaws laws appends) (cipher : Cipher)
    (resolve : List ℕ → Bool) (encrypts : Encrypts cipher) where
  abbrev Conn : Type 0
  Conn = Connection appends cipher resolve

  abbrev pub new_connection : Conn
  new_connection = record { input = []; meta = none; context = false; actions = [] }

  abbrev pub unlinked : Conn → Link appends cipher resolve
  unlinked c = record { connection = c; tunnel = none; listed = false; erased = none }

  -- The request in its messages, the answer of the resolver, and what follows.
  abbrev pub whole :
      List (List ℕ)
      → (ip : List ℕ) → List (Event appends cipher resolve)
      → Option (Link appends cipher resolve)
  whole messages ip events = receive appends cipher resolve messages new_connection >>= λ c.
      happen_all appends cipher resolve encrypts (resolved ip ∷ events) (unlinked c)

  -- Where the connection ends: what went to the host or waits for it, and what went to the client.
  pub record IsRelayed (out back : List ℕ) (result : Option (Link appends cipher resolve))
      : Type 0 where
    pub last : ServerConnMeta buffers
    pub decryptor : cipher.Encryptor
    pub context : Bool
    pub done : List Action
    pub final : Link appends cipher resolve
    pub ends : result ≡ some final
    pub actions_of : final.connection.actions ≡ done
    pub meta_of : final.connection.meta ≡ some (last, decryptor)
    pub to_host : gather relayed_by done ++ laws.contents last.buf ≡ out
    pub to_client : gather replied_by done ≡ back

  -- A client of the relay sends its request in any number of messages, the resolver finds the host, the
  -- cipher is set up both ways, and then messages come from both sides while the connections come and go: no
  -- assertion fails, and the bytes that go to the host, or wait for it, are those behind the
  -- request and then just what the client's later messages decrypt to, in order; what goes to the client is
  -- the initialization vector, once, and the host's messages encrypted, while the tunnel has its
  -- callbacks. No later message is empty, and the cipher takes all of them.
  pub whole-IsRelayed :
      (ds : List (List ℕ)) (message host rest ip : List ℕ) (port : ℕ)
      (events : List (Event appends cipher resolve)) (out back : List ℕ)
      → AllWaiting laws appends more cipher resolve [] ds
      → (h : Holds laws appends more cipher resolve
          (joined laws appends more cipher resolve [] ds ++ message)
          (some (host, port, rest)))
      → resolve host ≡ true
      → (e : cipher.Encryptor) → encrypts.init_mixed h.decryptor ≡ some e
      → IsTraffic laws appends cipher resolve events
      → Crypts laws appends cipher resolve h.decryptor
          (client_messages laws appends cipher resolve events)
          out
      → Crypts laws appends cipher resolve e
          (host_messages laws appends cipher resolve true events)
          back
      → IsRelayed
          (rest ++ out)
          (vector laws appends cipher resolve encrypts false e
              (host_messages laws appends cipher resolve true events)
            ++ back)
          (whole (ds ++ message ∷ []) ip events)
  unfolding happen_all happen resolve_callback
  whole-IsRelayed ds message host rest ip port events out back waiting h known e mixed traffic
        client hosts =
      let a =
        receive-IsAccepted laws appends more cipher resolve ds message new_connection host port rest
          refl waiting h known in
      let carried =
        happen_all-IsCarried laws appends more takes cipher resolve encrypts events a.m h.decryptor
          false (Action.resolves host ∷ Action.connects ip a.m.dst_port ∷ []) false true e true none
          out back traffic client hosts in
      record {
        last = carried.last;
        decryptor = carried.decryptor;
        context = carried.context;
        done = carried.done;
        final =
            live laws appends cipher resolve carried.last carried.decryptor carried.context
              carried.done carried.tunnel carried.listed carried.erased;
        ends =
            ap
              (λ o. o >>= λ c.
                happen_all appends cipher resolve encrypts (resolved ip ∷ events) (unlinked c))
              a.ends
            ∙ ap
                (λ o.
                  o
                  >>= (λ x. some (
                      live laws appends cipher resolve a.m h.decryptor false
                        (Action.resolves host ∷ Action.connects ip a.m.dst_port ∷ [])
                        (tunnel_of laws appends cipher resolve false true x) true none))
                  >>= happen_all appends cipher resolve encrypts events)
                mixed
            ∙ carried.runs;
        actions_of = refl;
        meta_of = refl;
        to_host = carried.to_host ∙ ap (λ x. x ++ out) a.rest_of;
        to_client = carried.to_client;
      }
