-- ===== src/Relay/Streams.antt =====
-- What the relay sends in the two directions.
use cpp_code_blocks.Prelude.{
  ℕ, ◌≤◌, ◌<◌, ◌≡◌, ◌∙◌, sym, ap, Bool, true, false, List, [], ◌∷◌, ◌++◌, Option, some, length,
  append_assoc, append_nil,
}
use cpp_code_blocks.Relay.Request.{Buffers, BufferLaws, ServerConnMeta}
use cpp_code_blocks.Relay.Messages.{Cipher, Appends, Action}
use cpp_code_blocks.Relay.Tunnels.{
  Encrypts, Tunnel, Link, Event, client_message, resolved, host_connection, host_message,
  high_water_mark,
}

abbrev pub relayed_by : Action → List ℕ
relayed_by (Action.relays bytes) = bytes
relayed_by _ = []

abbrev pub replied_by : Action → List ℕ
replied_by (Action.replies bytes) = bytes
replied_by _ = []

abbrev pub gather : (Action → List ℕ) → List Action → List ℕ
gather f [] = []
gather f (a ∷ later) = f a ++ gather f later

pub gather-snoc :
    (f : Action → List ℕ) (before : List Action) (a : Action)
    → gather f (before ++ a ∷ []) ≡ gather f before ++ f a
gather-snoc f [] a = append_nil (f a)
gather-snoc f (b ∷ later) a =
    ap (λ l. f b ++ l) (gather-snoc f later a) ∙ sym (append_assoc (f b) _ _)

module _ {buffers : Buffers} (laws : BufferLaws buffers) (appends : Appends buffers) where
  -- `send` takes all there is.
  pub record TakeLaws : Type 0 where
    pub takes : (b : buffers.Buffer) → (appends.take_all b).0 ≡ laws.contents b
    pub leaves : (b : buffers.Buffer) → laws.contents (appends.take_all b).1 ≡ []

  module _ (cipher : Cipher) (resolve : List ℕ → Bool) where
    abbrev pub client_messages : List (Event appends cipher resolve) → List (List ℕ)
    client_messages [] = []
    client_messages (client_message bytes ∷ events) = bytes ∷ client_messages events
    client_messages (resolved ip ∷ events) = client_messages events
    client_messages (host_connection up ∷ events) = client_messages events
    client_messages (host_message bytes ∷ events) = client_messages events
    client_messages (high_water_mark ∷ events) = client_messages events

    -- The messages of the host, as long as the tunnel has its callbacks.
    abbrev pub host_messages : Bool → List (Event appends cipher resolve) → List (List ℕ)
    host_messages callbacks [] = []
    host_messages callbacks (client_message bytes ∷ events) = host_messages callbacks events
    host_messages callbacks (resolved ip ∷ events) = host_messages callbacks events
    host_messages true (host_connection up ∷ events) = host_messages up events
    host_messages false (host_connection up ∷ events) = host_messages false events
    host_messages true (host_message bytes ∷ events) = bytes ∷ host_messages true events
    host_messages false (host_message bytes ∷ events) = host_messages false events
    host_messages callbacks (high_water_mark ∷ events) = host_messages callbacks events

    -- No empty message, and the address has been found before.
    abbrev pub IsTraffic : List (Event appends cipher resolve) → Type 0
    IsTraffic [] = Unit {0}
    IsTraffic (client_message bytes ∷ events) = (0 < length bytes) × IsTraffic events
    IsTraffic (resolved ip ∷ events) = (1 ≤ 0) × IsTraffic events
    IsTraffic (host_connection up ∷ events) = IsTraffic events
    IsTraffic (host_message bytes ∷ events) = (0 < length bytes) × IsTraffic events
    IsTraffic (high_water_mark ∷ events) = IsTraffic events

    -- What the cipher makes of the messages, one after the other.
    abbrev pub Crypts : cipher.Encryptor → List (List ℕ) → List ℕ → Type 0
    Crypts e [] out = out ≡ []
    Crypts e (bytes ∷ more) out =
        (next : cipher.Encryptor) × (first : List ℕ) × (rest : List ℕ) × (cipher.update e bytes
          ≡ some (next, first))
        × Crypts next more rest
        × (out ≡ first ++ rest)

    abbrev pub tunnel_of :
        (sent_iv callbacks : Bool) → cipher.Encryptor → Tunnel appends cipher resolve
    tunnel_of sent_iv callbacks e = record {
      sent_iv = sent_iv;
      encryptor = e;
      data_buf = [];
      callbacks = callbacks;
    }

    -- A connection whose request has been taken, with its tunnel.
    abbrev pub live :
        ServerConnMeta buffers
        → (decryptor : cipher.Encryptor) → (context : Bool) → List Action
        → Tunnel appends cipher resolve
        → (listed : Bool) → Option (ServerConnMeta buffers × cipher.Encryptor)
        → Link appends cipher resolve
    live m decryptor context actions t listed erased = record {
      connection = record {
        input = [];
        meta = some (m, decryptor);
        context = context;
        actions = actions;
      };
      tunnel = some t;
      listed = listed;
      erased = erased;
    }

    module _ (encrypts : Encrypts cipher) where
      abbrev pub vector : (sent_iv : Bool) → cipher.Encryptor → List (List ℕ) → List ℕ
      vector true e messages = []
      vector false e [] = []
      vector false e (bytes ∷ messages) = encrypts.iv e

      -- The run ends without a failed assertion; toward the host go, or wait in the buffer, the bytes `out`
      -- behind what was there before, and toward the client go the bytes `back`.
      pub record IsCarried (m : ServerConnMeta buffers) (actions : List Action) (out back : List ℕ)
          (result : Option (Link appends cipher resolve)) : Type 0 where
        pub last : ServerConnMeta buffers
        pub decryptor : cipher.Encryptor
        pub context : Bool
        pub done : List Action
        pub tunnel : Tunnel appends cipher resolve
        pub listed : Bool
        pub erased : Option (ServerConnMeta buffers × cipher.Encryptor)
        pub runs : result ≡ some (live last decryptor context done tunnel listed erased)
        pub to_host :
            gather relayed_by done ++ laws.contents last.buf
            ≡ (gather relayed_by actions ++ laws.contents m.buf) ++ out
        pub to_client : gather replied_by done ≡ gather replied_by actions ++ back
