-- ===== src/Relay/Carried.antt =====
-- The two streams of a tunnel.
use cpp_code_blocks.Prelude.{
  ℕ, ◌≡◌, ◌∙◌, sym, ap, ap₂, refl, Bool, true, false, List, [], ◌∷◌, ◌++◌, Option, some,
  append_assoc, append_nil, arith,
}
use cpp_code_blocks.Relay.Request.{Buffers, BufferLaws, ServerConnMeta}
use cpp_code_blocks.Relay.Messages.{Cipher, Appends, Action}
use cpp_code_blocks.Relay.Segments.{AppendLaws}
use cpp_code_blocks.Relay.Tunnels.{
  Encrypts, Tunnel, Link, Event, client_message, resolved, host_connection, host_message,
  high_water_mark, on_client_connection, teardown, happen, happen_all,
}
use cpp_code_blocks.Relay.Streams.{
  gather, gather-snoc, relayed_by, replied_by, TakeLaws, client_messages, host_messages, IsTraffic,
  Crypts, tunnel_of, live, vector, IsCarried,
}
use cpp_code_blocks.Relay.Events.{
  to_host_of, emptied, fed, sending, follows, sending-to_host, fed-to_host, silent, client_full,
  comes_up, host_full, other-to_host,
}

module _ {buffers : Buffers} (laws : BufferLaws buffers) (appends : Appends buffers)
    (more : AppendLaws laws appends) (takes : TakeLaws laws appends) (cipher : Cipher)
    (resolve : List ℕ → Bool) (encrypts : Encrypts cipher) where
  abbrev Meta : Type 0
  Meta = ServerConnMeta buffers

  abbrev L : Type 0
  L = Link appends cipher resolve

  abbrev Carried : Meta → List Action → List ℕ → List ℕ → Option L → Type 0
  Carried = IsCarried laws appends cipher resolve encrypts

  abbrev Erased : Type 0
  Erased = Option (Meta × cipher.Encryptor)

  abbrev at :
      Meta
      → cipher.Encryptor
      → Bool
      → List Action
      → Tunnel appends cipher resolve
      → Bool
      → Erased
      → L
  at = live laws appends cipher resolve

  abbrev tunnel_at : Bool → Bool → cipher.Encryptor → Tunnel appends cipher resolve
  tunnel_at = tunnel_of laws appends cipher resolve

  abbrev all_of : List (Event appends cipher resolve) → L → Option L
  all_of = happen_all appends cipher resolve encrypts

  abbrev host_of : Bool → List (Event appends cipher resolve) → List (List ℕ)
  host_of = host_messages laws appends cipher resolve

  abbrev lead_of : Bool → cipher.Encryptor → List (List ℕ) → List ℕ
  lead_of = vector laws appends cipher resolve encrypts

  lead_nil : (sent_iv : Bool) (e : cipher.Encryptor) → lead_of sent_iv e [] ≡ []
  lead_nil true e = refl
  lead_nil false e = refl

  -- One event, with one action that sends nothing.
  quietly :
      (m : Meta) (actions : List Action) (a : Action) (out back : List ℕ)
      (event : Event appends cipher resolve) (events : List (Event appends cipher resolve))
      (l l' : L)
      → happen appends cipher resolve encrypts event l ≡ some l'
      → relayed_by a ≡ []
      → replied_by a ≡ []
      → Carried m
          (actions ++ a ∷ [])
          out
          back
          (happen_all appends cipher resolve encrypts events l')
      → Carried m actions out back (happen_all appends cipher resolve encrypts (event ∷ events) l)
  quietly m actions a out back event events l l' now host client later =
      follows laws appends more takes cipher resolve encrypts m m actions (actions ++ a ∷ []) [] out
        out [] back back event events l l' now
        (other-to_host laws appends more takes cipher resolve encrypts m actions a host)
        (silent laws appends more takes cipher resolve encrypts replied_by actions a client) refl
        refl later

  -- On a connection whose tunnel is set up, with any sequence of messages of the client, messages of the
  -- host, and connections of the tunnel that come up and go down, no assertion fails. Toward the host goes,
  -- or waits in the buffer, just what the decryptor makes of the client's messages, one after the other,
  -- behind what was there before. Toward the client go the initialization vector, once, in front of the
  -- first message of the host, and what the encryptor makes of the messages that come while the tunnel has
  -- its callbacks. No message is empty, the cipher takes them, and `send` takes the whole buffer.
  pub happen_all-IsCarried :
      (events : List (Event appends cipher resolve)) (m : Meta) (d : cipher.Encryptor)
      (context : Bool) (actions : List Action) (sent_iv callbacks : Bool) (e : cipher.Encryptor)
      (listed : Bool) (erased : Erased) (out back : List ℕ)
      → IsTraffic laws appends cipher resolve events
      → Crypts laws appends cipher resolve d
          (client_messages laws appends cipher resolve events)
          out
      → Crypts laws appends cipher resolve e (host_of callbacks events) back
      → Carried m actions out
          (lead_of sent_iv e (host_of callbacks events) ++ back)
          (all_of events (at m d context actions (tunnel_at sent_iv callbacks e) listed erased))
  unfolding happen_all happen on_client_connection teardown
  happen_all-IsCarried [] m d context actions sent_iv callbacks e listed erased out back t c h =
      record {
        last = m;
        decryptor = d;
        context = context;
        done = actions;
        tunnel = tunnel_at sent_iv callbacks e;
        listed = listed;
        erased = erased;
        runs = refl;
        to_host =
            sym (append_nil _)
            ∙ ap (λ x. to_host_of laws appends more takes cipher resolve encrypts m actions ++ x)
                (sym c);
        to_client =
            sym (append_nil _)
            ∙ ap₂ (λ x y. gather replied_by actions ++ (x ++ y)) (sym (lead_nil sent_iv e)) (sym h);
      }
  happen_all-IsCarried (client_message bytes ∷ es) m d true actions sent_iv callbacks e listed
        erased out back (full, t) (d', o, rest, crypts, c, sums) h =
      follows laws appends more takes cipher resolve encrypts m
        (emptied laws appends more takes cipher resolve encrypts
          (fed laws appends more takes cipher resolve encrypts m o))
        actions
        (sending laws appends more takes cipher resolve encrypts
          (fed laws appends more takes cipher resolve encrypts m o) actions)
        o rest out [] _ _ (client_message bytes) es
        (at m d true actions (tunnel_at sent_iv callbacks e) listed erased) _
        (client_full laws appends more takes cipher resolve encrypts m d d' bytes o true actions
          (tunnel_at sent_iv callbacks e) listed erased full crypts)
        (sending-to_host laws appends more takes cipher resolve encrypts
            (fed laws appends more takes cipher resolve encrypts m o) actions
          ∙ fed-to_host laws appends more takes cipher resolve encrypts m actions o)
        (silent laws appends more takes cipher resolve encrypts replied_by actions (Action.relays _)
          refl)
        sums refl
        (happen_all-IsCarried es
          (emptied laws appends more takes cipher resolve encrypts
            (fed laws appends more takes cipher resolve encrypts m o))
          d' true
          (sending laws appends more takes cipher resolve encrypts
            (fed laws appends more takes cipher resolve encrypts m o) actions)
          sent_iv callbacks e listed erased rest back t c h)
  happen_all-IsCarried (client_message bytes ∷ es) m d false actions sent_iv callbacks e listed
        erased out back (full, t) (d', o, rest, crypts, c, sums) h =
      follows laws appends more takes cipher resolve encrypts m
        (fed laws appends more takes cipher resolve encrypts m o) actions actions o rest out [] _ _
        (client_message bytes) es
        (at m d false actions (tunnel_at sent_iv callbacks e) listed erased) _
        (client_full laws appends more takes cipher resolve encrypts m d d' bytes o false actions
          (tunnel_at sent_iv callbacks e) listed erased full crypts)
        (fed-to_host laws appends more takes cipher resolve encrypts m actions o)
        (sym (append_nil _)) sums refl
        (happen_all-IsCarried es (fed laws appends more takes cipher resolve encrypts m o) d' false
          actions sent_iv callbacks e listed erased rest back t c h)
  happen_all-IsCarried (resolved ip ∷ es) m d context actions sent_iv callbacks e listed erased out
        back (bad, t) c h =
      absurd (omega (arith, bad))
  happen_all-IsCarried (host_connection up ∷ es) m d context actions sent_iv false e listed erased
        out back t c h =
      happen_all-IsCarried es m d context actions sent_iv false e listed erased out back t c h
  happen_all-IsCarried (host_connection true ∷ es) m d context actions sent_iv true e listed erased
        out back t c h =
      let (m', actions', up, host, client) =
        comes_up laws appends more takes cipher resolve encrypts m d context actions
          (tunnel_at sent_iv true e) listed erased in
      follows laws appends more takes cipher resolve encrypts m m' actions actions' [] out out [] _
        _ (host_connection true) es
        (at m d context actions (tunnel_at sent_iv true e) listed erased) _ (ap some up) host client
        refl refl
        (happen_all-IsCarried es m' d true actions' sent_iv true e listed erased out back t c h)
  happen_all-IsCarried (host_connection false ∷ es) m d context actions sent_iv true e listed erased
        out back t c h =
      let closed =
        happen_all-IsCarried es m d false (actions ++ Action.shuts_down ∷ []) sent_iv false e listed
          erased out back t c h in
      quietly m actions Action.shuts_down out _ (host_connection false) es
        (at m d context actions (tunnel_at sent_iv true e) listed erased)
        (at m d false (actions ++ Action.shuts_down ∷ []) (tunnel_at sent_iv false e) listed erased)
        refl refl refl closed
  happen_all-IsCarried (host_message bytes ∷ es) m d context actions sent_iv false e listed erased
        out back (full, t) c h =
      happen_all-IsCarried es m d context actions sent_iv false e listed erased out back t c h
  happen_all-IsCarried (host_message bytes ∷ es) m d context actions sent_iv true e listed erased
        out back (full, t) c (e', o, rest, crypts, h, sums) =
      let (lead, now, leads) =
        host_full laws appends more takes cipher resolve encrypts m d context actions sent_iv e e'
          bytes o listed erased (host_of true es) full crypts in
      follows laws appends more takes cipher resolve encrypts m m actions
        (actions ++ Action.replies (lead ++ o) ∷ []) [] out out (lead ++ o) rest _
        (host_message bytes) es (at m d context actions (tunnel_at sent_iv true e) listed erased) _
        now
        (other-to_host laws appends more takes cipher resolve encrypts m actions
          (Action.replies (lead ++ o)) refl)
        (gather-snoc replied_by actions (Action.replies (lead ++ o))) refl
        (ap₂ (λ x y. x ++ y) (sym leads) sums ∙ sym (append_assoc lead o rest))
        (happen_all-IsCarried es m d context (actions ++ Action.replies (lead ++ o) ∷ []) true true
          e' listed erased out rest t c h)
  happen_all-IsCarried (high_water_mark ∷ es) m d context actions sent_iv true e listed erased out
        back t c h =
      quietly m actions Action.disconnects out _ high_water_mark es
        (at m d context actions (tunnel_at sent_iv true e) listed erased) _ refl refl refl
        (happen_all-IsCarried es m d context (actions ++ Action.disconnects ∷ []) sent_iv true e
          listed erased out back t c h)
  happen_all-IsCarried (high_water_mark ∷ es) m d context actions sent_iv false e true erased out
        back t c h =
      quietly m actions Action.disconnects out _ high_water_mark es
        (at m d context actions (tunnel_at sent_iv false e) true erased) _ refl refl refl
        (happen_all-IsCarried es m d context (actions ++ Action.disconnects ∷ []) sent_iv false e
          true erased out back t c h)
  happen_all-IsCarried (high_water_mark ∷ es) m d context actions sent_iv false e false erased out
        back t c h =
      happen_all-IsCarried es m d context actions sent_iv false e false erased out back t c h
