-- ===== src/Relay/Events.antt =====
-- What one event of a tunnel sends.
use cpp_code_blocks.Prelude.{
  ℕ, ◌<◌, ◌≡◌, ◌∙◌, sym, ap, ap₂, refl, Bool, true, false, List, [], ◌∷◌, ◌++◌, Option, some, ltb,
  ◌==◌, if◌then◌else◌, ◌>>=◌, inl, inr, length, append_assoc, append_nil, arith, chosen,
  passed_over, Bool-cases,
}
use cpp_code_blocks.Relay.Request.{Buffers, BufferLaws, ServerConnMeta}
use cpp_code_blocks.Relay.Messages.{Cipher, Appends, Action, Connection, relayed, on_server_message}
use cpp_code_blocks.Relay.Segments.{AppendLaws}
use cpp_code_blocks.Relay.Tunnels.{
  Encrypts, Tunnel, Link, Event, from_client, encrypted, on_client_connection, on_client_message,
  happen, happen_all,
}
use cpp_code_blocks.Relay.Streams.{
  gather, gather-snoc, relayed_by, replied_by, TakeLaws, tunnel_of, live, vector, IsCarried,
}

module _ {buffers : Buffers} (laws : BufferLaws buffers) (appends : Appends buffers)
    (more : AppendLaws laws appends) (takes : TakeLaws laws appends) (cipher : Cipher)
    (resolve : List ℕ → Bool) (encrypts : Encrypts cipher) where
  abbrev Meta : Type 0
  Meta = ServerConnMeta buffers

  abbrev L : Type 0
  L = Link appends cipher resolve

  abbrev pub to_host_of : Meta → List Action → List ℕ
  to_host_of m actions = gather relayed_by actions ++ laws.contents m.buf

  abbrev Carried : Meta → List Action → List ℕ → List ℕ → Option L → Type 0
  Carried = IsCarried laws appends cipher resolve encrypts

  -- One event, and those behind it.
  pub follows :
      (m m' : Meta) (actions actions' : List Action) (o out all bk back whole : List ℕ)
      (event : Event appends cipher resolve) (events : List (Event appends cipher resolve))
      (l l' : L)
      → happen appends cipher resolve encrypts event l ≡ some l'
      → to_host_of m' actions' ≡ to_host_of m actions ++ o
      → gather replied_by actions' ≡ gather replied_by actions ++ bk
      → all ≡ o ++ out
      → whole ≡ bk ++ back
      → Carried m' actions' out back (happen_all appends cipher resolve encrypts events l')
      → Carried m actions all whole (happen_all appends cipher resolve encrypts (event ∷ events) l)
  unfolding happen_all
  follows m m' actions actions' o out all bk back whole event events l l' now host client sums
        wholes later =
      record {
        last = later.last;
        decryptor = later.decryptor;
        context = later.context;
        done = later.done;
        tunnel = later.tunnel;
        listed = later.listed;
        erased = later.erased;
        runs = ap (λ r. r >>= happen_all appends cipher resolve encrypts events) now ∙ later.runs;
        to_host =
            later.to_host
            ∙ ap (λ x. x ++ out) host
            ∙ append_assoc (to_host_of m actions) o out
            ∙ ap (λ x. to_host_of m actions ++ x) (sym sums);
        to_client =
            later.to_client
            ∙ ap (λ x. x ++ back) client
            ∙ append_assoc (gather replied_by actions) bk back
            ∙ ap (λ x. gather replied_by actions ++ x) (sym wholes);
      }

  -- What a message of the client leaves.
  abbrev pub fed : Meta → List ℕ → Meta
  fed m o = record m { buf = appends.append m.buf o }

  abbrev pub emptied : Meta → Meta
  emptied m = record m { buf = (appends.take_all m.buf).1 }

  abbrev pub sending : Meta → List Action → List Action
  sending m actions = actions ++ Action.relays (appends.take_all m.buf).0 ∷ []

  pub sending-to_host :
      (m : Meta) (actions : List Action)
      → to_host_of (emptied m) (sending m actions) ≡ to_host_of m actions
  sending-to_host m actions =
      ap₂ (λ x y. x ++ y)
        (gather-snoc relayed_by actions (Action.relays (appends.take_all m.buf).0))
        (takes.leaves m.buf)
      ∙ append_nil _
      ∙ ap (λ x. gather relayed_by actions ++ x) (takes.takes m.buf)

  pub fed-to_host :
      (m : Meta) (actions : List Action) (o : List ℕ)
      → to_host_of (fed m o) actions ≡ to_host_of m actions ++ o
  fed-to_host m actions o =
      ap (λ x. gather relayed_by actions ++ x) (more.grows m.buf o)
      ∙ sym (append_assoc (gather relayed_by actions) _ o)

  pub silent :
      (f : Action → List ℕ) (actions : List Action) (a : Action)
      → f a ≡ []
      → gather f (actions ++ a ∷ []) ≡ gather f actions ++ []
  silent f actions a e = gather-snoc f actions a ∙ ap (λ x. gather f actions ++ x) e

  abbrev Erased : Type 0
  Erased = Option (Meta × cipher.Encryptor)

  abbrev at :
      Meta
      → cipher.Encryptor
      → Bool
      → List Action
      → Tunnel appends cipher resolve
      → Bool
      → Erased
      → L
  at = live laws appends cipher resolve

  abbrev open_at :
      Meta → cipher.Encryptor → List ℕ → Bool → List Action → Connection appends cipher resolve
  open_at m d input context actions = record {
    input = input;
    meta = some (m, d);
    context = context;
    actions = actions;
  }

  client_reads :
      (m : Meta) (d d' : cipher.Encryptor) (bytes o : List ℕ) (context : Bool)
      (actions : List Action)
      → 0 < length bytes
      → cipher.update d bytes ≡ some (d', o)
      → on_server_message appends cipher resolve (open_at m d bytes context actions)
        ≡ some (relayed appends cipher resolve m (open_at m d bytes context actions) (some (d', o)))
  unfolding on_server_message
  client_reads m d d' bytes o context actions full crypts =
      passed_over (length bytes == 0) _ _ (ground arith)
      ∙ ap (λ u. some (relayed appends cipher resolve m (open_at m d bytes context actions) u))
          crypts

  pub client_full :
      (m : Meta) (d d' : cipher.Encryptor) (bytes o : List ℕ) (context : Bool)
      (actions : List Action) (t : Tunnel appends cipher resolve) (listed : Bool) (erased : Erased)
      → 0 < length bytes
      → cipher.update d bytes ≡ some (d', o)
      → from_client appends cipher resolve bytes (at m d context actions t listed erased) ≡ (
          if context
          then some (at (emptied (fed m o)) d' true (sending (fed m o) actions) t listed erased)
          else some (at (fed m o) d' false actions t listed erased))
  client_full m d d' bytes o true actions t listed erased full crypts =
      ap (λ r. r >>= λ c. some (record (at m d true actions t listed erased) { connection = c }))
        (client_reads m d d' bytes o true actions full crypts)
  client_full m d d' bytes o false actions t listed erased full crypts =
      ap (λ r. r >>= λ c. some (record (at m d false actions t listed erased) { connection = c }))
        (client_reads m d d' bytes o false actions full crypts)

  -- The tunnel's connection is up: what the buffer holds goes out.
  pub comes_up :
      (m : Meta) (d : cipher.Encryptor) (context : Bool) (actions : List Action)
      (t : Tunnel appends cipher resolve) (listed : Bool) (erased : Erased)
      → (m' : Meta) × (actions' : List Action) × (on_client_connection appends cipher resolve true t
            (at m d context actions t listed erased)
          ≡ at m' d true actions' t listed erased)
        × (to_host_of m' actions' ≡ to_host_of m actions ++ [])
        × (gather replied_by actions' ≡ gather replied_by actions ++ [])
  unfolding on_client_connection
  comes_up m d context actions t listed erased =
      elim (Bool-cases (ltb 0 (buffers.readable_bytes m.buf))) [
        | inl e ↦ (
          emptied m,
          sending m actions,
          chosen (ltb 0 (buffers.readable_bytes m.buf)) _ _ e,
          sending-to_host m actions ∙ sym (append_nil _),
          silent replied_by actions (Action.relays _) refl,
        )
        | inr e ↦ (
          m,
          actions,
          passed_over (ltb 0 (buffers.readable_bytes m.buf)) _ _ e,
          sym (append_nil _),
          sym (append_nil _),
        )
      ]

  pub host_full :
      (m : Meta) (d : cipher.Encryptor) (context : Bool) (actions : List Action) (sent_iv : Bool)
      (e e' : cipher.Encryptor) (bytes o : List ℕ) (listed : Bool) (erased : Erased)
      (later : List (List ℕ))
      → 0 < length bytes
      → cipher.update e bytes ≡ some (e', o)
      → (lead : List ℕ) × (on_client_message appends cipher resolve encrypts bytes
            (tunnel_of laws appends cipher resolve sent_iv true e)
            (at m d context actions
              (tunnel_of laws appends cipher resolve sent_iv true e)
              listed
              erased)
          ≡ some (
              at m d context
                (actions ++ Action.replies (lead ++ o) ∷ [])
                (tunnel_of laws appends cipher resolve true true e')
                listed
                erased))
        × (lead ≡ vector laws appends cipher resolve encrypts sent_iv e (bytes ∷ later))
  unfolding on_client_message
  host_full m d context actions true e e' bytes o listed erased later full crypts = (
    [],
    passed_over (length bytes == 0) _ _ (ground arith)
        ∙ ap
            (λ u. some (
              encrypted appends cipher resolve (tunnel_of laws appends cipher resolve true true e)
                (at m d context actions (tunnel_of laws appends cipher resolve true true e) listed
                  erased)
                u))
            crypts,
    refl,
  )
  host_full m d context actions false e e' bytes o listed erased later full crypts = (
    encrypts.iv e,
    passed_over (length bytes == 0) _ _ (ground arith)
        ∙ ap
            (λ u. some (
              encrypted appends cipher resolve
                (record {
                  sent_iv = true;
                  encryptor = e;
                  data_buf = encrypts.iv e;
                  callbacks = true;
                })
                (at m d context actions (tunnel_of laws appends cipher resolve false true e) listed
                  erased)
                u))
            crypts,
    refl,
  )

  -- An action that sends nothing to the host.
  pub other-to_host :
      (m : Meta) (actions : List Action) (a : Action)
      → relayed_by a ≡ []
      → to_host_of m (actions ++ a ∷ []) ≡ to_host_of m actions ++ []
  other-to_host m actions a e =
      ap (λ x. x ++ laws.contents m.buf) (silent relayed_by actions a e ∙ append_nil _)
      ∙ sym (append_nil _)
