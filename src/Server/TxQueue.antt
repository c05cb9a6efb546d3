-- ===== src/Server/TxQueue.antt =====
-- kcp/kcp_server.cc: `AppendPacket` and `FlushTxQueue`, the queue of a thread's datagrams. The
-- queue is the list of the slots of `raw_packets` in use; its length is `num_packets`.
use Prim.Native.String.{String}
use cpp_code_blocks.Prelude.{
  append_assoc, append_nil, ℕ, ◌+◌, ◌<◌, ◌≡◌, ◌∙◌, ap, sym, refl, inl, inr, Bool, not, ◌&&◌, List,
  [], ◌∷◌, ◌++◌, Option, none, some, leb, ltb, ◌==◌, if◌then◌else◌, ◌>>=◌, length, length-append,
  arith, Bool-cases,
}
use cpp_code_blocks.Server.Defs.{max_packet_size}

-- kNumPacketsPerSend
abbrev pub num_packets_per_send : ℕ
num_packets_per_send = 32

abbrev pub Datagram : Type 0
Datagram = List ℕ × String

-- `batches` are the arguments of the calls of `SendMmsg`, in order.
pub record ThreadData : Type 0 where
  pub queue : List Datagram
  pub batches : List (List Datagram)

abbrev pub new_thread_data : ThreadData
new_thread_data = record { queue = []; batches = [] }

-- The queue is emptied whatever `SendMmsg` returns.
unfoldable pub flush_tx_queue : ThreadData → Option ThreadData
flush_tx_queue d =
    if length d.queue == 0
    then some d
    else if not (leb (length d.queue) num_packets_per_send)
    then none
    else some (record { queue = []; batches = d.batches ++ d.queue ∷ [] })

-- `to_sock_addr` says whether `SockaddrStorage::ToSockAddr` succeeds; `none` is an assertion that
-- fails.
module _ (to_sock_addr : String → Bool) where
  unfoldable pub append_packet : Datagram → ThreadData → Option ThreadData
  append_packet (bytes, address) d =
      let queued = record d { queue = d.queue ++ (bytes, address) ∷ [] } in
      let flushed = flush_tx_queue queued in
      if ltb max_packet_size (length bytes)
      then some d
      else if not (ltb (length d.queue) num_packets_per_send)
      then none
      else if not (to_sock_addr address)
      then some d
      else if leb num_packets_per_send (length queued.queue)
      then flushed
      else some queued

  unfoldable pub append_all : List Datagram → ThreadData → Option ThreadData
  append_all [] d = some d
  append_all (packet ∷ packets) d = append_packet packet d >>= append_all packets

  -- What the queue takes: datagrams within the limit, to an address that can be used.
  unfoldable pub accepted : List Datagram → List Datagram
  accepted [] = []
  accepted ((bytes, address) ∷ packets) =
      let rest = accepted packets in
      if not (ltb max_packet_size (length bytes)) && to_sock_addr address
      then (bytes, address) ∷ rest
      else rest

unfoldable pub concat {ℓ} : {A : Type ℓ} → List (List A) → List A
concat [] = []
concat (xs ∷ xss) = xs ++ concat xss

-- Everything handed over, in order: the batches and the queue behind them.
abbrev pub handed_over : ThreadData → List Datagram
handed_over d = concat d.batches ++ d.queue

abbrev pub AllFull : List (List Datagram) → Type 0
AllFull [] = Unit {0}
AllFull (batch ∷ batches) = (length batch ≡ num_packets_per_send) × AllFull batches

pub record IsQueue (d : ThreadData) : Type 0 where
  pub room : length d.queue < num_packets_per_send
  pub full : AllFull d.batches

concat-append {ℓ} :
    {A : Type ℓ} (xss : List (List A)) (ys : List A) → concat (xss ++ ys ∷ []) ≡ concat xss ++ ys
unfolding concat
concat-append [] ys = append_nil ys
concat-append (xs ∷ xss) ys =
    ap (λ l. xs ++ l) (concat-append xss ys) ∙ sym (append_assoc xs (concat xss) ys)

AllFull-append :
    (batches : List (List Datagram)) (batch : List Datagram)
    → AllFull batches
    → length batch ≡ num_packets_per_send
    → AllFull (batches ++ batch ∷ [])
AllFull-append [] batch v e = (e, tt)
AllFull-append (b ∷ batches) batch v e = (v.0, AllFull-append batches batch v.1 e)

module _ (to_sock_addr : String → Bool) where
  -- One call, on a queue with room.
  record Takes (packet : Datagram) (d : ThreadData) : Type 0 where
    after : ThreadData
    ends : append_packet to_sock_addr packet d ≡ some after
    valid : IsQueue after
    same : handed_over after ≡ handed_over d ++ accepted to_sock_addr (packet ∷ [])

  append_packet-Takes : (packet : Datagram) (d : ThreadData) → IsQueue d → Takes packet d
  unfolding append_packet accepted flush_tx_queue
  append_packet-Takes (bytes, address) d v =
      let queue' = d.queue ++ (bytes, address) ∷ [] in
      let grown : length queue' ≡ length d.queue + 1 =
        length-append d.queue ((bytes, address) ∷ []) in
      elim (Bool-cases (not (ltb max_packet_size (length bytes)) && to_sock_addr address)) [
        | inr refused ↦ record {
          after = d;
          ends = ground (arith, v.room);
          valid = v;
          same = rw refused (sym (append_nil (handed_over d)));
        }
        | inl taken ↦ elim (Bool-cases (leb num_packets_per_send (length queue'))) [
          | inr room ↦ record {
            after = record d { queue = queue' };
            ends = ground (arith, v.room);
            valid = record { room = ground arith; full = v.full };
            same = rw taken (sym (append_assoc (concat d.batches) d.queue ((bytes, address) ∷ [])));
          }
          | inl last ↦ record {
            after = record { queue = []; batches = d.batches ++ queue' ∷ [] };
            ends = ground (arith, v.room);
            valid = record {
              room = ground arith;
              full = AllFull-append d.batches queue' v.full (ground (arith, v.room));
            };
            same = rw taken (
                append_nil (concat (d.batches ++ queue' ∷ []))
                ∙ concat-append d.batches queue'
                ∙ sym (append_assoc (concat d.batches) d.queue ((bytes, address) ∷ [])));
          }
        ]
      ]

  accepted-∷ :
      (packet : Datagram) (packets : List Datagram)
      → accepted to_sock_addr (packet ∷ packets)
        ≡ accepted to_sock_addr (packet ∷ []) ++ accepted to_sock_addr packets
  unfolding accepted
  accepted-∷ (bytes, address) packets =
      elim (Bool-cases (not (ltb max_packet_size (length bytes)) && to_sock_addr address)) [
        | inl taken ↦ rw taken refl
        | inr refused ↦ rw refused refl
      ]

  -- No assertion of the queue fails: from a queue with room all calls of `AppendPacket` end, again
  -- with room, every batch that has been sent is full, and the batches and the queue hold the
  -- datagrams that are within the limit and have a usable address, each once and in order.
  pub append_all-handed_over :
      (packets : List Datagram) (d : ThreadData)
      → IsQueue d
      → (d' : ThreadData) × (append_all to_sock_addr packets d ≡ some d')
        × IsQueue d'
        × (handed_over d' ≡ handed_over d ++ accepted to_sock_addr packets)
  unfolding append_all accepted
  append_all-handed_over [] d v = (d, refl, v, sym (append_nil (handed_over d)))
  append_all-handed_over (packet ∷ packets) d v =
      let first = append_packet-Takes packet d v in
      let rest = append_all-handed_over packets first.after first.valid in
      (
        rest.0,
        ap (λ o. o >>= append_all to_sock_addr packets) first.ends ∙ rest.1,
        rest.2,
        rest.3
            ∙ ap (λ l. l ++ accepted to_sock_addr packets) first.same
            ∙ append_assoc (handed_over d) _ _
            ∙ ap (λ l. handed_over d ++ l) (sym (accepted-∷ packet packets)),
      )
