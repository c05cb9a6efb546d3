-- ===== src/Server/Batches.antt =====
-- kcp/kcp_server.cc: the loop of `HandleRead` over `RecvMmsg`. The datagrams that the socket has are a list,
-- and `recvmmsg` of the system, a parameter, takes some of them into an array or fails.
use cpp_code_blocks.Prelude.{
  ℕ, zero, suc, ◌<◌, ◌≡◌, ◌∙◌, ap, sym, refl, inl, inr, Bool, List, [], ◌∷◌, ◌++◌, Option, none,
  some, ◌==◌, if◌then◌else◌, length, take, drop, take-drop, length-take, length-drop, arith,
  Bool-cases, chosen, passed_over,
}
use cpp_code_blocks.Server.Defs.{KcpServer}
use cpp_code_blocks.Server.Loop.{Message, handle_message, or_stop, handle_read}

-- kNumPacketsPerRead
abbrev pub num_packets_per_read : ℕ
num_packets_per_read = 16

-- What is taken, and what stays in the socket.
abbrev pub RecvMmsg : (adler32 : List ℕ → ℕ) → Type 0
RecvMmsg adler32 =
    ℕ → List (Message adler32) → Option (List (Message adler32) × List (Message adler32))

-- `recvmmsg` on a socket that does not block: an error where there is no datagram, else as many as there
-- are, the array's length at most.
pub record IsNonblocking (adler32 : List ℕ → ℕ) (recv_mmsg : RecvMmsg adler32) : Type 0 where
  pub nothing : (n : ℕ) → recv_mmsg n [] ≡ none
  pub something :
      (n : ℕ) (x : Message adler32) (queue : List (Message adler32))
      → recv_mmsg n (x ∷ queue) ≡ some (take n (x ∷ queue), drop n (x ∷ queue))

module _ (adler32 : List ℕ → ℕ) (debug : Bool) (recv_mmsg : RecvMmsg adler32) where
  -- One turn of the loop, with the turns behind it.
  unfoldable pub handle_batch :
      (List (Message adler32) → KcpServer → Option KcpServer)
      → KcpServer
      → Option (List (Message adler32) × List (Message adler32))
      → Option KcpServer
  handle_batch later s none = some s
  handle_batch later s (some (batch, rest)) =
      or_stop adler32 (handle_read adler32 debug batch s)
        (λ t. if length batch == num_packets_per_read then later rest t else some t)

  -- `none` is a failed assertion, or the end of the fuel.
  unfoldable pub read_batches : (fuel : ℕ) → List (Message adler32) → KcpServer → Option KcpServer
  read_batches zero queue s = none
  read_batches (suc fuel) queue s =
      handle_batch (read_batches fuel) s (recv_mmsg num_packets_per_read queue)

  or_stop_assoc :
      (o : Option KcpServer) (f g : KcpServer → Option KcpServer)
      → or_stop adler32 (or_stop adler32 o f) g ≡ or_stop adler32 o (λ t. or_stop adler32 (f t) g)
  or_stop_assoc none f g = refl
  or_stop_assoc (some s) f g = refl

  or_stop-same :
      (o : Option KcpServer) (f g : KcpServer → Option KcpServer)
      → ((t : KcpServer) → f t ≡ g t)
      → or_stop adler32 o f ≡ or_stop adler32 o g
  or_stop-same none f g same = refl
  or_stop-same (some s) f g same = same s

  handle_read-append :
      (xs ys : List (Message adler32)) (s : KcpServer)
      → handle_read adler32 debug (xs ++ ys) s
        ≡ or_stop adler32 (handle_read adler32 debug xs s) (handle_read adler32 debug ys)
  unfolding handle_read
  handle_read-append [] ys s = refl
  handle_read-append (x ∷ xs) ys s =
      or_stop-same (handle_message adler32 debug x s) _ _ (handle_read-append xs ys)
      ∙ sym (
          or_stop_assoc (handle_message adler32 debug x s) (handle_read adler32 debug xs)
            (handle_read adler32 debug ys))

  empty_list : (queue : List (Message adler32)) → length queue ≡ 0 → queue ≡ []
  empty_list [] e = refl
  empty_list (x ∷ xs) e = absurd (omega (arith, e))

  -- The loop of `HandleRead` ends, and it has handled every datagram that the socket has, one by one in
  -- their order, whatever their number is: a full array is followed by another call of `RecvMmsg`, and
  -- an array that is not full has the last of them. An assertion that fails ends both in the same way.
  -- The socket does not block, and `recvmmsg` gives what there is.
  pub read_batches-handle_read :
      (fuel : ℕ) (queue : List (Message adler32)) (s : KcpServer)
      → IsNonblocking adler32 recv_mmsg
      → length queue < fuel
      → read_batches fuel queue s ≡ handle_read adler32 debug queue s
  unfolding read_batches handle_batch handle_read
  read_batches-handle_read zero queue s io enough = absurd (omega (arith, enough))
  read_batches-handle_read (suc fuel) [] s io enough =
      ap (handle_batch (read_batches fuel) s) (io.nothing num_packets_per_read)
  read_batches-handle_read (suc fuel) (x ∷ xs) s io enough =
      let queue = x ∷ xs in
      let batch = take num_packets_per_read queue in
      let others = drop num_packets_per_read queue in
      ap (handle_batch (read_batches fuel) s) (io.something num_packets_per_read x xs)
      ∙ or_stop-same (handle_read adler32 debug batch s) _ (handle_read adler32 debug others) (λ t.
        elim (Bool-cases (length batch == num_packets_per_read)) [
          | inl full ↦
              chosen (length batch == num_packets_per_read) _ _ full
              ∙ read_batches-handle_read fuel others t io
                  (ground (arith, enough, length-drop num_packets_per_read queue))
          | inr short ↦
              let none_behind = empty_list others (
                ground (
                  arith,
                  short,
                  length-take num_packets_per_read queue,
                  length-drop num_packets_per_read queue,
                )) in
              passed_over (length batch == num_packets_per_read) _ _ short
              ∙ ap (λ q. handle_read adler32 debug q t) (sym none_behind)
        ])
      ∙ sym (handle_read-append batch others s)
      ∙ ap (λ q. handle_read adler32 debug q s) (take-drop num_packets_per_read queue)
