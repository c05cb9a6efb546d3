-- ===== src/Session/Defs.antt =====
-- kcp/kcp_session.cc: `WriteInLoopThread`, `UpdateConnectionState` and `Close`. The library ikcp is a
-- parameter; a call of it that returns a code tells here whether the code is 0.
use cpp_code_blocks.Prelude.{
  ℕ, ◌-◌, min, Bool, true, false, not, ◌&&◌, List, [], ◌∷◌, ◌++◌, Option, none, some, ltb, ◌==◌,
  if◌then◌else◌, ◌>>=◌, length, take, drop,
}

pub record Ikcp : Type 1 where
  pub Cb : Type 0
  pub is_alive : Cb → Bool
  pub flush : Cb → ℕ → Cb × ℕ
  pub need_drain : Cb → Bool
  pub reach_snd_hghwat : Cb → Bool
  pub waitsnd : Cb → ℕ
  pub available_wnd_in_bytes : Cb → ℕ
  pub available_sndwnd_in_bytes : Cb → ℕ
  pub send : Cb → List ℕ → Cb × Bool
  pub append : Cb → List ℕ → Cb × Bool

-- What a session does, in order: the bytes it hands to ikcp, and the callbacks it calls or queues.
pub data SessionEffect : Type 0 where
  sent : List ℕ → SessionEffect
  appended : List ℕ → SessionEffect
  flush_tx_queue : SessionEffect
  connection : Bool → SessionEffect
  write_complete : SessionEffect
  high_water_mark : ℕ → SessionEffect

module _ (ikcp : Ikcp) where
  -- The last three fields say which callbacks are set.
  pub record KcpSession : Type 0 where
    pub kcp : ikcp.Cb
    pub closed : Bool
    pub state_timer : Option ℕ
    pub effects : List SessionEffect
    pub connection_callback : Bool
    pub write_complete_callback : Bool
    pub high_water_mark_callback : Bool

  abbrev pub emit : SessionEffect → KcpSession → KcpSession
  emit effect s = record s { effects = s.effects ++ effect ∷ [] }

  -- `ikcp_flush(kcp_.get(), CurrentMs())` and `FlushTxQueue()`; `now` is `CurrentMs()`.
  abbrev pub flush_now : ℕ → KcpSession → KcpSession
  flush_now now s = emit flush_tx_queue (record s { kcp = (ikcp.flush s.kcp now).0 })

  abbrev pub on_connection_event : Bool → KcpSession → KcpSession
  on_connection_event up s = if s.connection_callback then emit (connection up) s else s

  unfoldable pub close : ℕ → Bool → KcpSession → KcpSession
  close now last_flush s =
      let s1 = record s { closed = true; state_timer = none } in
      let s2 = if last_flush then flush_now now s1 else s1 in
      if s.closed then s else on_connection_event false s2

  unfoldable pub update_connection_state : ℕ → KcpSession → KcpSession
  unfolding close
  update_connection_state now s =
      if s.closed
      then s
      else if not (ikcp.is_alive s.kcp)
      then close now false s
      else record (flush_now now s) { state_timer = some (ikcp.flush s.kcp now).1 }

  -- What `ikcp_send` has taken; `none` is the assertion that fails.
  unfoldable pub send_first : ℕ → List ℕ → ℕ → KcpSession → Option KcpSession
  send_first now bytes n s =
      let (kcp', ok) = ikcp.send s.kcp (take n bytes) in
      let s1 = record (emit (sent (take n bytes)) s) { kcp = kcp' } in
      let s2 = if ltb 0 (ikcp.available_sndwnd_in_bytes s.kcp) then flush_now now s1 else s1 in
      let s3 =
        if length bytes - n == 0 && s.write_complete_callback then emit write_complete s2 else s2 in
      if ok then some s3 else none

  -- What does not fit goes behind it with `ikcp_append`; `reached` is the mark before the write.
  unfoldable pub append_rest : Bool → List ℕ → KcpSession → Option KcpSession
  append_rest reached rest s =
      let (kcp', ok) = ikcp.append s.kcp rest in
      let s1 = record (emit (appended rest) s) { kcp = kcp' } in
      let s2 =
        if not reached && (ikcp.reach_snd_hghwat kcp' && s.high_water_mark_callback)
        then emit (high_water_mark (ikcp.waitsnd kcp')) s1
        else s1 in
      if length rest == 0 then some s else if ok then some s2 else none

  abbrev pub writable : List ℕ → KcpSession → ℕ
  writable bytes s =
      if ikcp.need_drain s.kcp then 0 else min (ikcp.available_wnd_in_bytes s.kcp) (length bytes)

  unfoldable pub write_in_loop_thread : ℕ → List ℕ → KcpSession → Option KcpSession
  unfolding send_first append_rest
  write_in_loop_thread now bytes s =
      let n = writable bytes s in
      let reached = ikcp.reach_snd_hghwat s.kcp in
      if s.closed
      then some s
      else if n == 0
      then append_rest reached bytes s
      else send_first now bytes n s >>= append_rest reached (drop n bytes)

  pub data Operation : Type 0 where
    closing : ℕ → Bool → Operation
    updating : ℕ → Operation
    writing : ℕ → List ℕ → Operation

  abbrev pub operate : Operation → KcpSession → Option KcpSession
  operate (closing now last_flush) s = some (close now last_flush s)
  operate (updating now) s = some (update_connection_state now s)
  operate (writing now bytes) s = write_in_loop_thread now bytes s

  unfoldable pub operate_all : List Operation → KcpSession → Option KcpSession
  operate_all [] s = some s
  operate_all (operation ∷ operations) s = operate operation s >>= operate_all operations
