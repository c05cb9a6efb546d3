-- ===== src/Session/Start.antt =====
-- kcp/kcp_session.cc: `Initialize`, `CurrentMs`, and a session from there on.
use cpp_code_blocks.Prelude.{
  ℕ, ◌-◌, ◌/◌, ◌%◌, ◌^◌, ◌≡◌, ◌∙◌, ap, refl, Bool, true, false, List, [], ◌∷◌, Option, none, some,
  ◌>>=◌,
}
use cpp_code_blocks.Session.Defs.{
  Ikcp, KcpSession, on_connection_event, Operation, updating, operate_all,
}
use cpp_code_blocks.Session.Writes.{Laws}
use cpp_code_blocks.Session.Ends.{IsAnnounced, AllShort, downs, operate_all-IsAnnounced}

pub record Params : Type 0 where
  pub snd_wnd : ℕ
  pub rcv_wnd : ℕ
  pub snd_hghwat : ℕ
  pub nodelay : ℕ
  pub interval : ℕ
  pub resend : ℕ
  pub nocongestion : ℕ
  pub mtu : ℕ
  pub head_room : ℕ
  pub stream_mode : ℕ

-- The calls of ikcp that set a control block up; `none` is a null pointer or a negative code.
pub record Setup (ikcp : Ikcp) : Type 0 where
  pub create : (conv : ℕ) → Option ikcp.Cb
  pub stream : (mode : ℕ) → ikcp.Cb → ikcp.Cb
  pub wndsize : (snd_wnd rcv_wnd : ℕ) → ikcp.Cb → Option ikcp.Cb
  pub setmtu : (mtu : ℕ) → ikcp.Cb → Option ikcp.Cb
  pub set_head_room : (head_room : ℕ) → ikcp.Cb → Option ikcp.Cb
  pub set_snd_hghwat : (hghwat : ℕ) → ikcp.Cb → Option ikcp.Cb
  pub nodelay : (nodelay interval resend nocongestion : ℕ) → ikcp.Cb → Option ikcp.Cb

-- Milliseconds since `base_time_`, modulo 2^32; both times are in microseconds, and the clock has not
-- been set back.
abbrev pub current_ms : (now base_time : ℕ) → ℕ
current_ms now base_time = ((now - base_time) / 1000) % 2 ^ 32

module _ {ikcp : Ikcp} (setup : Setup ikcp) where
  -- `snd_wnd` stands twice in the code.
  unfoldable pub set_up : (session_id : ℕ) → Params → Option ikcp.Cb
  set_up session_id params =
      setup.create session_id
      >>= (λ kcp. setup.wndsize params.snd_wnd params.rcv_wnd (setup.stream params.stream_mode kcp))
      >>= setup.setmtu params.mtu
      >>= setup.set_head_room params.head_room
      >>= setup.set_snd_hghwat params.snd_wnd
      >>= setup.nodelay params.nodelay params.interval params.resend params.nocongestion

  abbrev pub fresh : (up complete high_water_mark : Bool) → ikcp.Cb → KcpSession ikcp
  fresh up complete high_water_mark kcp = record {
    kcp = kcp;
    closed = false;
    state_timer = none;
    effects = [];
    connection_callback = up;
    write_complete_callback = complete;
    high_water_mark_callback = high_water_mark;
  }

  -- `Initialize`, and what it gives the loop to do first: the connection is up; the first update, at
  -- `now`, is queued behind it, in front of the operations that follow.
  unfoldable pub lifespan :
      (session_id : ℕ)
      → Params
      → (up complete high_water_mark : Bool) → (now : ℕ) → List (Operation ikcp)
      → Option (KcpSession ikcp)
  unfolding set_up operate_all
  lifespan session_id params up complete high_water_mark now operations =
      set_up session_id params >>= λ kcp.
      operate_all ikcp (updating now ∷ operations)
        (on_connection_event ikcp true (fresh up complete high_water_mark kcp))

  start-IsAnnounced :
      (up complete high_water_mark : Bool) (kcp : ikcp.Cb)
      → IsAnnounced ikcp (on_connection_event ikcp true (fresh up complete high_water_mark kcp))
  unfolding downs
  start-IsAnnounced true complete high_water_mark kcp = refl
  start-IsAnnounced false complete high_water_mark kcp = refl

  -- Where ikcp sets a control block up, takes what fits into its window and appends the rest, and no write is
  -- larger than its largest message, a session lives through its first update and every sequence of writes, updates and closes behind it without a
  -- failed assertion, and then the connection callback, if there is one, has been told of the end
  -- exactly once if the session is closed, and not at all if it is open.
  pub lifespan-IsAnnounced :
      (laws : Laws ikcp) (session_id : ℕ) (params : Params) (up complete high_water_mark : Bool)
      (now : ℕ) (operations : List (Operation ikcp)) (kcp : ikcp.Cb)
      → set_up session_id params ≡ some kcp
      → AllShort ikcp laws operations
      → (s : KcpSession ikcp) × (lifespan session_id params up complete high_water_mark now
            operations
          ≡ some s)
        × IsAnnounced ikcp s
  unfolding lifespan
  lifespan-IsAnnounced laws session_id params up complete high_water_mark now operations kcp made
        short =
      let s = on_connection_event ikcp true (fresh up complete high_water_mark kcp) in
      let run =
        operate_all-IsAnnounced ikcp laws (updating now ∷ operations) s
          (start-IsAnnounced up complete high_water_mark kcp) (tt, short) in
      (
        run.0,
        ap
              (λ o. o >>= λ cb.
                operate_all ikcp (updating now ∷ operations)
                  (on_connection_event ikcp true (fresh up complete high_water_mark cb)))
              made
            ∙ run.1,
        run.2,
      )
