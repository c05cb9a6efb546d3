-- ===== src/Server/Reported.antt =====
-- The errors that come back to a server about the datagrams it has sent.
use cpp_code_blocks.Prelude.{
  ℕ, ◌≤◌, ◌<◌, ◌^◌, ◌≡◌, ◌∙◌, ap, sym, refl, Bool, true, false, ◌&&◌, List, [], ◌∷◌, ◌++◌, map,
  if◌then◌else◌, length, append_assoc, append_nil, arith,
}
use cpp_code_blocks.Prelude.Maps.{contains, nat_eq}
use cpp_code_blocks.Packet.Defs.{write_public_header}
use cpp_code_blocks.Packet.RoundTrip.{read_from-write_public_header}
use cpp_code_blocks.Server.Defs.{KcpServer, Effect, set_pending_error, perform}
use cpp_code_blocks.Server.Errors.{
  ControlMessage, ErrorMessage, is_receive_error, is_icmp, report, handle_control, handle_controls,
  handle_error,
}

-- A datagram that the server has sent, and the errors about it.
pub record Failed : Type 0 where
  pub buffer : List ℕ
  pub packet_type : ℕ
  pub session_id : ℕ
  pub controls : List ControlMessage

-- The header fits, and so do the numbers in it.
pub record IsSent (f : Failed) : Type 0 where
  pub room : 9 ≤ length f.buffer
  pub type_fits : f.packet_type < 2 ^ 8
  pub session_fits : f.session_id < 2 ^ 32

abbrev pub AllSent : List Failed → Type 0
AllSent [] = Unit {0}
AllSent (f ∷ fs) = IsSent f × AllSent fs

abbrev pub error_of : ℕ → ControlMessage → List Effect
error_of session_id c =
    if is_receive_error c && is_icmp c
    then set_pending_error session_id c.error_type c.error_code ∷ []
    else []

abbrev pub errors_of : ℕ → List ControlMessage → List Effect
errors_of session_id [] = []
errors_of session_id (c ∷ controls) = error_of session_id c ++ errors_of session_id controls

-- The pending errors that the sessions of a server get.
abbrev pub reports : KcpServer → List Failed → List Effect
reports s [] = []
reports s (f ∷ fs) =
    (if contains f.session_id s.session_map then errors_of f.session_id f.controls else [])
    ++ reports s fs

module _ (adler32 : List ℕ → ℕ) where
  abbrev pub datagram : Failed → List ℕ
  datagram f = (write_public_header adler32 f.buffer f.packet_type f.session_id).0

  abbrev pub returned : Failed → ErrorMessage
  returned f = record { truncated = false; bytes = datagram f; controls = f.controls }

  abbrev pub with_effects : KcpServer → List Effect → KcpServer
  with_effects s added = record s { effects = s.effects ++ added }

  one_control :
      (r i known : Bool) (e : Effect) (s : KcpServer)
      → (if r then if i then if known then perform e s else s else s else s)
        ≡ with_effects s (if known then if r && i then e ∷ [] else [] else [])
  one_control true true true e s = refl
  one_control true true false e s = ap (λ x. record s { effects = x }) (sym (append_nil s.effects))
  one_control true false true e s = ap (λ x. record s { effects = x }) (sym (append_nil s.effects))
  one_control true false false e s = ap (λ x. record s { effects = x }) (sym (append_nil s.effects))
  one_control false i true e s = ap (λ x. record s { effects = x }) (sym (append_nil s.effects))
  one_control false i false e s = ap (λ x. record s { effects = x }) (sym (append_nil s.effects))

  if-append :
      (known : Bool) (xs ys : List Effect)
      → (if known then xs else []) ++ (if known then ys else []) ≡ (if known then xs ++ ys else [])
  if-append true xs ys = refl
  if-append false xs ys = refl

  with_effects-twice :
      (s : KcpServer) (xs ys : List Effect)
      → with_effects (with_effects s xs) ys ≡ with_effects s (xs ++ ys)
  with_effects-twice s xs ys = ap (λ x. record s { effects = x }) (append_assoc s.effects xs ys)

  abbrev known_to : Failed → KcpServer → Bool
  known_to f s = contains f.session_id s.session_map

  handle_controls_lem :
      (f : Failed) (controls : List ControlMessage) (s : KcpServer)
      → IsSent f
      → handle_controls (datagram f) controls s
        ≡ with_effects s (if known_to f s then errors_of f.session_id controls else [])
  unfolding handle_controls handle_control
  handle_controls_lem f [] s sent =
      let nothing : (if known_to f s then [] else []) ≡ [] = ground arith in
      ap (λ x. record s { effects = x })
        (sym (append_nil s.effects) ∙ ap (λ x. s.effects ++ x) (sym nothing))
  handle_controls_lem f (c ∷ controls) s sent =
      let found =
        read_from-write_public_header adler32 f.buffer f.packet_type f.session_id sent.room
          sent.type_fits sent.session_fits in
      let first = if known_to f s then error_of f.session_id c else [] in
      let rest = if known_to f s then errors_of f.session_id controls else [] in
      ap
        (λ o.
          handle_controls (datagram f) controls
            (if is_receive_error c then if is_icmp c then report c o s else s else s))
        found
      ∙ ap (handle_controls (datagram f) controls) (
          one_control (is_receive_error c) (is_icmp c) (known_to f s)
            (set_pending_error f.session_id c.error_type c.error_code) s)
      ∙ handle_controls_lem f controls (with_effects s first) sent
      ∙ with_effects-twice s first rest
      ∙ ap (with_effects s)
          (if-append (known_to f s) (error_of f.session_id c) (errors_of f.session_id controls))

  -- Errors come back about datagrams that the server has written, with a header and of any type: each
  -- ICMP error among them is set, in order, as the pending error of the session that the datagram was of,
  -- if the server still has that session, and of no other; the server is not changed. Each datagram has room for the
  -- header, its type fits a byte, its identifier 32 bits, and no control data is truncated.
  pub handle_error-reports :
      (fs : List Failed) (s : KcpServer)
      → AllSent fs
      → handle_error (map returned fs) s ≡ with_effects s (reports s fs)
  unfolding handle_error
  handle_error-reports [] s all = ap (λ x. record s { effects = x }) (sym (append_nil s.effects))
  handle_error-reports (f ∷ fs) s (sent, all) =
      let first = if known_to f s then errors_of f.session_id f.controls else [] in
      ap (handle_error (map returned fs)) (handle_controls_lem f f.controls s sent)
      ∙ handle_error-reports fs (with_effects s first) all
      ∙ with_effects-twice s first (reports s fs)
