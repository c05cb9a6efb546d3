-- ===== src/Relay/Parsing.antt =====
-- The requests that `ParseRequest` accepts.
use cpp_code_blocks.Prelude.{
  ℕ, zero, suc, ◌+◌, ◌*◌, ◌≤◌, ◌<◌, ◌≡◌, ◌∙◌, ap, sym, subst, refl, inl, inr, Bool, true, false,
  List, [], ◌∷◌, Option, none, some, ltb, ◌==◌, if◌then◌else◌, ◌>>=◌, length, take, drop,
  length-take, take-drop, arith, Bool-cases, chosen, passed_over,
}
use cpp_code_blocks.Relay.Request.{
  Buffers, BufferLaws, req_addr_type, req_dst_addr_varlen, req_dst_addr, req_dst_port, req_done,
  ServerConnMeta, Turn, by_state, read_addr_type, read_addr_len, read_hostname, read_port, turn,
  after_turn, parse_loop, parse_request,
}
use cpp_code_blocks.Relay.Grammar.{Request, port_of, host_of, request_of}

whole_take : (n : ℕ) (xs : List ℕ) → ltb n (length xs) ≡ true → length (take n xs) ≡ n
whole_take n xs h =
    let below : n < length xs = ground (arith, h) in omega (arith, length-take n xs, below)

module _ {buffers : Buffers} (laws : BufferLaws buffers) where
  abbrev Parsed : Type 0
  Parsed = Option (Bool × ServerConnMeta buffers)

  -- The request has been parsed, or there is none.
  abbrev pub Answers : Option Request → Parsed → Type 0
  Answers none result = (m : ServerConnMeta buffers) × (result ≡ some (false, m))
  Answers (some (host, port, rest)) result =
      (m : ServerConnMeta buffers) × (result ≡ some (true, m))
      × (m.state ≡ req_done)
      × (m.dst_hostname ≡ host)
      × (m.dst_port ≡ port)
      × (laws.contents m.buf ≡ rest)

  module _ (fuel need : ℕ) (m : ServerConnMeta buffers) (cs : List ℕ)
      (e : laws.contents m.buf ≡ cs) where
    enough : (b : Bool) → ltb need (length cs) ≡ b → ltb need (buffers.readable_bytes m.buf) ≡ b
    enough b h = ap (ltb need) (laws.counts m.buf ∙ ap length e) ∙ h

    stop : ltb need (length cs) ≡ false → parse_loop buffers (suc fuel) need m ≡ some (false, m)
    unfolding parse_loop
    stop h = passed_over _ _ _ (enough false h)

    step :
        ltb need (length cs) ≡ true
        → parse_loop buffers (suc fuel) need m
          ≡ (turn buffers need m >>= after_turn buffers (parse_loop buffers fuel))
    unfolding parse_loop
    step h = chosen _ _ _ (enough true h)

  along-Answers : (r : Option Request) (x y : Parsed) → x ≡ y → Answers r y → Answers r x
  along-Answers r x y e v = subst (Answers r) (sym e) v

  port_Answers :
      (fuel : ℕ) (m : ServerConnMeta buffers) (cs : List ℕ)
      → laws.contents m.buf ≡ cs
      → m.state ≡ req_dst_port
      → Answers (port_of m.dst_hostname cs) (parse_loop buffers (suc fuel) 2 m)
  unfolding port_of turn
  port_Answers fuel m [] e here = (m, stop fuel 2 m [] e refl)
  port_Answers fuel m (x ∷ []) e here = (m, stop fuel 2 m (x ∷ []) e refl)
  port_Answers fuel m (x ∷ y ∷ []) e here = (m, stop fuel 2 m (x ∷ y ∷ []) e refl)
  port_Answers fuel m (x ∷ y ∷ z ∷ zs) e here =
      let read = laws.reads_int16 m.buf x y (z ∷ zs) e in
      (
        record m { buf = read.0; dst_port = x * 256 + y; state = req_done },
        step fuel 2 m (x ∷ y ∷ z ∷ zs) e (ground arith)
            ∙ ap (λ s. by_state buffers s 2 m >>= after_turn buffers (parse_loop buffers fuel)) here
            ∙ ap
                (λ o.
                  o
                  >>= (λ r. some (read_port buffers m r))
                  >>= after_turn buffers (parse_loop buffers fuel))
                read.1,
        refl,
        refl,
        refl,
        read.2,
      )

  of_same-Answers :
      (r r' : Option Request) (result : Parsed) → r ≡ r' → Answers r' result → Answers r result
  of_same-Answers r r' result e v = subst (λ r. Answers r result) (sym e) v

  host_Answers :
      (fuel : ℕ) (m : ServerConnMeta buffers) (cs : List ℕ)
      → laws.contents m.buf ≡ cs
      → m.state ≡ req_dst_addr
      → Answers
          (host_of (m.dst_addr_len ∷ cs))
          (parse_loop buffers (suc (suc fuel)) m.dst_addr_len m)
  unfolding host_of turn
  host_Answers fuel m cs e here =
      let len = m.dst_addr_len in
      elim (Bool-cases (ltb len (length cs))) [
        | inr short ↦
            of_same-Answers _ _ (parse_loop buffers (suc (suc fuel)) len m)
              (passed_over (ltb len (length cs)) _ _ short) (m, stop (suc fuel) len m cs e short)
        | inl long ↦
            let read =
              laws.retrieves m.buf (take len cs) (drop len cs) (e ∙ sym (take-drop len cs)) in
            let got : buffers.retrieve_as_string len m.buf ≡ some (take len cs, read.0) =
              subst (λ n. buffers.retrieve_as_string n m.buf ≡ some (take len cs, read.0))
                (whole_take len cs long) read.1 in
            let next = record m {
              buf = read.0;
              dst_hostname = take len cs;
              state = req_dst_port;
            } in
            of_same-Answers _ _ (parse_loop buffers (suc (suc fuel)) len m)
              (chosen (ltb len (length cs)) _ _ long)
              (along-Answers (port_of (take len cs) (drop len cs)) _
                (parse_loop buffers (suc fuel) 2 next)
                (step (suc fuel) len m cs e long
                  ∙ ap
                      (λ s.
                        by_state buffers s len m
                        >>= after_turn buffers (parse_loop buffers (suc fuel)))
                      here
                  ∙ ap
                      (λ o.
                        o
                        >>= (λ r. some (read_hostname buffers m r))
                        >>= after_turn buffers (parse_loop buffers (suc fuel)))
                      got)
                (port_Answers fuel next (drop len cs) read.2 refl))
      ]

  len_Answers :
      (fuel : ℕ) (m : ServerConnMeta buffers) (cs : List ℕ)
      → laws.contents m.buf ≡ cs
      → m.state ≡ req_dst_addr_varlen
      → Answers (host_of cs) (parse_loop buffers (suc (suc (suc fuel))) 0 m)
  unfolding host_of turn
  len_Answers fuel m [] e here = (m, stop (suc (suc fuel)) 0 m [] e refl)
  len_Answers fuel m (len ∷ cs) e here =
      let read = laws.reads_int8 m.buf len cs e in
      let next = record m { buf = read.0; dst_addr_len = len; state = req_dst_addr } in
      let again = after_turn buffers (parse_loop buffers (suc (suc fuel))) in
      along-Answers (host_of (len ∷ cs)) _ (parse_loop buffers (suc (suc fuel)) len next)
        (step (suc (suc fuel)) 0 m (len ∷ cs) e (ground arith)
          ∙ ap (λ s. by_state buffers s 0 m >>= again) here
          ∙ ap (λ o. o >>= (λ r. some (read_addr_len buffers m r)) >>= again) read.1)
        (host_Answers fuel next cs read.2 refl)

  -- The turn on a type of address `t`, with `rest` behind it.
  type_turn :
      (fuel t : ℕ) (rest : List ℕ) (m : ServerConnMeta buffers)
      → laws.contents m.buf ≡ t ∷ rest
      → m.state ≡ req_addr_type
      → (b : buffers.Buffer) × (laws.contents b ≡ rest)
        × (parse_loop buffers (suc fuel) 0 m
            ≡ after_turn buffers (parse_loop buffers fuel) (read_addr_type buffers 0 m (t, b)))
  unfolding turn
  type_turn fuel t rest m e here =
      let read = laws.reads_int8 m.buf t rest e in
      let again = after_turn buffers (parse_loop buffers fuel) in
      (
        read.0,
        read.2,
        step fuel 0 m (t ∷ rest) e (ground arith)
            ∙ ap (λ s. by_state buffers s 0 m >>= again) here
            ∙ ap (λ o. o >>= (λ r. some (read_addr_type buffers 0 m r)) >>= again) read.1,
      )

  enough_Answers :
      (fuel : ℕ) (m : ServerConnMeta buffers) (cs : List ℕ)
      → 3 ≤ fuel
      → laws.contents m.buf ≡ cs
      → m.state ≡ req_dst_addr_varlen
      → Answers (host_of cs) (parse_loop buffers fuel 0 m)
  enough_Answers zero m cs n e here = absurd (omega (arith, n))
  enough_Answers (suc zero) m cs n e here = absurd (omega (arith, n))
  enough_Answers (suc (suc zero)) m cs n e here = absurd (omega (arith, n))
  enough_Answers (suc (suc (suc fuel))) m cs n e here = len_Answers fuel m cs e here

  pick_Answers :
      (again : Turn buffers → Parsed) (c : Bool) (r r' : Option Request) (t t' : Turn buffers)
      → Answers r (again t)
      → Answers r' (again t')
      → Answers (if c then r else r') (again (if c then t else t'))
  pick_Answers again true r r' t t' v w = v
  pick_Answers again false r r' t t' v w = w

  loop_Answers :
      (fuel : ℕ) (m : ServerConnMeta buffers) (cs : List ℕ)
      → laws.contents m.buf ≡ cs
      → m.state ≡ req_addr_type
      → length cs + 3 ≤ fuel
      → Answers (request_of cs) (parse_loop buffers fuel 0 m)
  unfolding request_of
  loop_Answers zero m cs e here n = absurd (omega (arith, n))
  loop_Answers (suc fuel) m [] e here n = (m, stop fuel 0 m [] e refl)
  loop_Answers (suc fuel) m (t ∷ rest) e here n =
      let (b, left, first) = type_turn fuel t rest m e here in
      let refused = record m { buf = b } in
      let again = after_turn buffers (parse_loop buffers fuel) in
      along-Answers (request_of (t ∷ rest)) _ _ first (
        pick_Answers again (t == 3) _ _ _ _
          (enough_Answers fuel (record m { buf = b; state = req_dst_addr_varlen }) rest
            (omega (arith, n)) left refl)
          (pick_Answers again (t == 1) none _ (Turn.returns false refused) _ (refused, refl)
            (pick_Answers again (t == 4) none _ (Turn.returns false refused) _ (refused, refl)
              (loop_Answers fuel refused rest left here (omega (arith, n))))))

  -- For a connection that has not yet read the type of an address, `ParseRequest` ends and no read is
  -- past the end of the buffer, whatever bytes are there. It answers as the grammar does: true for
  -- bytes that hold, after bytes that are no type of address, a 3, a length, a name of that length,
  -- two bytes of a port, and at least one byte more, with that name, that port in network order, and
  -- the rest left in the buffer; and false for all others.
  pub parse_request-request_of :
      (m : ServerConnMeta buffers)
      → m.state ≡ req_addr_type
      → Answers (request_of (laws.contents m.buf)) (parse_request buffers m)
  unfolding parse_request
  parse_request-request_of m here =
      loop_Answers (buffers.readable_bytes m.buf + 3) m (laws.contents m.buf) refl here
        (omega (arith, laws.counts m.buf))
