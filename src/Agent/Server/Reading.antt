-- ===== src/Agent/Server/Reading.antt =====
-- `handle_connection` reads its request piece by piece; the pieces are those of `decode_request`.
use env_proxy.Prelude.{
  ℕ, zero, suc, ◌+◌, ◌≤◌, ◌<◌, ◌≡◌, ◌≢◌, refl, ◌⊎◌, [], none, some, ok, err, arith, length, take,
  drop, drop-drop, length-drop, get_or-take,
}
use env_proxy.Proto.Wire.{protocol_v1, protocol_v2, byte_at, from_be_bytes}
use env_proxy.Agent.Backend.{Backend}
use env_proxy.Agent.Server.{
  Conn, receive, receive_buffer, receive_value, answer, handle_connection, unsupported,
  send_response,
}

module _ {S : Type 0} where
  -- The connection once `n` bytes have been read.
  abbrev pub after_reading : ℕ → Conn S → Conn S
  after_reading n c = record {
    stream = record c.stream { incoming = drop n c.stream.incoming };
    shared = c.shared;
  }

  -- The connection once the stream has ended before a read was served.
  abbrev pub at_end : Conn S → Conn S
  at_end c = record { stream = record c.stream { incoming = [] }; shared = c.shared }

  pub receive_all :
      (n : ℕ) (c : Conn S)
      → n ≤ length c.stream.incoming
      → receive n c ≡ (ok (take n c.stream.incoming), after_reading n c)
  unfolding receive
  receive_all n c h = ground arith

  pub receive_short :
      (n : ℕ) (c : Conn S)
      → length c.stream.incoming < n
      → receive n c ≡ (err c.stream.read_error, at_end c)
  unfolding receive
  receive_short n c h = ground arith

  pub receive_buffer_all :
      (n : ℕ) (c : Conn S)
      → n ≤ length c.stream.incoming
      → receive_buffer n c ≡ (ok (take n c.stream.incoming), after_reading n c)
  unfolding receive_buffer
  receive_buffer_all zero c h = refl
  receive_buffer_all (suc n) c h = ground arith

  pub receive_buffer_short :
      (n : ℕ) (c : Conn S)
      → length c.stream.incoming < n
      → receive_buffer n c ≡ (err c.stream.read_error, at_end c)
  unfolding receive_buffer
  receive_buffer_short n c h = ground arith

  pub receive_value_v1 :
      (version : ℕ) (c : Conn S) → version ≡ protocol_v1 → receive_value version c ≡ (ok none, c)
  unfolding receive_value
  receive_value_v1 version c h = ground arith

  -- The value of a version 2 request.
  abbrev pub value_len : Conn S → ℕ
  value_len c = from_be_bytes (byte_at c.stream.incoming 0) (byte_at c.stream.incoming 1)

  pub receive_value_all :
      (c : Conn S)
      → 2 + value_len c ≤ length c.stream.incoming
      → receive_value protocol_v2 c ≡ (
        ok (some (take (value_len c) (drop 2 c.stream.incoming))),
        after_reading (2 + value_len c) c,
      )
  unfolding receive_value
  receive_value_all c h =
      let inc = c.stream.incoming in
      ground (
        arith,
        receive_all 2 c,
        receive_buffer_all (value_len c) (after_reading 2 c),
        get_or-take 2 0 inc 0,
        get_or-take 2 1 inc 0,
        drop-drop 2 (value_len c) inc,
        length-drop 2 inc,
      )

  pub receive_value_short :
      (c : Conn S)
      → length c.stream.incoming < 2 + value_len c
      → receive_value protocol_v2 c ≡ (err c.stream.read_error, at_end c)
  unfolding receive_value
  receive_value_short c h =
      let inc = c.stream.incoming in
      ground (
        arith,
        receive_all 2 c,
        receive_short 2 c,
        receive_buffer_short (value_len c) (after_reading 2 c),
        get_or-take 2 0 inc 0,
        get_or-take 2 1 inc 0,
        length-drop 2 inc,
      )

  abbrev pub key_len : Conn S → ℕ
  key_len c = from_be_bytes (byte_at c.stream.incoming 1) (byte_at c.stream.incoming 2)

  -- After its header, a request of version 1 is answered once the key is there.
  pub handle_v1 :
      (b : Backend S) (c : Conn S)
      → byte_at c.stream.incoming 0 ≡ protocol_v1
      → 3 + key_len c ≤ length c.stream.incoming
      → handle_connection b c
        ≡ answer b
            (take (key_len c) (drop 3 c.stream.incoming))
            none
            (after_reading (3 + key_len c) c)
  unfolding handle_connection
  handle_v1 b c v h =
      let inc = c.stream.incoming in
      let c' = after_reading (3 + key_len c) c in
      ground (
        arith,
        receive_all 3 c,
        receive_buffer_all (key_len c) (after_reading 3 c),
        get_or-take 3 0 inc 0,
        get_or-take 3 1 inc 0,
        get_or-take 3 2 inc 0,
        length-drop 3 inc,
        drop-drop 3 (key_len c) inc,
        receive_value_v1 (byte_at inc 0) c',
      )

  pub handle_v2 :
      (b : Backend S) (c : Conn S)
      → byte_at c.stream.incoming 0 ≡ protocol_v2
      → 3 + key_len c ≤ length c.stream.incoming
      → 2 + value_len (after_reading (3 + key_len c) c)
        ≤ length (drop (3 + key_len c) c.stream.incoming)
      → handle_connection b c
        ≡ answer b
            (take (key_len c) (drop 3 c.stream.incoming))
            (some (
              take
                (value_len (after_reading (3 + key_len c) c))
                (drop 2 (drop (3 + key_len c) c.stream.incoming))))
            (after_reading
              (2 + value_len (after_reading (3 + key_len c) c))
              (after_reading (3 + key_len c) c))
  unfolding handle_connection
  handle_v2 b c v h k =
      let inc = c.stream.incoming in
      let c' = after_reading (3 + key_len c) c in
      ground (
        arith,
        receive_all 3 c,
        receive_buffer_all (key_len c) (after_reading 3 c),
        get_or-take 3 0 inc 0,
        get_or-take 3 1 inc 0,
        get_or-take 3 2 inc 0,
        length-drop 3 inc,
        drop-drop 3 (key_len c) inc,
        receive_value_all c',
      )

  pub handle_unsupported :
      (b : Backend S) (c : Conn S)
      → 3 ≤ length c.stream.incoming
      → byte_at c.stream.incoming 0 ≢ protocol_v1
      → byte_at c.stream.incoming 0 ≢ protocol_v2
      → handle_connection b c
        ≡ send_response (unsupported (byte_at c.stream.incoming 0)) (after_reading 3 c)
  unfolding handle_connection
  handle_unsupported b c h n1 n2 =
      ground (arith, receive_all 3 c, get_or-take 3 0 c.stream.incoming 0)

  pub handle_no_header :
      (b : Backend S) (c : Conn S)
      → length c.stream.incoming < 3
      → handle_connection b c ≡ (err c.stream.read_error, at_end c)
  unfolding handle_connection
  handle_no_header b c h = ground (arith, receive_short 3 c)

  pub handle_no_key :
      (b : Backend S) (c : Conn S)
      → (byte_at c.stream.incoming 0 ≡ protocol_v1) ⊎ (byte_at c.stream.incoming 0 ≡ protocol_v2)
      → 3 ≤ length c.stream.incoming
      → length c.stream.incoming < 3 + key_len c
      → handle_connection b c ≡ (err c.stream.read_error, at_end c)
  unfolding handle_connection
  handle_no_key b c v h k =
      let inc = c.stream.incoming in
      ground (
        arith,
        receive_all 3 c,
        receive_buffer_short (key_len c) (after_reading 3 c),
        get_or-take 3 0 inc 0,
        get_or-take 3 1 inc 0,
        get_or-take 3 2 inc 0,
        length-drop 3 inc,
      )

  pub handle_no_value :
      (b : Backend S) (c : Conn S)
      → byte_at c.stream.incoming 0 ≡ protocol_v2
      → 3 + key_len c ≤ length c.stream.incoming
      → length (drop (3 + key_len c) c.stream.incoming)
        < 2 + value_len (after_reading (3 + key_len c) c)
      → handle_connection b c ≡ (err c.stream.read_error, at_end c)
  unfolding handle_connection
  handle_no_value b c v h k =
      let inc = c.stream.incoming in
      let c' = after_reading (3 + key_len c) c in
      ground (
        arith,
        receive_all 3 c,
        receive_buffer_all (key_len c) (after_reading 3 c),
        get_or-take 3 0 inc 0,
        get_or-take 3 1 inc 0,
        get_or-take 3 2 inc 0,
        length-drop 3 inc,
        drop-drop 3 (key_len c) inc,
        receive_value_short c',
      )
