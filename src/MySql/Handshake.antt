-- ===== src/MySql/Handshake.antt =====
-- src/Protocols/MySQL/Client.cc: `initial_handshake` and `compute_auth_response`.
pub mod Greeting
pub mod Login
use libevent_async.Prelude.{
  ℕ, zero, suc, ◌+◌, ◌-◌, ◌*◌, ◌^◌, List, [], ◌∷◌, ◌++◌, length, take, replicate, not, ltb, ◌==◌,
  if◌then◌else◌, bit_or, bit_xor,
}
use libevent_async.Prelude.Bytes.{same_bytes}
use libevent_async.Prelude.Action.{
  Action, runtime_error, runtime_error_with, logic_error, pure, suspend, throw, ◌>>=◌, ◌>>◌,
}
use libevent_async.Libevent.{EvBuffer, Network}
use libevent_async.Phosg.{Phosg}
use libevent_async.Buffer.{
  get_length, drain, remove, add_u8, add_u32l, remove_u8, remove_u16l, remove_u32l,
}
use libevent_async.Buffer.Sending.{with_buffer}
use libevent_async.MySql.ProtocolBuffer.{
  remove_string0, remove_string_eof, add_zeroes, add_string0, add_var_string,
}
use libevent_async.MySql.Client.{
  Client, Session, Talk, on_bytes, on_client, on_session, read_command, write_command, reset_seq,
}

-- "caching_sha2_password".
abbrev pub caching_sha2_password : List ℕ
caching_sha2_password =
    99 ∷ 97 ∷ 99 ∷ 104 ∷ 105 ∷ 110 ∷ 103 ∷ 95 ∷ 115 ∷ 104 ∷ 97 ∷ 50 ∷ 95 ∷ 112 ∷ 97 ∷ 115 ∷ 115
    ∷ 119 ∷ 111 ∷ 114 ∷ 100 ∷ []

unfoldable pub xor_bytes : List ℕ → List ℕ → List ℕ
xor_bytes [] ys = []
xor_bytes (x ∷ xs) [] = []
xor_bytes (x ∷ xs) (y ∷ ys) = bit_xor x y ∷ xor_bytes xs ys

-- `auth_plugin_data_length - 8` in 64 bits, and 13 at least.
unfoldable pub remaining_auth_data_length : ℕ → ℕ
remaining_auth_data_length auth_plugin_data_length =
    if ltb auth_plugin_data_length 8
    then auth_plugin_data_length + 2 ^ 64 - 8
    else if ltb (auth_plugin_data_length - 8) 13
    then 13
    else auth_plugin_data_length - 8

-- `string::resize`.
abbrev pub resize : ℕ → List ℕ → List ℕ
resize n bytes = take n bytes ++ replicate (n - length bytes) 0

-- The challenge without the NUL that it may end with.
unfoldable pub strip_nul : List ℕ → List ℕ
strip_nul [] = []
strip_nul (zero ∷ []) = []
strip_nul (suc b ∷ []) = suc b ∷ []
strip_nul (b ∷ c ∷ cs) = b ∷ strip_nul (c ∷ cs)

module _ ⦃P : Phosg⦄ where
  unfoldable pub scramble : List ℕ → List ℕ → List ℕ
  scramble auth_plugin_data password =
      let password_sha256 = P.sha256 password in
      xor_bytes password_sha256 (P.sha256 (P.sha256 password_sha256 ++ auth_plugin_data))

module _ ⦃E : EvBuffer⦄ ⦃N : Network⦄ where
  abbrev pub change : (Client → Client) → Action Talk (Unit {0})
  change f = on_client λ c. (tt, f c)

  abbrev pub check_version : ℕ → Action Talk (Unit {0})
  check_version version =
      if not (version == 10) then throw (runtime_error "unrecognized protocol version") else pure tt

  -- Up to the first part of the challenge.
  unfoldable pub read_identity : Action Talk (List ℕ)
  read_identity = do
    version ← on_bytes remove_u8
    check_version version
    server_version ← on_bytes remove_string0
    change λ c. record c { server_version = server_version }
    connection_id ← on_bytes remove_u32l
    change λ c. record c { connection_id = connection_id }
    on_bytes (remove 8)

  -- The length of the challenge.
  unfoldable pub read_flags : Action Talk ℕ
  read_flags = do
    unused ← on_bytes remove_u8
    server_cap_flags ← on_bytes remove_u16l
    change λ c. record c { server_cap_flags = server_cap_flags }
    charset ← on_bytes remove_u8
    change λ c. record c { charset = charset }
    status_flags ← on_bytes remove_u16l
    change λ c. record c { status_flags = status_flags }
    high ← on_bytes remove_u16l
    change λ c. record c { server_cap_flags = bit_or c.server_cap_flags (high * 2 ^ 16) }
    auth_plugin_data_length ← on_bytes remove_u8
    on_bytes (drain 10)
    pure auth_plugin_data_length

  abbrev pub check_consumed : {A : Type 0} → A → ℕ → Action Talk A
  check_consumed a size =
      if not (size == 0)
      then throw (logic_error "not all data in initial handshake was consumed")
      else pure a

  -- The challenge and the plugin's name.
  unfoldable pub read_challenge : List ℕ → ℕ → Action Talk (List ℕ × List ℕ)
  read_challenge first auth_plugin_data_length = do
    more ← on_bytes (remove (remaining_auth_data_length auth_plugin_data_length))
    auth_plugin_name ← on_bytes remove_string0
    size ← on_bytes get_length
    check_consumed (strip_nul (resize auth_plugin_data_length (first ++ more)), auth_plugin_name)
        size

  unfoldable pub read_greeting : Action Talk (List ℕ × List ℕ)
  read_greeting = do
    read_command
    first ← read_identity
    auth_plugin_data_length ← read_flags
    read_challenge first auth_plugin_data_length

  module _ ⦃P : Phosg⦄ where
    unfoldable pub compute_auth_response : List ℕ → List ℕ → List ℕ → Action Talk (List ℕ)
    compute_auth_response auth_plugin_name auth_plugin_data password =
        if same_bytes auth_plugin_name caching_sha2_password
        then pure (scramble auth_plugin_data password)
        else throw (runtime_error_with "unsupported auth plugin: " auth_plugin_name)

    unfoldable pub send_reply : List ℕ → List ℕ → Action Talk (Unit {0})
    send_reply auth_challenge_data auth_plugin_name = do
      password ← on_client (λ c. (c.password, c))
      auth_response_data ← compute_auth_response auth_plugin_name auth_challenge_data password
      on_bytes (add_u32l 0x012BA201)
      on_bytes (add_u32l 0xFFFFFFFF)
      on_bytes (add_u8 0xFF)
      on_bytes (add_zeroes 23)
      username ← on_client (λ c. (c.username, c))
      on_bytes (add_string0 username)
      on_bytes (add_var_string auth_response_data)
      on_bytes (add_string0 auth_plugin_name)
      write_command

    abbrev pub check_extra : ℕ → Action Talk (Unit {0})
    check_extra size =
        if not (size == 0)
        then throw (runtime_error "auth extra data not fully consumed")
        else throw
            (runtime_error "server requested plaintext password, but connection is not encrypted")

    unfoldable pub on_sha2_command : Action Talk (Unit {0}) → ℕ → Action Talk (Unit {0})
    on_sha2_command again command =
        if command == 3
        then again
        else if command == 4
        then (do size ← on_bytes get_length; check_extra size)
        else throw (runtime_error "unrecognized extra auth data command (caching_sha2_password)")

    unfoldable pub on_more_data : Action Talk (Unit {0}) → List ℕ → Action Talk (Unit {0})
    on_more_data again auth_plugin_name =
        if same_bytes auth_plugin_name caching_sha2_password
        then (do command ← on_bytes remove_u8; on_sha2_command again command)
        else throw (
            runtime_error_with "extra auth data command unimplemented for plugin " auth_plugin_name)

    unfoldable pub authentication_failed : Action Talk (Unit {0})
    authentication_failed = do
      error_code ← on_bytes remove_u16l
      on_bytes (drain 1)
      sqlstate ← on_bytes (remove 5)
      message ← on_bytes remove_string_eof
      throw (runtime_error (P.authentication_error error_code message))

    unfoldable pub on_auth_response : Action Talk (Unit {0}) → List ℕ → ℕ → Action Talk (Unit {0})
    on_auth_response again auth_plugin_name response_command =
        if response_command == 0x00
        then pure tt
        else if response_command == 0x01
        then on_more_data again auth_plugin_name
        else if response_command == 0xFF
        then authentication_failed
        else throw (runtime_error "unrecognized command during authentication phase")

    -- The loop, over `rounds` commands of the server at most.
    unfoldable pub auth_loop : ℕ → List ℕ → Action Talk (Unit {0})
    auth_loop zero auth_plugin_name = suspend
    auth_loop (suc rounds) auth_plugin_name = do
      read_command
      response_command ← on_bytes remove_u8
      on_auth_response (auth_loop rounds auth_plugin_name) auth_plugin_name response_command

    unfoldable pub handshake_on : ℕ → Action Talk (Unit {0})
    handshake_on rounds = do
      on_session reset_seq
      (auth_challenge_data, auth_plugin_name) ← read_greeting
      send_reply auth_challenge_data auth_plugin_name
      auth_loop rounds auth_plugin_name

    unfoldable pub initial_handshake : ℕ → Action Session (Unit {0})
    initial_handshake rounds = with_buffer (handshake_on rounds)
