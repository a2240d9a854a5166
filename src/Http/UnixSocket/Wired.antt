-- ===== src/Http/UnixSocket/Wired.antt =====
-- `UnixSocketTransport` as a `Transport`, and `unix_socket_factory` of src/docker_api.cpp. Each
-- loop has fuel for its bytes and for the calls that signals will still cut short, which
-- `interruptions` gives.
pub mod Balance
pub mod Traffic
use chaos_forger.Prelude.{ℕ, suc, ◌+◌, length, [], Option, none, some, Bytes, ℤ, Result, err}
use chaos_forger.Http.Client.{Read, failed, Transport}
use chaos_forger.Http.UnixSocket.{
  SystemCalls, Socket, connect, close, describe, send_all, read_some,
}

module _ (sys : SystemCalls) where
  -- The members, with the system.
  pub record UnixSocketTransport : Type 0 where
    pub socket_path : Bytes
    pub timeout_sec : ℤ
    pub socket : Socket sys

  -- A new transport.
  unfoldable pub make_unique : Bytes → ℤ → sys.World → UnixSocketTransport
  make_unique path timeout_sec w = record {
    socket_path = path;
    timeout_sec = timeout_sec;
    socket = record { fd = none; world = w };
  }

  -- The factory's function: a transport of the same path and time-out, in the world so far.
  unfoldable pub unix_socket_factory : UnixSocketTransport → UnixSocketTransport
  unfolding make_unique
  unix_socket_factory c = make_unique c.socket_path c.timeout_sec c.socket.world

  -- The result of a loop, or the given one should its fuel not suffice.
  abbrev pub within_calls {ℓ} :
      {A : Type ℓ} → A → UnixSocketTransport → Option (A × Socket sys) → A × UnixSocketTransport
  within_calls a c none = (a, c)
  within_calls a c (some (r, s)) = (r, record c { socket = s })

  abbrev pub unix_transport : (sys.World → ℕ) → Transport
  unix_transport interruptions = record {
    Conn = UnixSocketTransport;
    connect = λ c.
        let answer = connect sys c.socket_path c.timeout_sec c.socket in
        (answer.0, record c { socket = answer.1 });
    send_all = λ bytes c.
        within_calls (err []) c
          (send_all sys (suc (interruptions c.socket.world + length bytes)) bytes c.socket);
    read_some = λ buf_len c.
        within_calls (failed []) c
          (read_some sys (suc (interruptions c.socket.world)) buf_len c.socket);
    close = λ c. record c { socket = close sys c.socket };
    describe = λ c. describe sys c.socket_path c.timeout_sec;
  }
