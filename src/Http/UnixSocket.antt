-- ===== src/Http/UnixSocket.antt =====
-- `UnixSocketTransport` of src/http_socket.cpp, over the system calls, which are parameters. A
-- descriptor or a count that the system gives as -1 is `none` here.
pub mod Laws
pub mod Sending
pub mod Receiving
pub mod Descriptors
pub mod Loops
pub mod Wired
use chaos_forger.Prelude.{
  ℕ, zero, suc, ◌-◌, Bool, true, false, ◌||◌, List, [], ◌∷◌, ◌++◌, Option, none, some, Bytes, text,
  length, take, drop, is_empty, ltb, leb, ◌==◌, if◌then◌else◌, ℤ, Result, ok, err,
}
use chaos_forger.Http.Client.{Read, received, got_eof, failed}

pub data Direction : Type 0 where
  receiving sending : Direction

-- `World` is the state of the system, the last `errno` included.
pub record SystemCalls : Type 1 where
  pub World : Type 0
  pub errno : World → ℕ
  pub strerror : ℕ → Bytes
  pub eintr : ℕ
  pub eagain : ℕ
  pub ewouldblock : ℕ
  -- `sizeof(sockaddr_un::sun_path)`
  pub sun_path_size : ℕ
  pub socket : World → Option ℕ × World
  -- `SO_RCVTIMEO` or `SO_SNDTIMEO` to whole seconds
  pub setsockopt : Option ℕ → Direction → ℤ → World → World
  pub connect : Option ℕ → Bytes → World → Bool × World
  pub send : Option ℕ → Bytes → World → Option ℕ × World
  -- the bytes that are written to the buffer of the given size, none of them at the end
  pub recv : Option ℕ → ℕ → World → Option Bytes × World
  pub close : ℕ → World → World

-- `c_str()` as `strncpy` reads it.
unfoldable pub c_string : Bytes → Bytes
c_string [] = []
c_string (b ∷ bs) = let rest = c_string bs in if b == 0 then [] else b ∷ rest

module _ (sys : SystemCalls) where
  unfoldable pub sys_error : Bytes → sys.World → Bytes
  sys_error what w = what ++ (text ": " ++ sys.strerror (sys.errno w))

  -- `fd_`, with the system.
  pub record Socket : Type 0 where
    pub fd : Option ℕ
    pub world : sys.World

  unfoldable pub close : Socket → Socket
  close s = elim s.fd [ none ↦ s | some fd ↦ record { fd = none; world = sys.close fd s.world } ]

  module _ (socket_path : Bytes) (timeout_sec : ℤ) where
    -- `addr.sun_path`, and the timeouts of the socket.
    unfoldable pub address : Bytes
    unfolding c_string
    address = take (sys.sun_path_size - 1) (c_string socket_path)

    unfoldable pub with_timeouts : Option ℕ → sys.World → sys.World
    with_timeouts fd w =
        sys.setsockopt fd sending timeout_sec (sys.setsockopt fd receiving timeout_sec w)

    -- From what `::socket` gives on.
    unfoldable pub connected : Option ℕ × sys.World → Result (Unit {0}) × Socket
    unfolding sys_error close address with_timeouts
    connected (none, w) =
        (err (sys_error (text "socket(AF_UNIX) failed") w), record { fd = none; world = w })
    connected (some fd, w) =
        let answer = sys.connect (some fd) address (with_timeouts (some fd) w) in
        let s : Socket = record { fd = some fd; world = answer.1 } in
        if answer.0 then (ok tt, s) else (
          err (sys_error (text "connect('" ++ (socket_path ++ text "') failed")) answer.1),
          close s,
        )

    unfoldable pub connect : Socket → Result (Unit {0}) × Socket
    unfolding connected
    connect s =
        if is_empty socket_path
        then (err (text "socket path is empty"), s)
        else if leb sys.sun_path_size (length socket_path)
        then (err (text "socket path too long: '" ++ (socket_path ++ text "'")), s)
        else connected (sys.socket s.world)

    unfoldable pub describe : Bytes
    describe = text "unix:" ++ socket_path

  -- A pass of a loop leaves it with its result, or goes on.
  pub data Step (A : Type 0) : Type 0 where
    stop : A → Step A
    more : ℕ → Step A

  unfoldable pub send_step : Option ℕ → sys.World → Step (Result (Unit {0}))
  unfolding sys_error
  send_step (some n) w = more n
  send_step none w =
      if sys.errno w == sys.eintr then more 0 else stop (err (sys_error (text "send() failed") w))

  -- With the bytes that are not sent yet.
  unfoldable pub send_all : ℕ → Bytes → Socket → Option (Result (Unit {0}) × Socket)
  unfolding send_step
  send_all zero bytes s = none
  send_all (suc fuel) bytes s =
      let answer = sys.send s.fd bytes s.world in
      let s' : Socket = record { fd = s.fd; world = answer.1 } in
      let rest : Option (Result (Unit {0}) × Socket) = elim (send_step answer.0 answer.1) [
        | stop r ↦ some (r, s')
        | more n ↦ send_all fuel (drop n bytes) s'
      ] in
      if is_empty bytes then some (ok tt, s) else rest

  -- What `read_some` makes of an error of `::recv`.
  unfoldable pub recv_error : sys.World → Step Read
  unfolding sys_error
  recv_error w =
      if sys.errno w == sys.eintr
      then more 0
      else if sys.errno w == sys.eagain || sys.errno w == sys.ewouldblock
      then stop (failed (sys_error (text "recv() timed out") w))
      else stop (failed (sys_error (text "recv() failed") w))

  unfoldable pub recv_step : Option Bytes → sys.World → Step Read
  unfolding recv_error
  recv_step none w = recv_error w
  recv_step (some []) w = stop got_eof
  recv_step (some (b ∷ bs)) w = stop (received (b ∷ bs))

  unfoldable pub read_some : ℕ → ℕ → Socket → Option (Read × Socket)
  unfolding recv_step
  read_some zero buf_len s = none
  read_some (suc fuel) buf_len s =
      let answer = sys.recv s.fd buf_len s.world in
      let s' : Socket = record { fd = s.fd; world = answer.1 } in
      elim (recv_step answer.0 answer.1) [
        | stop r ↦ some (r, s')
        | more _ ↦ read_some fuel buf_len s'
      ]
