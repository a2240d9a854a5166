-- ===== src/Http/UnixSocket/Loops.antt =====
-- The loops of the Unix socket transport: what each call in them keeps of the socket.
use chaos_forger.Prelude.{ℕ, zero, suc, Option, some, Bytes, drop, is_empty, if_cases}
use chaos_forger.Http.Client.Lifecycle.{AllDown}
use chaos_forger.Http.UnixSocket.{
  SystemCalls, Socket, Step, stop, more, send_step, send_all, recv_step, read_some,
}

module _ (sys : SystemCalls) (P : Socket sys → Type 0) where
  -- How a pass of a loop goes on.
  abbrev next :
      {A : Type 0}
      → Socket sys
      → (ℕ → Option (A × Socket sys))
      → Step sys A
      → Option (A × Socket sys)
  next s go (stop r) = some (r, s)
  next s go (more k) = go k

  next-AllDown :
      {A : Type 0} (s : Socket sys) (go : ℕ → Option (A × Socket sys)) (x : Step sys A)
      → P s
      → ((k : ℕ) → AllDown P (go k))
      → AllDown P (next s go x)
  next-AllDown s go (stop r) h later = h
  next-AllDown s go (more k) h later = later k

  -- What a call of `::send` keeps, `send_all` keeps.
  pub send_all-AllDown :
      ((bytes : Bytes) (s : Socket sys)
        → P s
        → P (record { fd = s.fd; world = (sys.send s.fd bytes s.world).1 }))
      → (fuel : ℕ) (bytes : Bytes) (s : Socket sys) → P s
      → AllDown P (send_all sys fuel bytes s)
  unfolding send_all
  send_all-AllDown kept zero bytes s h = tt
  send_all-AllDown kept (suc fuel) bytes s h =
      let answer = sys.send s.fd bytes s.world in
      let after = kept bytes s h in
      if_cases (AllDown P) (is_empty bytes) (λ _. h)
        (λ _.
          next-AllDown _ (λ k. send_all sys fuel (drop k bytes) _) (send_step sys answer.0 answer.1)
            after (λ k. send_all-AllDown kept fuel (drop k bytes) _ after))

  -- What a call of `::recv` keeps, `read_some` keeps.
  pub read_some-AllDown :
      ((size : ℕ) (s : Socket sys)
        → P s
        → P (record { fd = s.fd; world = (sys.recv s.fd size s.world).1 }))
      → (fuel buf_len : ℕ) (s : Socket sys) → P s
      → AllDown P (read_some sys fuel buf_len s)
  unfolding read_some
  read_some-AllDown kept zero buf_len s h = tt
  read_some-AllDown kept (suc fuel) buf_len s h =
      let answer = sys.recv s.fd buf_len s.world in
      let after = kept buf_len s h in
      next-AllDown _ (λ k. read_some sys fuel buf_len _) (recv_step sys answer.0 answer.1) after
        (λ k. read_some-AllDown kept fuel buf_len _ after)
