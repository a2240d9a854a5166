-- ===== src/Http/UnixSocket/Laws.antt =====
-- What the transport relies on of the system: the manual pages of the calls.
use chaos_forger.Prelude.{
  ℕ, suc, ◌≡◌, ◌≤◌, Bool, true, false, ◌++◌, Option, none, some, Bytes, length, take, is_empty, ℤ,
}
use chaos_forger.Http.UnixSocket.{SystemCalls, Direction}

module _ (sys : SystemCalls) where
  -- `outgoing` is what the peer has been sent, `interruptions` how many calls signals will still
  -- cut short, `descriptors` how many are open, and `is_open` whether this one is.
  pub record View : Type 0 where
    pub outgoing : sys.World → Bytes
    pub interruptions : sys.World → ℕ
    pub descriptors : sys.World → ℕ
    pub is_open : ℕ → sys.World → Bool

  module _ (v : View) where
    abbrev pub Interrupted : sys.World → sys.World → Type 0
    Interrupted w u = sys.errno u ≡ sys.eintr → suc (v.interruptions u) ≤ v.interruptions w

    -- Some of the bytes are taken, or none of them.
    abbrev pub Sent : Bytes → sys.World → Option ℕ × sys.World → Type 0
    Sent bytes w (none, u) = (v.outgoing u ≡ v.outgoing w) × Interrupted w u
    Sent bytes w (some n, u) =
        (1 ≤ n)
        × (n ≤ length bytes)
        × (v.outgoing u ≡ v.outgoing w ++ take n bytes)
        × (v.interruptions u ≤ v.interruptions w)

    abbrev pub Got : ℕ → sys.World → Option Bytes × sys.World → Type 0
    Got size w (none, u) = Interrupted w u
    Got size w (some bytes, u) = length bytes ≤ size

    abbrev pub Opened : sys.World → Option ℕ × sys.World → Type 0
    Opened w (none, u) = v.descriptors u ≡ v.descriptors w
    Opened w (some fd, u) = (v.descriptors u ≡ suc (v.descriptors w)) × (v.is_open fd u ≡ true)

    -- Neither opens nor closes.
    abbrev pub Kept : sys.World → sys.World → Type 0
    Kept w u = (v.descriptors u ≡ v.descriptors w) × ((fd : ℕ) → v.is_open fd u ≡ v.is_open fd w)

    -- Sends nothing.
    abbrev pub Silent : sys.World → sys.World → Type 0
    Silent w u = v.outgoing u ≡ v.outgoing w

    pub record SystemLaws : Type 0 where
      pub send-Sent :
          (fd : Option ℕ) (bytes : Bytes) (w : sys.World)
          → is_empty bytes ≡ false
          → Sent bytes w (sys.send fd bytes w)
      pub recv-Got : (fd : Option ℕ) (size : ℕ) (w : sys.World) → Got size w (sys.recv fd size w)
      pub socket-Opened : (w : sys.World) → Opened w (sys.socket w)
      pub close_lem :
          (fd : ℕ) (w : sys.World)
          → v.is_open fd w ≡ true
          → suc (v.descriptors (sys.close fd w)) ≡ v.descriptors w
      pub connect-Kept :
          (fd : Option ℕ) (path : Bytes) (w : sys.World) → Kept w (sys.connect fd path w).1
      pub setsockopt-Kept :
          (fd : Option ℕ) (direction : Direction) (seconds : ℤ) (w : sys.World)
          → Kept w (sys.setsockopt fd direction seconds w)
      pub send-Kept :
          (fd : Option ℕ) (bytes : Bytes) (w : sys.World) → Kept w (sys.send fd bytes w).1
      pub recv-Kept : (fd : Option ℕ) (size : ℕ) (w : sys.World) → Kept w (sys.recv fd size w).1
      pub socket-Silent : (w : sys.World) → Silent w (sys.socket w).1
      pub connect-Silent :
          (fd : Option ℕ) (path : Bytes) (w : sys.World) → Silent w (sys.connect fd path w).1
      pub setsockopt-Silent :
          (fd : Option ℕ) (direction : Direction) (seconds : ℤ) (w : sys.World)
          → Silent w (sys.setsockopt fd direction seconds w)
      pub recv-Silent : (fd : Option ℕ) (size : ℕ) (w : sys.World) → Silent w (sys.recv fd size w).1
      pub close-Silent : (fd : ℕ) (w : sys.World) → Silent w (sys.close fd w)
