-- ===== src/Network/Sockets.antt =====
-- writeSocket, tryReadSocket and readSocket (src/nn/nn-network.cpp), on the sequence of what the
-- calls of send and recv on a socket give.
pub mod Chunks
use distributed_llama.Base.{
  ℕ, zero, suc, ◌+◌, ◌-◌, ◌≤◌, ◌<◌, Bool, true, false, ◌&&◌, List, [], ◌∷◌, ◌++◌, Option, none,
  some, length, take, drop, ◌==◌, ltb, if◌then◌else◌, Result, ok, err, runtime_error,
}

-- A call of recv: bytes, EAGAIN, another error, or the end of the connection.
pub data Received : Type 0 where
  received_bytes : List ℕ → Received
  received_again received_error received_end : Received

-- What a turn that has found EAGAIN does with the attempts that are left.
abbrev pub after_again :
    Bool → ℕ → (ℕ → Option (Result (Bool × List ℕ))) → List ℕ → Option (Result (Bool × List ℕ))
after_again true (suc zero) next got = some (ok (false, got))
after_again true (suc (suc n)) next got = next (suc n)
after_again true zero next got = next zero
after_again false attempts next got = next attempts

-- The loop, with `s` bytes still to come and `got` read; `none` is that the calls end first.
unfoldable pub try_read_loop : List Received → ℕ → ℕ → ℕ → List ℕ → Option (Result (Bool × List ℕ))
try_read_loop events size zero attempts got = some (ok (true, got))
try_read_loop [] size (suc s) attempts got = none
try_read_loop (received_error ∷ events) size (suc s) attempts got = some (err runtime_error)
try_read_loop (received_end ∷ events) size (suc s) attempts got = some (err runtime_error)
try_read_loop (received_again ∷ events) size (suc s) attempts got =
    after_again (suc s == size) attempts
      (λ attempts. try_read_loop events size (suc s) attempts got) got
try_read_loop (received_bytes bytes ∷ events) size (suc s) attempts got =
    try_read_loop events size (suc s - length bytes) attempts (got ++ bytes)

unfoldable pub try_read_socket : List Received → ℕ → ℕ → Option (Result (Bool × List ℕ))
unfolding try_read_loop
try_read_socket events size max_attempts = try_read_loop events size size max_attempts []

abbrev pub must_read : Option (Result (Bool × List ℕ)) → Option (Result (List ℕ))
must_read none = none
must_read (some (err e)) = some (err e)
must_read (some (ok (true, got))) = some (ok got)
must_read (some (ok (false, got))) = some (err runtime_error)

unfoldable pub read_socket : List Received → ℕ → Option (Result (List ℕ))
unfolding try_read_socket
read_socket events size = must_read (try_read_socket events size 0)

-- A call of send: how many bytes it took, EAGAIN, or another error.
pub data Sent : Type 0 where
  sent_bytes : ℕ → Sent
  sent_again sent_error : Sent

-- The bytes that were taken, and how the loop ended; `none` is that the calls end first.
abbrev pub taken : List ℕ → Option (Result (List ℕ)) → Option (Result (List ℕ))
taken bytes none = none
taken bytes (some (err e)) = some (err e)
taken bytes (some (ok rest)) = some (ok (bytes ++ rest))

-- A call that takes nothing is the end of the connection.
unfoldable pub write_socket : List Sent → List ℕ → Option (Result (List ℕ))
write_socket events [] = some (ok [])
write_socket [] (b ∷ got) = none
write_socket (sent_error ∷ events) (b ∷ got) = some (err runtime_error)
write_socket (sent_again ∷ events) (b ∷ got) = write_socket events (b ∷ got)
write_socket (sent_bytes zero ∷ events) (b ∷ got) = some (err runtime_error)
write_socket (sent_bytes (suc n) ∷ events) (b ∷ got) =
    taken (take (suc n) (b ∷ got)) (write_socket events (drop (suc n) (b ∷ got)))
