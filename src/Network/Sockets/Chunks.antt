-- ===== src/Network/Sockets/Chunks.antt =====
-- Messages that come and go in pieces (src/nn/nn-network.cpp).
use distributed_llama.Base.{
  ℕ, zero, suc, ◌-◌, ◌≤◌, ◌<◌, ◌≡◌, refl, ap, sym, ◌∙◌, arith, Bool, true, false, List, [], ◌∷◌,
  ◌++◌, Option, some, length, length-append, append_assoc, take, drop, ◌==◌, Result, ok,
}
use distributed_llama.Network.Sockets.{
  Received, received_bytes, received_again, received_error, received_end, after_again,
  try_read_loop, try_read_socket, must_read, read_socket, Sent, sent_bytes, sent_again, sent_error,
  taken, write_socket,
}

-- Calls of recv that give these bytes, in pieces of any size that is not zero, with EAGAIN between.
abbrev pub Delivers : List Received → List ℕ → Type 0
Delivers [] bytes = [] ≡ bytes
Delivers (received_again ∷ events) bytes = Delivers events bytes
Delivers (received_error ∷ events) bytes = ⊥
Delivers (received_end ∷ events) bytes = ⊥
Delivers (received_bytes chunk ∷ events) bytes =
    (0 < length chunk) × (rest : List ℕ) × (chunk ++ rest ≡ bytes) × Delivers events rest

append_nil : (xs : List ℕ) → xs ++ [] ≡ xs
append_nil [] = refl
append_nil (x ∷ xs) = ap (◌∷◌ x) (append_nil xs)

no_attempts :
    (b : Bool) (next : ℕ → Option (Result (Bool × List ℕ))) (got : List ℕ)
    → after_again b 0 next got ≡ next 0
no_attempts true next got = refl
no_attempts false next got = refl

try_read_loop-Delivers :
    (events : List Received) (bytes got : List ℕ) (size s : ℕ)
    → Delivers events bytes
    → s ≡ length bytes
    → try_read_loop events size s 0 got ≡ some (ok (true, got ++ bytes))
unfolding try_read_loop
try_read_loop-Delivers events [] got size zero d e =
    ap (λ x. some (ok (true, x))) (sym (append_nil got))
try_read_loop-Delivers events (b ∷ bytes) got size zero d e = absurd (omega arith)
try_read_loop-Delivers [] bytes got size (suc s) d e = absurd (omega (arith, ap length d))
try_read_loop-Delivers (received_error ∷ events) bytes got size (suc s) d e = absurd d
try_read_loop-Delivers (received_end ∷ events) bytes got size (suc s) d e = absurd d
try_read_loop-Delivers (received_again ∷ events) bytes got size (suc s) d e =
    no_attempts (suc s == size) _ got ∙ try_read_loop-Delivers events bytes got size (suc s) d e
try_read_loop-Delivers (received_bytes chunk ∷ events) bytes got size (suc s) (pos, rest, same, d)
      e =
    try_read_loop-Delivers events rest (got ++ chunk) size (suc s - length chunk) d
      (omega (arith, e, ap length same, length-append chunk rest))
    ∙ ap (λ x. some (ok (true, x))) (append_assoc got chunk rest ∙ ap (λ t. got ++ t) same)

-- If the calls of recv give some bytes, in pieces of any size that is not zero and with EAGAIN
-- between them, then a read of that many bytes returns them.
pub read_socket-Delivers :
    (events : List Received) (bytes : List ℕ)
    → Delivers events bytes
    → read_socket events (length bytes) ≡ some (ok bytes)
unfolding read_socket try_read_socket
read_socket-Delivers events bytes d =
    ap must_read (try_read_loop-Delivers events bytes [] (length bytes) (length bytes) d refl)

take-drop : (n : ℕ) (xs : List ℕ) → take n xs ++ drop n xs ≡ xs
take-drop zero xs = refl
take-drop (suc n) [] = refl
take-drop (suc n) (x ∷ xs) = ap (◌∷◌ x) (take-drop n xs)

-- Calls of send that take these bytes, some of them at a time, with EAGAIN between.
abbrev pub Accepts : List Sent → List ℕ → Type 0
Accepts [] bytes = [] ≡ bytes
Accepts (sent_again ∷ events) bytes = Accepts events bytes
Accepts (sent_error ∷ events) bytes = ⊥
Accepts (sent_bytes n ∷ events) bytes = (0 < n) × (n ≤ length bytes) × Accepts events (drop n bytes)

-- If the calls of send take some bytes, a number of them at a time that is not zero and with EAGAIN
-- between, then a write of the bytes ends and has sent them all, in order.
pub write_socket-Accepts :
    (events : List Sent) (bytes : List ℕ)
    → Accepts events bytes
    → write_socket events bytes ≡ some (ok bytes)
unfolding write_socket
write_socket-Accepts events [] a = refl
write_socket-Accepts [] (b ∷ bytes) a = cc
write_socket-Accepts (sent_error ∷ events) (b ∷ bytes) a = absurd a
write_socket-Accepts (sent_again ∷ events) (b ∷ bytes) a = write_socket-Accepts events (b ∷ bytes) a
write_socket-Accepts (sent_bytes zero ∷ events) (b ∷ bytes) (pos, le, a) = absurd (omega arith)
write_socket-Accepts (sent_bytes (suc n) ∷ events) (b ∷ bytes) (pos, le, a) =
    ap (taken (take (suc n) (b ∷ bytes))) (write_socket-Accepts events (drop (suc n) (b ∷ bytes)) a)
    ∙ ap (λ x. some (ok x)) (take-drop (suc n) (b ∷ bytes))
