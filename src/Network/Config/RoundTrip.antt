-- ===== src/Network/Config/RoundTrip.antt =====
-- A configuration from the root to a worker (src/nn/nn-network.cpp).
use distributed_llama.Base.{ℕ, ◌^◌, ◌<◌, ◌≡◌, ap, ◌∙◌, arith, List, ◌++◌, Result, ok}
use distributed_llama.Core.Config.{NnNetConfig, NnNodeConfig}
use distributed_llama.Network.Stream.{
  Reader, Reads, Reads-then, Reads-end, Reads-pure, read_number-Reads,
}
use distributed_llama.Network.Wire.{u32}
use distributed_llama.Network.Config.{
  Socket, ack, received, receive, read_ack_packet, await_ack, acknowledged, socket_of, and_ack,
  net_bytes, net_fields, write_net, read_net, node_bytes, node_fields, write_node, read_node,
}
use distributed_llama.Network.Config.Fields.{FitsNet, FitsNode, net_fields-Reads, node_fields-Reads}

read_ack_packet-Reads : Reads read_ack_packet (u32 ack) tt
unfolding read_ack_packet
read_ack_packet-Reads = Reads-end _ (read_number-Reads 4 ack (omega arith)) (Reads-pure tt)

-- Bytes that begin a connection's input are taken off it.
pub receive-Reads {ℓ} :
    {A : Type ℓ} (g : Reader A) (bytes rest : List ℕ) (a : A) (s : Socket)
    → Reads g bytes a
    → s.incoming ≡ bytes ++ rest
    → receive g s ≡ ok (a, record s { incoming = rest })
receive-Reads g bytes rest a s p e =
    ap (λ bytes. received s (g bytes)) e ∙ ap (received s) (p.run rest)

await_ack-received :
    (s : Socket) (rest : List ℕ)
    → s.incoming ≡ u32 ack ++ rest
    → await_ack s ≡ ok (record s { incoming = rest })
unfolding await_ack
await_ack-received s rest e =
    ap socket_of (receive-Reads read_ack_packet (u32 ack) rest tt s read_ack_packet-Reads e)

acknowledged-received {ℓ} :
    {A : Type ℓ} (g : Reader A) (bytes rest : List ℕ) (a : A) (s : Socket)
    → Reads g bytes a
    → s.incoming ≡ (u32 ack ++ bytes) ++ rest
    → acknowledged g s ≡ ok (a, record { incoming = rest; sent = s.sent ++ u32 ack })
unfolding acknowledged
acknowledged-received g bytes rest a s p e =
    ap and_ack
      (receive-Reads _ (u32 ack ++ bytes) rest a s (Reads-then _ read_ack_packet-Reads p) e)

-- What the worker that is sent these bytes does with them.
abbrev pub Answers {ℓ} : {A : Type ℓ} → (Socket → Result (A × Socket)) → List ℕ → A → Type ℓ
Answers reader bytes a =
    (worker : Socket) (later : List ℕ)
    → worker.incoming ≡ bytes ++ later
    → reader worker ≡ ok (a, record { incoming = later; sent = worker.sent ++ u32 ack })

module _ (padding : ℕ) where
  -- The root that writes a network's configuration sends bytes from which the worker reads the same
  -- configuration, no byte more or less, and answers with the acknowledgement that the root waits
  -- for, if every number fits its field, every name is a C string and the acknowledgement is the
  -- next thing to come.
  pub write_net-read_net :
      (c : NnNetConfig) (root : Socket) (rest : List ℕ)
      → padding < 256 ^ 4
      → FitsNet c
      → root.incoming ≡ u32 ack ++ rest
      → (bytes : List ℕ) × (write_net padding c root
          ≡ ok (record { incoming = rest; sent = root.sent ++ bytes }))
        × Answers read_net bytes c
  unfolding write_net read_net
  write_net-read_net c root rest pad fits e = (
    u32 ack ++ net_bytes padding c,
    await_ack-received _ rest e,
    λ worker later e'.
        acknowledged-received net_fields (net_bytes padding c) later c worker
          (net_fields-Reads padding pad c fits) e',
  )

  -- The root that writes a node's configuration sends bytes from which the worker reads the same
  -- configuration, no byte more or less, and answers with the acknowledgement that the root waits
  -- for, if every number fits its field, every name is a C string and the acknowledgement is the
  -- next thing to come.
  pub write_node-read_node :
      (c : NnNodeConfig) (root : Socket) (rest : List ℕ)
      → padding < 256 ^ 4
      → FitsNode c
      → root.incoming ≡ u32 ack ++ rest
      → (bytes : List ℕ) × (write_node padding c root
          ≡ ok (record { incoming = rest; sent = root.sent ++ bytes }))
        × Answers read_node bytes c
  unfolding write_node read_node
  write_node-read_node c root rest pad fits e = (
    u32 ack ++ node_bytes padding c,
    await_ack-received _ rest e,
    λ worker later e'.
        acknowledged-received node_fields (node_bytes padding c) later c worker
          (node_fields-Reads padding pad c fits) e',
  )
