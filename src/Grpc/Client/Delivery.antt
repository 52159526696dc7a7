-- ===== src/Grpc/Client/Delivery.antt =====
-- A subscription of the gRPC firmware from its request to the callback
-- (perceptive-layer/grpc/grpc_only/main/src/GrpcManager.cpp).
use governance_iot_platform.Prelude.{
  ℕ, ◌+◌, ◌≤◌, Bool, true, List, [], ◌∷◌, Option, some, flatten, ◌≡◌, refl, ap, All, ◌∙◌, arith,
  if◌then◌else◌,
}
use governance_iot_platform.Grpc.{grpc_frame, buffer_size}
use governance_iot_platform.Grpc.Stream.{frames, Fits, Pending, receive-frames}
use governance_iot_platform.Grpc.Client.{
  Client, Decoder, waited, streamed, dispatch_all, ended, request_stream, subscribe_task_fn,
}

empty-Pending : (ms : List (List ℕ)) → Pending [] ms
empty-Pending [] = refl
empty-Pending (m ∷ ms) = omega arith

-- A round of a ready client, whose request can be encoded, hands the commands of exactly the
-- messages that the broker framed to the callback, in their order, however the stream cuts their
-- bytes into chunks and whatever an earlier stream left in the buffer. It ends with an empty buffer.
-- The longest chunk and the longest message with four bytes of its header are together within the
-- 1024 bytes of the buffer.
pub subscription_delivers :
    (decode : Decoder) (encode : List ℕ → Option (List ℕ)) (g : Client) (proto : List ℕ)
    (chunks ms : List (List ℕ)) (ok : Bool) (k c : ℕ)
    → g.ready ≡ true
    → encode g.sub_topic ≡ some proto
    → k + 4 + c ≤ buffer_size
    → All (Fits k) ms
    → All (Fits c) chunks
    → flatten chunks ≡ frames ms
    → subscribe_task_fn decode encode g chunks ok
      ≡ streamed
          (record g { sub_buffer = [] })
          (grpc_frame proto)
          (dispatch_all decode g.has_callback ms)
          (if ok then 0 else 3000)
unfolding subscribe_task_fn request_stream ended
subscription_delivers decode encode g proto chunks ms ok k c ready encoded h fits small e =
    ap (λ b. if b then request_stream decode g (encode g.sub_topic) chunks ok else waited 500) ready
    ∙ ap (λ o. request_stream decode g o chunks ok) encoded
    ∙ ap (ended decode g (grpc_frame proto) ok)
        (receive-frames k c [] chunks ms h fits small (empty-Pending ms) e)
