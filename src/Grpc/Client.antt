-- ===== src/Grpc/Client.antt =====
-- GrpcManager (perceptive-layer/grpc/grpc_only/main/src/GrpcManager.cpp): its start, the commands
-- that it receives and the messages that it publishes. What nanopb and h2client answer are arguments.
use governance_iot_platform.Prelude.{
  ℕ, ◌-◌, Bool, true, false, ◌&&◌, not, Option, none, some, List, [], ◌∷◌, ◌++◌, if◌then◌else◌,
  ◌==◌, take,
}
use governance_iot_platform.Prelude.Text.{codes, text_in}
use governance_iot_platform.Grpc.{Scan, stopped, overrun, unfinished, grpc_frame, receive}
pub mod Delivery

-- a string field as the decoder meets it
pub data Field : Type 0 where
  topic from message : List ℕ → Field

-- pb_decode of a Message: the string fields up to its end or its first error, and whether it ended
abbrev pub Decoder : Type 0
Decoder = List ℕ → List Field × Bool

-- decode_string_cb: what it leaves before the terminator in a buffer of `size` bytes
unfoldable pub decode_string_cb : ℕ → List ℕ → List ℕ
decode_string_cb size bytes = take (size - 1) bytes

pub record Command : Type 0 where
  pub on_topic : List ℕ
  pub content : List ℕ

-- topic_buf and msg_buf after the callbacks; from_buf is only logged
unfoldable pub fill : List Field → Command → Command
unfolding decode_string_cb
fill [] t = t
fill (topic bytes ∷ fields) t = fill fields (record t { on_topic = decode_string_cb 128 bytes })
fill (from bytes ∷ fields) t = fill fields t
fill (message bytes ∷ fields) t = fill fields (record t { content = decode_string_cb 512 bytes })

abbrev pub blank_texts : Command
blank_texts = record { on_topic = []; content = [] }

unfoldable pub is_blank : List ℕ → Bool
is_blank [] = true
is_blank (c ∷ cs) = false

-- dispatch_message, with what s_callback is called with
unfoldable pub dispatch_message : Decoder → Bool → List ℕ → List Command
unfolding fill text_in is_blank
dispatch_message decode has_callback pb =
    let (fields, decoded) = decode pb in
    let texts = fill fields blank_texts in
    let content = text_in texts.content in
    if decoded && has_callback && not (is_blank content)
    then record { on_topic = text_in texts.on_topic; content = content } ∷ []
    else []

unfoldable pub dispatch_all : Decoder → Bool → List (List ℕ) → List Command
unfolding dispatch_message
dispatch_all decode has_callback [] = []
dispatch_all decode has_callback (pb ∷ pbs) =
    dispatch_message decode has_callback pb ++ dispatch_all decode has_callback pbs

-- g_ready, whether s_callback is set, s_sub_topic, and s_sub_buf up to s_sub_len
pub record Client : Type 0 where
  pub ready : Bool
  pub has_callback : Bool
  pub sub_topic : List ℕ
  pub sub_buffer : List ℕ

-- One round of the task: the wait before the next one, in ms; the body of the request, if one was
-- sent, and the commands that were handed on; or a run over the end of the buffer.
pub data Round : Type 0 where
  waited : ℕ → Round
  streamed : Client → List ℕ → List Command → ℕ → Round
  faulted : List Command → Round

unfoldable pub ended : Decoder → Client → List ℕ → Bool → Scan → Round
unfolding dispatch_all
ended decode g body ok (stopped msgs rest) =
    streamed (record g { sub_buffer = rest }) body (dispatch_all decode g.has_callback msgs)
      (if ok then 0 else 3000)
ended decode g body ok (overrun msgs) = faulted (dispatch_all decode g.has_callback msgs)
ended decode g body ok unfinished = faulted []

unfoldable pub request_stream : Decoder → Client → Option (List ℕ) → List (List ℕ) → Bool → Round
unfolding grpc_frame receive ended
request_stream decode g none chunks ok = waited 3000
request_stream decode g (some proto) chunks ok =
    ended decode g (grpc_frame proto) ok (receive [] chunks)

-- One round of subscribe_task_fn: `encode` is pb_encode of a RegisterRequest, `chunks` is what the
-- stream delivers, and `ok` is how it ends.
unfoldable pub subscribe_task_fn :
    Decoder → (List ℕ → Option (List ℕ)) → Client → List (List ℕ) → Bool → Round
unfolding request_stream
subscribe_task_fn decode encode g chunks ok =
    if g.ready then request_stream decode g (encode g.sub_topic) chunks ok else waited 500

-- GrpcManager::setCallback
unfoldable pub set_callback : Client → Client
set_callback g = record g { has_callback = true }

-- GrpcManager::init: the client, and whether the task is created and the state of the device moves
-- to PROVISIONING_SUCCESS
unfoldable pub init : Bool → List ℕ → Client → Client × Bool
init initialised mac g =
    if not g.ready && initialised
    then (record g { ready = true; sub_topic = take 127 (codes "commands/" ++ mac) }, true)
    else (g, false)

-- The request bodies that a publication sends, and whether one was accepted.
pub record Publication : Type 0 where
  pub bodies : List (List ℕ)
  pub accepted : Bool

unfoldable pub attempt_twice : List ℕ → Bool → Bool → Publication
attempt_twice body first second =
    if first
    then record { bodies = body ∷ []; accepted = true }
    else record { bodies = body ∷ body ∷ []; accepted = second }

unfoldable pub send : Option (List ℕ) → Bool → Bool → Publication
unfolding grpc_frame attempt_twice
send none first second = record { bodies = []; accepted = false }
send (some proto) first second = attempt_twice (grpc_frame proto) first second

-- GrpcManager::publish: `encode` is pb_encode of a Message, `first` and `second` are the answers of
-- h2client_do_request.
unfoldable pub publish :
    (List ℕ → List ℕ → List ℕ → Option (List ℕ))
    → Client
    → List ℕ
    → List ℕ
    → List ℕ
    → Bool
    → Bool
    → Publication
unfolding send
publish encode g mac payload on_topic first second =
    if g.ready
    then send (encode on_topic mac payload) first second
    else record { bodies = []; accepted = false }
