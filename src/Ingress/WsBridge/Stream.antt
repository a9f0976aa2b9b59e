-- ===== src/Ingress/WsBridge/Stream.antt =====
-- What a browser gets of a stream of frames.
use clustertalk_githubaction.Ingress.WsBridge.Codec.{read_tcp_frame-encode_frame, name_of}
use clustertalk_githubaction.Ingress.WsBridge.{
  told, backend_closed, length, bye, sent_on, connection_error, tcp_to_browser, read_tcp_frame,
  frame_to_ws_json, Values,
}
use clustertalk_githubaction.Protocol.MessageType.{MessageType}
use clustertalk_githubaction.Protocol.Framing.{
  readexactly, encode_frame, default_max_frame_size, body_of, Orjson, FrameError, Bytes,
}
use clustertalk_githubaction.Prelude.{
  zero, suc, suc, [], ℕ, ◌≤◌, ◌<◌, ◌∷◌, ◌++◌, ◌≡◌, Result, All, Option, List, err, ok, refl, arith,
  nat_eq, list_eq, Text, ◌>>=◌,
}
use clustertalk_githubaction.Prelude.Dict.{Dict}

module _ {V : Type 0} (values : Values V) (json : Orjson (Dict Text V)) where
  -- The stream of a node that sends frames
  pub encode_all : List (MessageType × Option (Dict Text V)) → Result FrameError Bytes
  encode_all [] = ok []
  encode_all ((t, p) ∷ frames) = do
    frame ← encode_frame json t p
    rest ← encode_all frames
    ok (frame ++ rest)

  -- What the browser is to get
  pub relayed_all : List (MessageType × Option (Dict Text V)) → List Bytes
  relayed_all [] = bye values json ∷ []
  relayed_all ((t, p) ∷ frames) = frame_to_ws_json values json (name_of t) p ∷ relayed_all frames

  -- Every frame is within the limit of the bridge.
  abbrev pub AllFit : List (MessageType × Option (Dict Text V)) → Type 0
  AllFit frames = All (λ f. suc (length (body_of json f.1)) ≤ default_max_frame_size) frames

  read_end : read_tcp_frame values json default_max_frame_size [] ≡ err connection_error
  unfolding read_tcp_frame readexactly
  read_end = refl

  -- A node's frames of any types, each within the limit, reach the browser in order, each as its JSON,
  -- and then it is told that the backend is gone, if the browser stays for one message more than
  -- there are frames; fuel of one round more than there are frames is enough.
  pub tcp_to_browser-relayed_all :
      (frames : List (MessageType × Option (Dict Text V))) (fuel sends : ℕ)
      → AllFit frames
      → length frames < fuel
      → length frames < sends
      → (stream : Bytes) × (encode_all frames ≡ ok stream)
        × (tcp_to_browser values json fuel sends stream ≡ (relayed_all frames, backend_closed))
  unfolding encode_all relayed_all tcp_to_browser sent_on told
  tcp_to_browser-relayed_all frames zero sends fit enough stays = absurd (omega (arith, enough))
  tcp_to_browser-relayed_all frames (suc fuel) zero fit enough stays = absurd (omega (arith, stays))
  tcp_to_browser-relayed_all [] (suc fuel) (suc n) fit enough stays = ([], refl, rw read_end)
  tcp_to_browser-relayed_all ((t, p) ∷ frames) (suc fuel) (suc n) (fits, fit) enough stays =
      let (rest, encoding, relaying) =
        tcp_to_browser-relayed_all frames fuel n fit (omega (arith, enough))
          (omega (arith, stays)) in
      let (frame, packed, reading, _) =
        read_tcp_frame-encode_frame values json default_max_frame_size t p rest (omega arith)
          fits in
      (frame ++ rest, rw (packed, encoding), rw (reading, relaying))
