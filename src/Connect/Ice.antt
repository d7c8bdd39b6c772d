-- ===== src/Connect/Ice.antt =====
-- src/video/room_wrap.cpp: the option `iceOptions` of `parseConnectOptions`.
use twilio_video_node.Base.{List, [], ◌∷◌, Option, String, Result, ok, ◌>>=◌}
use twilio_video_node.Js.{JsValue, array, Items, nil, get}
use twilio_video_node.Connect.Fields.{
  Thrown, optional, read_string, as_object, as_array, each, one_of,
}

pub data TransportPolicy : Type 0 where
  relay all_transports : TransportPolicy

-- A text that is not given is the default of the struct, the empty one.
pub record IceServer : Type 0 where
  pub urls : List String
  pub username : Option String
  pub password : Option String

pub record IceOptions : Type 0 where
  pub transport_policy : Option TransportPolicy
  pub servers : Option (List IceServer)

abbrev pub policies : List (String × TransportPolicy)
policies = ("relay", relay) ∷ ("all", all_transports) ∷ []

-- `urls` that are not an array are passed over.
abbrev pub as_urls : JsValue → Items
as_urls (array items) = items
as_urls _ = nil

unfoldable pub read_server : JsValue → Result Thrown IceServer
unfolding optional as_object read_string each
read_server v = do
  o ← as_object "iceServers entries" v
  urls ← each (read_string "iceServers[].urls entries") (as_urls (get o "urls"))
  username ← optional o "username" (read_string "iceServers[].username")
  password ← optional o "credential" (read_string "iceServers[].credential")
  ok (record { urls = urls; username = username; password = password })

unfoldable pub read_policy : JsValue → Result Thrown TransportPolicy
unfolding read_string one_of
read_policy v =
    read_string "iceOptions.transportPolicy" v >>= one_of "iceOptions.transportPolicy" policies

unfoldable pub read_servers : JsValue → Result Thrown (List IceServer)
unfolding as_array each read_server
read_servers v = as_array "iceOptions.iceServers" v >>= each read_server

unfoldable pub read_ice_options : JsValue → Result Thrown IceOptions
unfolding optional as_object read_policy read_servers
read_ice_options v = do
  o ← as_object "iceOptions" v
  policy ← optional o "transportPolicy" read_policy
  servers ← optional o "iceServers" read_servers
  ok (record { transport_policy = policy; servers = servers })
