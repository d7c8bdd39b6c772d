-- ===== src/Connect/Nested.antt =====
-- src/video/room_wrap.cpp: the options of `parseConnectOptions` that are objects or arrays are read back
-- from the JS values that write them out.
use twilio_video_node.Base.{
  ℕ, ◌≤◌, ◌^◌, ◌-◌, ◌≡◌, refl, List, [], ◌∷◌, Option, none, some, String, arith, ok,
}
use twilio_video_node.Js.{JsValue, string, array, get, lookup}
use twilio_video_node.Connect.Fields.{optional, as_object, read_bitrate, read_string}
use twilio_video_node.Connect.Fields.{as_array, whole_of}
use twilio_video_node.Connect.Ice.{
  TransportPolicy, relay, all_transports, IceServer, IceOptions, read_server, read_policy,
  read_servers, read_ice_options,
}
use twilio_video_node.Connect.Options.{
  EncodingParameters, read_encoding_parameters, PlatformInfo, read_platform_info, Verbosity,
  no_verbosity, minimal, NetworkQuality, read_verbosity, read_network_quality,
}
use twilio_video_node.Connect.Write.{
  Properties, object_of, fields_of, optional-written, written, write_number, read_bitrate_written,
  find, or_else, read_string_written, items_of, each_written,
}

-- A bitrate that a double holds.
abbrev pub IsSafe : Option ℕ → Type 0
IsSafe none = Unit
IsSafe (some n) = n ≤ 2 ^ 53 - 1

safe : (x : Option ℕ) (n : ℕ) → IsSafe x → x ≡ some n → n ≤ 2 ^ 53 - 1
safe none n h e = cc
safe (some m) n h e = ground arith

pub bitrate_written :
    (ps : Properties) (k field : String) (x : Option ℕ)
    → find k ps ≡ or_else (written write_number x) none
    → IsSafe x
    → optional (object_of ps) k (read_bitrate field) ≡ ok x
bitrate_written ps k field x e h =
    optional-written ps k (read_bitrate field) write_number x e
      (λ n q. read_bitrate_written field n (safe x n h q))

pub text_written :
    (ps : Properties) (k field : String) (x : Option String)
    → find k ps ≡ or_else (written string x) none
    → optional (object_of ps) k (read_string field) ≡ ok x
text_written ps k field x e =
    optional-written ps k (read_string field) string x e (λ s q. read_string_written field s)

pub as_object_written :
    (field : String) (ps : Properties) → as_object field (object_of ps) ≡ ok (object_of ps)
unfolding as_object object_of
as_object_written field ps = refl

abbrev pub encoding_properties : EncodingParameters → Properties
encoding_properties e =
    ("maxAudioBitrate", written write_number e.max_audio_bitrate)
    ∷ ("maxVideoBitrate", written write_number e.max_video_bitrate)
    ∷ []

pub encoding_written :
    (e : EncodingParameters)
    → IsSafe e.max_audio_bitrate
    → IsSafe e.max_video_bitrate
    → read_encoding_parameters (object_of (encoding_properties e)) ≡ ok e
unfolding read_encoding_parameters
encoding_written e a v =
    let ps = encoding_properties e in
    simp (
      as_object_written "encodingParameters" ps,
      bitrate_written ps "maxAudioBitrate" "encodingParameters.maxAudioBitrate" e.max_audio_bitrate
          refl a,
      bitrate_written ps "maxVideoBitrate" "encodingParameters.maxVideoBitrate" e.max_video_bitrate
          refl v,
    )

abbrev pub platform_properties : PlatformInfo → Properties
platform_properties p =
    ("sdkVersion", written string p.sdk_version)
    ∷ ("platformName", written string p.platform_name)
    ∷ ("platformVersion", written string p.platform_version)
    ∷ ("deviceArchitecture", written string p.hw_device_arch)
    ∷ []

pub platform_written :
    (p : PlatformInfo) → read_platform_info (object_of (platform_properties p)) ≡ ok p
unfolding read_platform_info
platform_written p =
    let ps = platform_properties p in
    simp (
      as_object_written "platformInfo" ps,
      text_written ps "sdkVersion" "platformInfo.sdkVersion" p.sdk_version refl,
      text_written ps "platformName" "platformInfo.platformName" p.platform_name refl,
      text_written ps "platformVersion" "platformInfo.platformVersion" p.platform_version refl,
      text_written ps "deviceArchitecture" "platformInfo.deviceArchitecture" p.hw_device_arch refl,
    )

abbrev pub write_verbosity : Verbosity → JsValue
write_verbosity no_verbosity = write_number 0
write_verbosity minimal = write_number 1

read_verbosity_written : (k : String) (v : Verbosity) → read_verbosity k (write_verbosity v) ≡ ok v
unfolding read_verbosity whole_of
read_verbosity_written k no_verbosity = refl
read_verbosity_written k minimal = refl

abbrev pub quality_properties : NetworkQuality → Properties
quality_properties q =
    ("local", written write_verbosity q.local_level)
    ∷ ("remote", written write_verbosity q.remote_level)
    ∷ []

verbosity_written :
    (ps : Properties) (k field : String) (x : Option Verbosity)
    → find k ps ≡ or_else (written write_verbosity x) none
    → optional (object_of ps) k (read_verbosity field) ≡ ok x
verbosity_written ps k field x e =
    optional-written ps k (read_verbosity field) write_verbosity x e
      (λ v q. read_verbosity_written field v)

pub quality_written :
    (q : NetworkQuality) → read_network_quality (object_of (quality_properties q)) ≡ ok q
unfolding read_network_quality
quality_written q =
    let ps = quality_properties q in
    simp (
      as_object_written "networkQualityConfiguration" ps,
      verbosity_written ps "local" "networkQualityConfiguration.local" q.local_level refl,
      verbosity_written ps "remote" "networkQualityConfiguration.remote" q.remote_level refl,
    )

abbrev pub write_policy : TransportPolicy → JsValue
write_policy relay = string "relay"
write_policy all_transports = string "all"

read_policy_written : (p : TransportPolicy) → read_policy (write_policy p) ≡ ok p
unfolding read_policy
read_policy_written relay = refl
read_policy_written all_transports = refl

abbrev pub server_properties : IceServer → Properties
server_properties s =
    ("urls", some (array (items_of string s.urls)))
    ∷ ("username", written string s.username)
    ∷ ("credential", written string s.password)
    ∷ []

abbrev pub write_server : IceServer → JsValue
write_server s = object_of (server_properties s)

urls_written : (s : IceServer) → get (write_server s) "urls" ≡ array (items_of string s.urls)
unfolding get lookup object_of fields_of
urls_written s = refl

read_server_written : (s : IceServer) → read_server (write_server s) ≡ ok s
unfolding read_server
read_server_written s =
    let ps = server_properties s in
    simp (
      as_object_written "iceServers entries" ps,
      urls_written s,
      each_written (read_string "iceServers[].urls entries") string
          (read_string_written "iceServers[].urls entries") s.urls,
      text_written ps "username" "iceServers[].username" s.username refl,
      text_written ps "credential" "iceServers[].credential" s.password refl,
    )

abbrev pub write_servers : List IceServer → JsValue
write_servers servers = array (items_of write_server servers)

read_servers_written :
    (servers : List IceServer) → read_servers (write_servers servers) ≡ ok servers
unfolding read_servers as_array
read_servers_written servers = each_written read_server write_server read_server_written servers

abbrev pub ice_properties : IceOptions → Properties
ice_properties i =
    ("transportPolicy", written write_policy i.transport_policy)
    ∷ ("iceServers", written write_servers i.servers)
    ∷ []

pub ice_written : (i : IceOptions) → read_ice_options (object_of (ice_properties i)) ≡ ok i
unfolding read_ice_options
ice_written i =
    let ps = ice_properties i in
    simp (
      as_object_written "iceOptions" ps,
      optional-written ps "transportPolicy" read_policy write_policy i.transport_policy refl
          (λ p q. read_policy_written p),
      optional-written ps "iceServers" read_servers write_servers i.servers refl
          (λ s q. read_servers_written s),
    )
