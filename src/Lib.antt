-- ===== src/Lib.antt =====
-- twilio-video-node: the native addon of Twilio Video for Node.js, in src/ of the repository. JS calls it
-- through N-API; it calls rtc-cpp and WebRTC, whose threads call it back.
--
-- How the parts interact. The media and signalling threads hand callbacks to an AsyncContext, whose queue
-- the JS thread drains when libuv says so. Local tracks take frames and messages from JS: a video frame
-- goes to a WebRTC source, an audio frame to the publish queue of the audio device, which a 10 ms task
-- empties, and a message to rtc-cpp, whose report of its outcome comes back through an AsyncContext to
-- resolve a promise. Remote tracks hand frames to sinks, and a remote participant's events go to an
-- observer that buffers them until a JS wrap is bound; both reach JS through an AsyncContext of their own.
-- A Room has a registry of these observers, and hands JS one wrap per participant; its own events have a
-- queue of their own, which a participant's departure enters only through the participant's queue.
--
-- The modules, and the code that each is about:
--   Base         shared names, Boolean tests, lists, machine words, integers, results
--   Js           src/common/napi_options.cpp, over a model of JS values: `get`, `has` and the tests of
--                N-API are functions of that model
--   Async        src/common/async_context.cpp: `dispatch`, `close`, `ref`, ... are the methods;
--                Async.Drain has `drain`, `on_async` and `report_fatal`, and what surrounds them
--   Device       src/media/node_audio_device.cpp: one function per method, `tick` for the task
--   DataTrack    src/media/local_data_track_wrap.cpp: `send`, `settle_send`, `destroy`, ...
--   Factory      src/media/media_factory_wrap.cpp: the options of new tracks, with the getters that give
--                the limits of a data track back
--   Writes       what the two kinds of local media track share
--   Video        src/media/local_video_track_wrap.cpp: `check_frame` and `finish_write` are `Write`
--                before and from the copy on, `push_frame` is `PushFrame`
--   Audio        src/media/local_audio_track_wrap.cpp, on the device of Device
--   Participant  src/video/remote_participant_wrap.cpp: `bind`, `enqueue`, `replay`, `close_observer`,
--                `new_instance` and `destroy` of the observer and its wraps
--   Sink         src/sinks: the state of both sinks, with their data and JS objects in Sink.Media
--   RoomObserver src/video/room_observer_wrap.cpp: the registry of observers, and in RoomObserver.Events the
--                Room's queue; `get_or_create`, `forget`, `dispatch_raw`, `on_participant_disconnected`
--   LocalParticipant  src/video/local_participant_wrap.cpp: the observer and its wrap; LocalParticipant.Publish
--                and LocalParticipant.Limits are about the methods that JS calls, and
--                LocalParticipant.Connected is about `onConnected` and `close` of
--                src/video/room_observer_wrap.cpp
--   RoomCache    src/video/room_wrap.cpp: `GetRemoteParticipants`, `GetDominantSpeaker` and the cache of
--                wraps, on the registry of RoomObserver
--   Connect      src/video/room_wrap.cpp: `Connect`, with `parseConnectOptions` and each of its readers
--   Stats        src/video/room_wrap.cpp: the one-shot observers behind `getStats`, and `Dispose`
--   RemoteData   src/media/remote_data_track_wrap.cpp: the observer of a remote data track, and its wraps;
--                RemoteData.Registry has the process-wide registry of these observers
--   RemoteMedia  src/media/remote_video_track_wrap.cpp and src/media/remote_audio_track_wrap.cpp: attaching
--                and detaching a sink
--   Tests        runs on concrete data
--
-- State and threads. A component's state is a record. A method that takes the component's mutex is one
-- function of it, and what several threads do is a list of such steps in any order, so that a theorem on
-- all lists covers every interleaving of the methods. Callbacks of AsyncContext are arbitrary: what they
-- call and throw is a parameter. A callback of the other components runs between two such steps. Contexts
-- are taken to be destroyed on the JS thread, and `Init` and `Terminate` of the audio device, which start
-- and end its task outside their lock, to be one step each.
--
-- Bounds. size_t, uint64_t and uint32_t wrap where the code adds or multiplies on them; int32_t values are
-- integers tested for their range. No definition takes fuel: loops are recursion on the list that they
-- consume, and a run is one over the list of its steps.
--
-- Parameters and hypotheses. The ids that rtc-cpp gives to messages are arguments; DataTrack's theorems
-- take it that no message gets the id of one that waits. What WebRTC's adapter answers, the clocks and
-- rtc-cpp's limit of a message are arguments, as are the SID that a participant reports, the address of a
-- track, the Room that rtc-cpp's connect gives, its answers to tracks published, and whether WebRTC's
-- track behind a remote track is still there. rtc-cpp's builder of options is a function that keeps a set
-- limit and gives -1 for one not set. LocalParticipant.Connected takes it that rtc-cpp calls onConnected
-- once for a Room.
--
-- Not modelled: the JS objects that events and statistics carry, which are any values or left out here;
-- the timer of macOS; the video content preferences of src/media/remote_video_track_wrap.cpp and the
-- getters of all wraps, which pass on what rtc-cpp answers; src/common/error.cpp, which makes two JS
-- objects; and src/addon.cpp, the glue that registers the classes. JS getters that throw and prototypes
-- are left out of the model of JS values.
pub mod Base
pub mod Async
pub mod Device
pub mod DataTrack
pub mod Js
pub mod LocalParticipant
pub mod Factory
pub mod Writes
pub mod Video
pub mod Audio
pub mod Participant
pub mod Sink
pub mod Stats
pub mod RemoteData
pub mod Connect
pub mod RemoteMedia
pub mod RoomObserver
pub mod RoomCache
mod Tests
