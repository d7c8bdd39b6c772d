-- ===== src/Tests.antt =====
-- Runs of the model on concrete data, and the theorems applied to such data.
mod Async
mod DataTrack
mod Device
mod Participant
mod Video
mod Audio
mod Sink
mod Stats
mod RemoteData
mod Connect
mod RemoteMedia
mod RoomObserver
mod RoomCache
mod DataRegistry
mod LocalParticipant
mod Factory
