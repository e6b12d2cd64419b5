-- ===== src/Service/Phases.antt =====
-- The contract of the service of mobile/yggmail.go as an abstract machine: three phases, and the moves
-- that a call makes when it succeeds and when it fails.
use yggmail_android.Base.{Bool, true, false}
use yggmail_android.Service.{YggmailService, Platform}
use yggmail_android.Service.Peers.{Core}
use yggmail_android.Service.Machine.{Command, initializes, starts, stops, closes}

-- Without a storage, with one, and running.
pub data Phase : Type 0 where
  closed opened serving : Phase

abbrev pub phase_of : Bool → Bool → Phase
phase_of true storage = Phase.serving
phase_of false true = Phase.opened
phase_of false false = Phase.closed

abbrev pub phase : YggmailService → Phase
phase s = phase_of s.running s.storage

-- The calls that move the service, and all other ones.
pub data Event : Type 0 where
  initialize_call start_call stop_call close_call other_call : Event

-- The moves of the contract, by the call and by its success.
pub data Move : Event → Bool → Phase → Phase → Type 0 where
  opens : Move Event.initialize_call true Phase.closed Phase.opened
  opens_half : Move Event.initialize_call false Phase.closed Phase.opened
  opens_not : (p : Phase) → Move Event.initialize_call false p p
  begins : Move Event.start_call true Phase.opened Phase.serving
  begins_not : (p : Phase) → Move Event.start_call false p p
  ends : Move Event.stop_call true Phase.serving Phase.opened
  ends_not_closed : Move Event.stop_call false Phase.closed Phase.closed
  ends_not_opened : Move Event.stop_call false Phase.opened Phase.opened
  shuts : Move Event.close_call true Phase.opened Phase.closed
  shuts_again : Move Event.close_call true Phase.closed Phase.closed
  shuts_not_serving : Move Event.close_call false Phase.serving Phase.serving
  shuts_not_opened : Move Event.close_call false Phase.opened Phase.opened
  stays : (b : Bool) (p : Phase) → Move Event.other_call b p p

abbrev pub event_of : (env : Platform) (core : Core) → Command env core → Event
event_of env core initializes = Event.initialize_call
event_of env core (starts _ _) = Event.start_call
event_of env core stops = Event.stop_call
event_of env core closes = Event.close_call
event_of env core _ = Event.other_call
