-- ===== src/Channel/Tests.antt =====
-- Runs of a channel's operations, and the theorems at concrete inputs.
use libanet.Common.{◌≡◌, refl, inr, inl, true, false, none, [], ◌∷◌}
use libanet.Common.Int.{negsuc}
use libanet.Channel.{
  Channel, Handlers, on_close, on_error, on_read, create, has, update, enable_reading,
  enable_writing, disable_reading, disable_writing, disable_all, remove, tie, is_reading,
  is_writing, handle_event_with_guard, handle_event,
}
use libanet.Channel.Events.{Switches, events-Switches}
use libanet.Channel.Dispatch.{times, InOrder, times-handle_event, handle_event-InOrder}

operations : Unit {0}
unfolding create has update enable_reading enable_writing disable_reading disable_writing
    disable_all remove tie handle_event_with_guard handle_event times
operations = tt

abbrev idle : Channel
idle = record {
  fd = 5;
  events = 0;
  revents = 0x019;
  index = negsuc 0;
  log_hup = true;
  tied = true;
  event_handling = false;
  added_to_loop = false;
}

abbrev all_set : Handlers
all_set = record { close_set = true; error_set = true; read_set = true; write_set = true }

runs :
    (is_writing (enable_writing (enable_reading (create 5))) ≡ true)
    × (is_reading (disable_reading (enable_writing (enable_reading idle))) ≡ false)
    × (remove (enable_reading idle) ≡ none)
    × (handle_event all_set idle true ≡ on_error ∷ on_read ∷ [])
    × (handle_event all_set idle false ≡ [])
    × (handle_event all_set (record idle { revents = 0x010 }) true ≡ on_close ∷ [])
unfolding operations
runs = (refl, refl, refl, refl, refl, refl)

events-Switches_example : Switches (record idle { events = 3 })
events-Switches_example = events-Switches (record idle { events = 3 }) (inr (inl refl))

times-handle_event_example : times on_close (handle_event all_set idle true) ≡ 0
unfolding operations
times-handle_event_example = times-handle_event all_set idle true on_close

handle_event-InOrder_example : InOrder (on_error ∷ on_read ∷ [])
unfolding operations
handle_event-InOrder_example = handle_event-InOrder all_set idle true
